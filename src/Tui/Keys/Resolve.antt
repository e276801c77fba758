-- ===== src/Tui/Keys/Resolve.antt =====
-- `handle_key_event` and `dispatch_all` of ferro-wg-tui/src/lib.rs, with the components' own state.
use ferro_wg.Prelude.{
  ℕ, Bool, true, false, List, [], ◌++◌, Option, none, some, Result, ok, err, ◌>>=◌, if◌then◌else◌,
}
use ferro_wg.External.{External}
use ferro_wg.Core.Config.{WgConfig}
use ferro_wg.Core.Toml.{Printer}
use ferro_wg.Tui.App.{
  Tab, overview, status, peers, compare, config, logs, InputMode, normal, search, importing,
  exporting, edit_field,
}
use ferro_wg.Tui.Action.{Action, KeyCode}
use ferro_wg.Tui.ConfigEdit.{interface}
use ferro_wg.Tui.State.Types.{Clock, Panic, AppState}
use ferro_wg.Tui.State.Dispatch.{dispatch}
use ferro_wg.Tui.EventLoop.{follow_up}
use ferro_wg.Tui.Keys.Commands.{
  Spawned, maybe_spawn_command, task_list, import_task, export_task, save_task,
}
use ferro_wg.Tui.Keys.Event.{KeyEvent, handle_global_key}
use ferro_wg.Tui.Keys.Tables.{
  connection_bar_key, overview_key, status_key, peers_key, compare_key, connections_update,
  peers_update, compare_update,
}
use ferro_wg.Tui.Keys.Focus.{ConfigFocus, config_key, config_update}
use ferro_wg.Tui.Keys.LogsView.{LogsView, new_logs_view, logs_key}
use ferro_wg.Tui.Keys.Overlays.{
  help_overlay_key, diff_preview_key, confirm_dialog_key, status_bar_key, filter_overlay_key,
  filter_update,
}

-- What the components keep: the rows in focus, the focus of the configuration and the log view.
pub record ComponentBundle : Type 0 where
  pub overview_row : ℕ
  pub status_row : ℕ
  pub peers_row : ℕ
  -- the live table and the list of past runs
  pub compare_rows : ℕ × ℕ
  pub filter_row : ℕ
  pub focus : ConfigFocus
  pub logs_view : LogsView

unfoldable pub new_bundle : ComponentBundle
new_bundle = record {
  overview_row = 0;
  status_row = 0;
  peers_row = 0;
  compare_rows = (0, 0);
  filter_row = 0;
  focus = record { section = interface; field_idx = 0 };
  logs_view = new_logs_view;
}

unfoldable pub is_set {ℓ} : {A : Type ℓ} → Option A → Bool
is_set none = false
is_set (some _) = true

unfoldable pub is_prompt : InputMode → Bool
is_prompt search = true
is_prompt (importing _) = true
is_prompt (exporting _) = true
is_prompt normal = false
is_prompt edit_field = false

-- What a key event comes to: an action or none, and the components' state.
abbrev pub Resolved : Type 0
Resolved = Result (Option Action × ComponentBundle) Panic

unfoldable pub or_else : Option Action → Option Action → Option Action
or_else none other = other
or_else (some a) other = some a

unfoldable pub config_resolved :
    ComponentBundle → Result (Option Action × ConfigFocus) Panic → Resolved
config_resolved b (ok (a, f)) = ok (a, record b { focus = f })
config_resolved b (err p) = err p

-- The active tab's component.
unfoldable pub tab_key : Tab → KeyCode → AppState → ComponentBundle → Resolved
tab_key overview code s b = ok (overview_key code s, b)
tab_key status code s b = ok (status_key code s b.status_row, b)
tab_key peers code s b = ok (peers_key code, b)
tab_key compare code s b = ok (compare_key code b.compare_rows.0, b)
tab_key config code s b = config_resolved b (config_key code s b.focus)
tab_key logs code s b = ok (none, record b { logs_view = logs_key code s b.logs_view })

-- A global key or one of the connection bar, else the tab's.
unfoldable pub or_tab : Option Action → KeyCode → AppState → ComponentBundle → Resolved
or_tab (some a) code s b = ok (some a, b)
or_tab none code s b = tab_key s.active_tab code s b

module _ (ext : External) where
  unfoldable pub resolve_key : KeyEvent → AppState → ComponentBundle → Resolved
  resolve_key key s b =
      if s.show_help
      then ok (help_overlay_key key.code s, b)
      else if s.show_connection_filter
      then ok (filter_overlay_key ext key.code s b.filter_row, b)
      else if is_set s.config_diff_pending
      then ok (diff_preview_key key.code s, b)
      else if is_set s.pending_confirm
      then ok (confirm_dialog_key key.code s, b)
      else if is_prompt s.input_mode
      then ok (status_bar_key key.code s.input_mode, b)
      else or_tab (or_else (handle_global_key key) (connection_bar_key key.code)) key.code s b

  -- `update` of every component, after `dispatch`.
  unfoldable pub update_all : Action → AppState → ComponentBundle → Result ComponentBundle Panic
  update_all a s b = do
    focus ← config_update a s b.focus
    ok (record b {
      overview_row = connections_update a s b.overview_row;
      status_row = connections_update a s b.status_row;
      peers_row = peers_update ext a s b.peers_row;
      compare_rows = compare_update a s b.compare_rows;
      filter_row = filter_update ext a s b.filter_row;
      focus = focus;
    })

-- The states after a key event, and the tasks it spawned, in order.
abbrev pub KeyEffect : Type 0
KeyEffect = (AppState × ComponentBundle) × List Spawned

module _ (ext : External) (printer : Printer WgConfig) where
  unfoldable pub dispatch_all :
      Clock → Action → AppState × ComponentBundle → Result (AppState × ComponentBundle) Panic
  dispatch_all clock a (s, b) = do
    s' ← dispatch ext printer clock a s
    b' ← update_all ext a s' b
    ok (s', b')

  unfoldable pub dispatch_follow :
      Clock → Option Action → AppState × ComponentBundle → Result (AppState × ComponentBundle) Panic
  dispatch_follow clock none sb = ok sb
  dispatch_follow clock (some a) sb = dispatch_all clock a sb

  unfoldable pub follow_tasks : Option Action → AppState → List Spawned
  follow_tasks none s = []
  follow_tasks (some a) s = task_list (maybe_spawn_command a s)

  -- The state before the dispatches has what they clear: the question, the path and the draft.
  unfoldable pub dispatch_resolved :
      Clock → Clock → Option Action → AppState × ComponentBundle → Result KeyEffect Panic
  dispatch_resolved clock later none sb = ok (sb, [])
  dispatch_resolved clock later (some a) (s, b) = do
    let follow = follow_up a s.pending_confirm
    first ← dispatch_all clock a (s, b)
    second ← dispatch_follow later follow first
    ok (
      second,
      task_list (maybe_spawn_command a first.0)
          ++ follow_tasks follow second.0
          ++ task_list (import_task a s.input_mode)
          ++ task_list (export_task a s.input_mode second.0.benchmark_history)
          ++ task_list (save_task a s.config_diff_pending),
    )

  -- The clocks are those of the two dispatches.
  unfoldable pub handle_key_event :
      Clock → Clock → KeyEvent → AppState × ComponentBundle → Result KeyEffect Panic
  handle_key_event clock later key (s, b) = do
    resolved ← resolve_key ext key s b
    dispatch_resolved clock later resolved.0 (s, resolved.1)
