-- ===== src/Tui/State/Dispatch.antt =====
-- `dispatch` of ferro-wg-tui-core/src/state.rs, and the confirmation dialog, which dispatches again.
use ferro_wg.Prelude.{false, List, [], ◌∷◌, Option, none, some, Result, ok, ◌>>=◌}
use ferro_wg.External.{External}
use ferro_wg.Core.Config.{WgConfig}
use ferro_wg.Core.Toml.{Printer}
use ferro_wg.Tui.Action.{Action, ConfirmAction}
use ferro_wg.Tui.State.Types.{Clock, Panic, AppState, ConfirmPending}
use ferro_wg.Tui.State.Simple.{
  handle_tab_actions, handle_search_actions, apply_peer_updates, handle_feedback_actions,
  handle_import_actions, handle_export_actions, handle_benchmark_actions, handle_compare_actions,
  handle_theme_action, handle_help_action,
}
use ferro_wg.Tui.State.Config.{handle_config_actions}

module _ (ext : External) (printer : Printer WgConfig) where
  -- Only the deletion of a peer is dispatched from here; its handler is that of config actions.
  unfoldable pub confirm : ConfirmAction → AppState → Result AppState Panic
  confirm (ConfirmAction.delete_peer i) s =
      handle_config_actions ext printer (Action.delete_config_peer i) s
  confirm _ s = ok s

  unfoldable pub confirmed : Option ConfirmPending → AppState → Result AppState Panic
  unfolding confirm
  confirmed none s = ok s
  confirmed (some p) s = confirm p.action s

  unfoldable pub handle_confirm_actions : Action → AppState → Result AppState Panic
  unfolding confirmed
  handle_confirm_actions (Action.request_confirm message action) s =
      ok (record s { pending_confirm = some (record { message = message; action = action }) })
  handle_confirm_actions Action.confirm_yes s =
      confirmed s.pending_confirm (record s { pending_confirm = none })
  handle_confirm_actions Action.confirm_no s = ok (record s { pending_confirm = none })
  handle_confirm_actions _ s = ok s

  unfoldable pub dispatch : Clock → Action → AppState → Result AppState Panic
  dispatch clock Action.quit s = ok (record s { running = false })
  dispatch clock Action.next_tab s = ok (handle_tab_actions Action.next_tab s)
  dispatch clock Action.prev_tab s = ok (handle_tab_actions Action.prev_tab s)
  dispatch clock (Action.select_tab t) s = ok (handle_tab_actions (Action.select_tab t) s)
  dispatch clock Action.enter_search s = ok (handle_search_actions Action.enter_search s)
  dispatch clock Action.exit_search s = ok (handle_search_actions Action.exit_search s)
  dispatch clock Action.clear_search s = ok (handle_search_actions Action.clear_search s)
  dispatch clock (Action.search_input c) s = ok (handle_search_actions (Action.search_input c) s)
  dispatch clock Action.search_backspace s = ok (handle_search_actions Action.search_backspace s)
  dispatch clock (Action.update_peers statuses) s = ok (apply_peer_updates statuses s)
  dispatch clock (Action.daemon_connectivity_changed connected) s =
      ok (record s { daemon_connected = connected })
  dispatch clock (Action.daemon_ok m) s = ok (handle_feedback_actions clock (Action.daemon_ok m) s)
  dispatch clock (Action.daemon_error m) s =
      ok (handle_feedback_actions clock (Action.daemon_error m) s)
  dispatch clock Action.enter_import s = ok (handle_import_actions Action.enter_import s)
  dispatch clock (Action.import_key k) s = ok (handle_import_actions (Action.import_key k) s)
  dispatch clock Action.start_benchmark s = handle_benchmark_actions clock Action.start_benchmark s
  dispatch clock (Action.start_benchmark_for_backend b) s =
      handle_benchmark_actions clock (Action.start_benchmark_for_backend b) s
  dispatch clock (Action.benchmark_progress_update p) s =
      handle_benchmark_actions clock (Action.benchmark_progress_update p) s
  dispatch clock (Action.benchmark_complete r) s =
      handle_benchmark_actions clock (Action.benchmark_complete r) s
  dispatch clock Action.toggle_compare_view s = ok (handle_compare_actions s)
  dispatch clock Action.toggle_theme s = ok (handle_theme_action s)
  dispatch clock Action.show_help s = ok (handle_help_action Action.show_help s)
  dispatch clock Action.hide_help s = ok (handle_help_action Action.hide_help s)
  dispatch clock Action.show_connection_filter s =
      ok (handle_help_action Action.show_connection_filter s)
  dispatch clock Action.hide_connection_filter s =
      ok (handle_help_action Action.hide_connection_filter s)
  dispatch clock (Action.toggle_connection_visibility n) s =
      ok (handle_help_action (Action.toggle_connection_visibility n) s)
  dispatch clock (Action.set_connection_filter_search q) s =
      ok (handle_help_action (Action.set_connection_filter_search q) s)
  dispatch clock Action.enter_export s = ok (handle_export_actions Action.enter_export s)
  dispatch clock (Action.export_key k) s = ok (handle_export_actions (Action.export_key k) s)
  dispatch clock Action.submit_import s = ok (handle_export_actions Action.submit_import s)
  dispatch clock Action.exit_import s = ok (handle_export_actions Action.exit_import s)
  dispatch clock Action.submit_export s = ok (handle_export_actions Action.submit_export s)
  dispatch clock Action.exit_export s = ok (handle_export_actions Action.exit_export s)
  dispatch clock (Action.request_confirm m a) s =
      handle_confirm_actions (Action.request_confirm m a) s
  dispatch clock Action.confirm_yes s = handle_confirm_actions Action.confirm_yes s
  dispatch clock Action.confirm_no s = handle_confirm_actions Action.confirm_no s
  -- These are handled by the event loop or the components.
  dispatch clock Action.next_row s = ok s
  dispatch clock Action.prev_row s = ok s
  dispatch clock Action.tick s = ok s
  dispatch clock Action.select_next_connection s = ok s
  dispatch clock Action.select_prev_connection s = ok s
  dispatch clock (Action.select_connection i) s = ok s
  dispatch clock (Action.connect_peer n) s = ok s
  dispatch clock (Action.disconnect_peer n) s = ok s
  dispatch clock (Action.cycle_peer_backend n) s = ok s
  dispatch clock Action.connect_all s = ok s
  dispatch clock Action.disconnect_all s = ok s
  dispatch clock Action.start_daemon s = ok s
  dispatch clock Action.stop_daemon s = ok s
  dispatch clock (Action.switch_benchmark_backend b) s = ok s
  dispatch clock action s = handle_config_actions ext printer action s

  -- A sequence of actions, as the event loop sends them; a panic ends it.
  unfoldable pub run : List (Clock × Action) → AppState → Result AppState Panic
  run [] s = ok s
  run ((clock, action) ∷ rest) s = do s' ← dispatch clock action s; run rest s'
