-- ===== src/Tui/State/Simple.antt =====
-- The handlers of ferro-wg-tui-core/src/state.rs other than those for the config editor: tabs,
-- search, status updates, toasts, path prompts, benchmarks, overlays and the log queue.
use ferro_wg.Prelude.{
  ◌^◌, Bool, true, false, ◌||◌, List, [], ◌∷◌, ◌++◌, Text, Option, none, some, Result, ok, err, pos,
  length, drop, drop_last, filter, flat_map, is_empty, leb, ltb, ◌==◌, nat_eq, text_eq, contains,
  set_insert, set_remove, map_insert, if◌then◌else◌, codes,
}
use ferro_wg.External.{External}
use ferro_wg.Text.Split.{has_part}
use ferro_wg.Text.Order.{min_text?}
use ferro_wg.Core.Config.{PeerConfig}
use ferro_wg.Core.Ipc.{PeerStatus, LogEntry}
use ferro_wg.Core.Stats.{BenchmarkResult}
use ferro_wg.Tui.App.{next, prev, InputMode, normal, search, importing, exporting, edit_field}
use ferro_wg.Tui.Theme.{into_theme, toggle}
use ferro_wg.Tui.Benchmark.{
  benchmark_progress_history_cap, benchmark_history_cap, BenchmarkRun, cap_history,
}
use ferro_wg.Tui.Action.{Action, KeyCode}
use ferro_wg.Tui.State.Types.{
  Clock, Panic, timestamp_overflow, AppState, ConnectionView, ConnectionStatus, connected,
  disconnected, compute_health_warning, ConfigEditState, Toast, success_toast, error_toast,
  is_expired, CompareView, live, historical, LogQueue, max_visible_toasts,
}

-- Leaving a tab while a field is edited drops the buffer.
unfoldable pub close_buffer : Option ConfigEditState → Option ConfigEditState
close_buffer none = none
close_buffer (some edit) = some (record edit { edit_buffer = none; field_error = none })

unfoldable pub leave_field : InputMode → AppState → AppState
unfolding close_buffer
leave_field edit_field s = record s {
  config_edit = close_buffer s.config_edit;
  input_mode = normal;
}
leave_field _ s = s

unfoldable pub handle_tab_actions : Action → AppState → AppState
unfolding leave_field
handle_tab_actions Action.next_tab s =
    let s' = leave_field s.input_mode s in record s' { active_tab = next s'.active_tab }
handle_tab_actions Action.prev_tab s =
    let s' = leave_field s.input_mode s in record s' { active_tab = prev s'.active_tab }
handle_tab_actions (Action.select_tab t) s =
    let s' = leave_field s.input_mode s in record s' { active_tab = t }
handle_tab_actions _ s = leave_field s.input_mode s

unfoldable pub handle_search_actions : Action → AppState → AppState
handle_search_actions Action.enter_search s = record s { input_mode = search; search_query = [] }
handle_search_actions Action.exit_search s = record s { input_mode = normal }
handle_search_actions Action.clear_search s = record s { input_mode = normal; search_query = [] }
handle_search_actions (Action.search_input c) s = record s {
  search_query = s.search_query ++ c ∷ [];
}
handle_search_actions Action.search_backspace s = record s {
  search_query = drop_last s.search_query;
}
handle_search_actions _ s = s

-- The status that one line of a daemon poll gives its connection.
unfoldable pub status_of : PeerStatus → ConnectionStatus
status_of p = record {
  state = if p.connected then connected else disconnected;
  backend = p.backend;
  stats = p.stats;
  endpoint = p.endpoint;
  interface = p.interface;
  health_warning = if p.connected then compute_health_warning p.stats else none;
}

-- `iter_mut().find(..)`: the first connection of that name is changed, an unknown name is passed over.
unfoldable pub update_status : PeerStatus → List ConnectionView → List ConnectionView
update_status p [] = []
update_status p (c ∷ cs) =
    if c.name == p.name
    then record c { status = some (status_of p) } ∷ cs
    else c ∷ update_status p cs

unfoldable pub update_statuses : List PeerStatus → List ConnectionView → List ConnectionView
update_statuses [] cs = cs
update_statuses (p ∷ ps) cs = update_statuses ps (update_status p cs)

unfoldable pub apply_peer_updates : List PeerStatus → AppState → AppState
apply_peer_updates statuses s = record s {
  daemon_connected = true;
  connections = update_statuses statuses s.connections;
}

unfoldable pub push_toast : Toast → AppState → AppState
push_toast t s =
    let all = s.toasts ++ t ∷ [] in
    record s { toasts = if ltb max_visible_toasts (length all) then drop 1 all else all }

unfoldable pub drop_expired : Clock → List Toast → List Toast
drop_expired clock [] = []
drop_expired clock (t ∷ ts) =
    let rest = drop_expired clock ts in if is_expired clock t then rest else t ∷ ts

unfoldable pub clear_expired_toasts : Clock → AppState → AppState
clear_expired_toasts clock s = record s { toasts = drop_expired clock s.toasts }

unfoldable pub handle_feedback_actions : Clock → Action → AppState → AppState
handle_feedback_actions clock (Action.daemon_ok msg) s = push_toast (success_toast clock msg) s
handle_feedback_actions clock (Action.daemon_error msg) s = push_toast (error_toast clock msg) s
handle_feedback_actions clock _ s = s

-- A key typed into a path prompt or an edit buffer.
unfoldable pub type_key : KeyCode → Text → Text
type_key (KeyCode.char c) buf = buf ++ c ∷ []
type_key KeyCode.backspace buf = drop_last buf
type_key _ buf = buf

import_typed : KeyCode → InputMode → InputMode
import_typed key (importing buf) = importing (type_key key buf)
import_typed key m = m

export_typed : KeyCode → InputMode → InputMode
export_typed key (exporting buf) = exporting (type_key key buf)
export_typed key m = m

unfoldable pub handle_import_actions : Action → AppState → AppState
unfolding import_typed
handle_import_actions Action.enter_import s = record s { input_mode = importing [] }
handle_import_actions (Action.import_key key) s = record s {
  input_mode = import_typed key s.input_mode;
}
handle_import_actions _ s = s

unfoldable pub handle_export_actions : Action → AppState → AppState
unfolding export_typed
handle_export_actions Action.enter_export s = record s { input_mode = exporting [] }
handle_export_actions (Action.export_key key) s = record s {
  input_mode = export_typed key s.input_mode;
}
handle_export_actions Action.submit_import s = record s { input_mode = normal }
handle_export_actions Action.exit_import s = record s { input_mode = normal }
handle_export_actions Action.submit_export s = record s { input_mode = normal }
handle_export_actions Action.exit_export s = record s { input_mode = normal }
handle_export_actions _ s = s

unfoldable pub start_benchmark : Clock → AppState → AppState
start_benchmark clock s =
    if s.benchmark_running
    then push_toast (error_toast clock (codes "benchmark already running")) s
    else record s {
      benchmark_running = true;
      benchmark_results = [];
      benchmark_progress_history = [];
    }

or_empty : Option Text → Text
or_empty none = []
or_empty (some n) = n

unfoldable pub complete_benchmark : Clock → BenchmarkResult → AppState → AppState
unfolding or_empty
complete_benchmark clock result s =
    let results = map_insert result.backend result s.benchmark_results in
    let run : BenchmarkRun = record {
      timestamp_ms = pos clock.unix_ms;
      connection_name = or_empty (min_text? s.visible_connections);
      results = results;
    } in
    record s {
      benchmark_running = false;
      benchmark_results = results;
      benchmark_history = cap_history (s.benchmark_history ++ run ∷ []) benchmark_history_cap;
    }

-- `i64::try_from(..).expect(..)` panics from 2^63 milliseconds on.
unfoldable pub handle_benchmark_actions : Clock → Action → AppState → Result AppState Panic
unfolding start_benchmark complete_benchmark
handle_benchmark_actions clock Action.start_benchmark s = ok (start_benchmark clock s)
handle_benchmark_actions clock (Action.start_benchmark_for_backend b) s =
    ok (start_benchmark clock s)
handle_benchmark_actions clock (Action.benchmark_progress_update p) s =
    let history = s.benchmark_progress_history in
    let kept =
      if leb benchmark_progress_history_cap (length history) then drop 1 history else history in
    ok (record s { benchmark_progress_history = kept ++ p ∷ [] })
handle_benchmark_actions clock (Action.benchmark_complete result) s =
    if leb (2 ^ 63) clock.unix_ms
    then err timestamp_overflow
    else ok (complete_benchmark clock result s)
handle_benchmark_actions clock _ s = ok s

other_view : CompareView → CompareView
other_view live = historical
other_view historical = live

unfoldable pub handle_compare_actions : AppState → AppState
unfolding other_view
handle_compare_actions s = record s { compare_view = other_view s.compare_view }

unfoldable pub handle_theme_action : AppState → AppState
handle_theme_action s = record s {
  theme_kind = toggle s.theme_kind;
  theme = into_theme (toggle s.theme_kind);
}

unfoldable pub toggle_visibility : Text → List Text → List Text
toggle_visibility name visible =
    if contains visible name then set_remove name visible else set_insert name visible

unfoldable pub handle_help_action : Action → AppState → AppState
handle_help_action Action.show_help s = record s { show_help = true }
handle_help_action Action.hide_help s = record s { show_help = false }
handle_help_action Action.show_connection_filter s = record s { show_connection_filter = true }
handle_help_action Action.hide_connection_filter s = record s {
  show_connection_filter = false;
  connection_filter_search = [];
}
handle_help_action (Action.toggle_connection_visibility name) s = record s {
  visible_connections = toggle_visibility name s.visible_connections;
}
handle_help_action (Action.set_connection_filter_search query) s = record s {
  connection_filter_search = query;
}
handle_help_action _ s = s

unfoldable pub push_entry : LogEntry → LogQueue → LogQueue
push_entry entry q =
    let kept = if length q.entries == q.capacity then drop 1 q.entries else q.entries in
    if q.poisoned then q else record q { entries = kept ++ entry ∷ [] }

unfoldable pub append_log : LogEntry → AppState → AppState
unfolding push_entry
append_log entry s = record s { log_entries = push_entry entry s.log_entries }

module _ (ext : External) where
  endpoint_matches : Text → Option Text → Bool
  endpoint_matches query none = false
  endpoint_matches query (some ep) = has_part query (ext.to_lowercase ep)

  unfoldable pub filtered_peers : AppState → List PeerConfig
  unfolding endpoint_matches
  filtered_peers s =
      let query = ext.to_lowercase s.search_query in
      let shown = filter (λ c. contains s.visible_connections c.name) s.connections in
      filter
        (λ p.
          is_empty query
          || has_part query (ext.to_lowercase p.name)
          || endpoint_matches query p.endpoint)
        (flat_map (λ c. c.config.peers) shown)
