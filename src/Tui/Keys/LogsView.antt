-- ===== src/Tui/Keys/LogsView.antt =====
-- ferro-wg-tui-components/src/logs.rs: the log view's own state and keys, none of which is an action.
use ferro_wg.Prelude.{
  ℕ, ◌+◌, ◌-◌, Bool, true, false, List, Text, Option, none, some, length, filter, contains,
  if◌then◌else◌, ltb, ◌==◌, nat_eq, text_eq,
}
use ferro_wg.Text.Trim.{to_ascii_lowercase}
use ferro_wg.Core.Ipc.{LogEntry, LogLevel, debug, cycle}
use ferro_wg.Core.Logs.{ConnectionFilter, all_connections, active_connection, flip, filtered_lines}
use ferro_wg.Tui.Action.{KeyCode}
use ferro_wg.Tui.State.Types.{AppState}

pub record LogsView : Type 0 where
  pub offset : ℕ
  pub auto_scroll : Bool
  pub view_height : ℕ
  pub min_level : LogLevel
  pub connection_filter : ConnectionFilter

unfoldable pub new_logs_view : LogsView
new_logs_view = record {
  offset = 0;
  auto_scroll = true;
  view_height = 0;
  min_level = debug;
  connection_filter = all_connections;
}

-- Entries of no connection stay.
unfoldable pub is_of_visible : List Text → LogEntry → Bool
is_of_visible visible e = elim e.connection_name [ none ↦ true | some name ↦ contains visible name ]

unfoldable pub get_filtered_entries : LogsView → List LogEntry → Text → List Text → List LogEntry
get_filtered_entries v buf query visible =
    let filtered = filtered_lines buf query v.min_level all_connections none in
    elim v.connection_filter [
      | all_connections ↦ filtered
      | active_connection ↦ filter (is_of_visible visible) filtered
    ]

-- Nothing when the queue's lock is poisoned.
unfoldable pub filtered_total : LogsView → AppState → Option ℕ
filtered_total v s =
    if s.log_entries.poisoned
    then none
    else some (
        length (
          get_filtered_entries v s.log_entries.entries (to_ascii_lowercase s.search_query)
            s.visible_connections))

-- The first entry shown.
unfoldable pub display_offset : ℕ → LogsView → ℕ
display_offset total v = if v.auto_scroll then total - v.view_height else v.offset

unfoldable pub scroll_up : LogsView → LogsView
scroll_up v = if ltb 0 v.offset then record v { offset = v.offset - 1; auto_scroll = false } else v

unfoldable pub scroll_down : ℕ → LogsView → LogsView
scroll_down total v =
    if ltb v.offset (total - v.view_height)
    then record v { offset = v.offset + 1; auto_scroll = false }
    else v

unfoldable pub jump_to_top : LogsView → LogsView
jump_to_top v = record v { offset = 0; auto_scroll = false }

unfoldable pub jump_to_bottom : ℕ → LogsView → LogsView
jump_to_bottom total v = record v { offset = total - v.view_height; auto_scroll = true }

unfoldable pub cycle_level : LogsView → LogsView
cycle_level v = record v { min_level = cycle v.min_level; auto_scroll = true; offset = 0 }

unfoldable pub toggle_connection_filter : LogsView → LogsView
toggle_connection_filter v = record v {
  connection_filter = flip v.connection_filter;
  auto_scroll = true;
  offset = 0;
}

unfoldable pub with_total : (ℕ → LogsView → LogsView) → Option ℕ → LogsView → LogsView
with_total f none v = v
with_total f (some total) v = f total v

unfoldable pub logs_char : ℕ → AppState → LogsView → LogsView
logs_char c s v =
    if c == b'k'
    then scroll_up v
    else if c == b'g'
    then jump_to_top v
    else if c == b'j'
    then with_total scroll_down (filtered_total v s) v
    else if c == b'G'
    then with_total jump_to_bottom (filtered_total v s) v
    else if c == b'l'
    then cycle_level v
    else if c == b'c'
    then toggle_connection_filter v
    else v

unfoldable pub logs_key : KeyCode → AppState → LogsView → LogsView
logs_key KeyCode.up s v = scroll_up v
logs_key KeyCode.down s v = with_total scroll_down (filtered_total v s) v
logs_key (KeyCode.char c) s v = logs_char c s v
logs_key _ s v = v
