-- ===== src/Tui/Keys/Tables.antt =====
-- The tables of ferro-wg-tui-components/src: overview.rs, status.rs, peers.rs and compare.rs with
-- connection_bar.rs. A table's selection is its row: it starts at 0 and is never cleared.
use ferro_wg.Prelude.{
  ℕ, ◌+◌, ◌-◌, min, Bool, List, Text, Option, none, some, length, filter, contains, get_elem?,
  codes, if◌then◌else◌, ◌==◌, nat_eq, text_eq,
}
use ferro_wg.External.{External}
use ferro_wg.Tui.App.{status}
use ferro_wg.Tui.Action.{Action, ConfirmAction, KeyCode}
use ferro_wg.Tui.State.Types.{AppState, ConnectionView, live, historical}
use ferro_wg.Tui.State.Simple.{filtered_peers}

-- `max` is the last row.
unfoldable pub move_row : ℕ → Action → ℕ → ℕ
move_row last Action.next_row current = min (current + 1) last
move_row last Action.prev_row current = current - 1
move_row last (Action.select_tab _) current = 0
move_row last Action.next_tab current = 0
move_row last Action.prev_tab current = 0
move_row last _ current = current

unfoldable pub connection_bar_key : KeyCode → Option Action
connection_bar_key (KeyCode.char c) =
    if c == b'['
    then some Action.select_prev_connection
    else if c == b']'
    then some Action.select_next_connection
    else none
connection_bar_key _ = none

unfoldable pub row_key : KeyCode → Option Action
row_key KeyCode.down = some Action.next_row
row_key KeyCode.up = some Action.prev_row
row_key (KeyCode.char c) =
    if c == b'j' then some Action.next_row else if c == b'k' then some Action.prev_row else none
row_key _ = none

unfoldable pub peers_key : KeyCode → Option Action
peers_key = row_key

unfoldable pub overview_char : ℕ → Bool → Option Action
overview_char c connected =
    if c == b'u'
    then some Action.connect_all
    else if c == b'd'
    then some
        (Action.request_confirm (codes "Tear down all connections?") ConfirmAction.disconnect_all)
    else if c == b's'
    then (if connected then none else some Action.start_daemon)
    else if c == b'S'
    then (if connected
        then some
            (Action.request_confirm (codes "Stop the running daemon?") ConfirmAction.stop_daemon)
        else none)
    else row_key (KeyCode.char c)

unfoldable pub overview_key : KeyCode → AppState → Option Action
overview_key KeyCode.enter s = some (Action.select_tab status)
overview_key (KeyCode.char c) s = overview_char c s.daemon_connected
overview_key code s = row_key code

-- The visible connections, in the order of the display.
unfoldable pub visible_views : AppState → List ConnectionView
visible_views s = filter (λ c. contains s.visible_connections c.name) s.connections

unfoldable pub selected_connection_name : AppState → ℕ → Option Text
selected_connection_name s row = elim (get_elem? (visible_views s) row) [
  | none ↦ none
  | some c ↦ some c.name
]

unfoldable pub on_name : (Text → Action) → Option Text → Option Action
on_name f none = none
on_name f (some name) = some (f name)

unfoldable pub status_char : ℕ → Option Text → Option Action
status_char c name =
    if c == b'u'
    then on_name Action.connect_peer name
    else if c == b'd'
    then on_name Action.disconnect_peer name
    else if c == b'b'
    then on_name Action.cycle_peer_backend name
    else if c == b'f'
    then some Action.show_connection_filter
    else row_key (KeyCode.char c)

unfoldable pub status_key : KeyCode → AppState → ℕ → Option Action
status_key KeyCode.enter s row = on_name Action.connect_peer (selected_connection_name s row)
status_key (KeyCode.char c) s row = status_char c (selected_connection_name s row)
status_key code s row = row_key code

unfoldable pub selected_backend : ℕ → Text
selected_backend row =
    if row == 1 then codes "neptun" else if row == 2 then codes "gotatun" else codes "boringtun"

unfoldable pub compare_char : ℕ → ℕ → Option Action
compare_char c row =
    if c == b'b'
    then some Action.start_benchmark
    else if c == b'w'
    then some (Action.switch_benchmark_backend (selected_backend row))
    else if c == b'h'
    then some Action.toggle_compare_view
    else if c == b'e'
    then some Action.enter_export
    else row_key (KeyCode.char c)

unfoldable pub compare_key : KeyCode → ℕ → Option Action
compare_key KeyCode.enter row = some (Action.start_benchmark_for_backend (selected_backend row))
compare_key (KeyCode.char c) row = compare_char c row
compare_key code row = row_key code

-- `update` of the overview and the status component.
unfoldable pub connections_update : Action → AppState → ℕ → ℕ
connections_update a s row = move_row (length (visible_views s) - 1) a row

unfoldable pub peers_update : External → Action → AppState → ℕ → ℕ
peers_update ext a s row = move_row (length (filtered_peers ext s) - 1) a row

-- The row of the live table and of the list of past runs: only the shown one moves.
unfoldable pub compare_update : Action → AppState → ℕ × ℕ → ℕ × ℕ
compare_update a s (table, list) = elim s.compare_view [
  | live ↦ (move_row 2 a table, list)
  | historical ↦ (table, move_row (length s.benchmark_history - 1) a list)
]
