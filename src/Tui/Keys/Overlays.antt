-- ===== src/Tui/Keys/Overlays.antt =====
-- The overlays and the status bar of ferro-wg-tui-components/src: help_overlay.rs,
-- connection_filter_overlay.rs, diff_preview.rs, confirm_dialog.rs and status_bar.rs.
use ferro_wg.Prelude.{
  ℕ, ◌+◌, ◌-◌, min, Bool, true, false, ◌||◌, List, [], ◌∷◌, ◌++◌, Option, none, some, length,
  filter, get_elem?, drop_last, is_empty, if◌then◌else◌, ◌==◌, nat_eq,
}
use ferro_wg.External.{External}
use ferro_wg.Text.Split.{has_part}
use ferro_wg.Tui.App.{InputMode, normal, search, importing, exporting, edit_field}
use ferro_wg.Tui.Action.{Action, KeyCode}
use ferro_wg.Tui.State.Types.{AppState, ConnectionView}

-- An overlay that is closed makes nothing of a key.
unfoldable pub while_open : Bool → Option Action → Option Action
while_open true a = a
while_open false a = none

unfoldable pub help_key : KeyCode → Option Action
help_key KeyCode.esc = some Action.hide_help
help_key (KeyCode.char c) = if c == b'?' || c == b'q' then some Action.hide_help else none
help_key _ = none

unfoldable pub help_overlay_key : KeyCode → AppState → Option Action
help_overlay_key code s = while_open s.show_help (help_key code)

unfoldable pub diff_key : KeyCode → Option Action
diff_key KeyCode.down = some Action.config_diff_scroll_down
diff_key KeyCode.up = some Action.config_diff_scroll_up
diff_key KeyCode.esc = some Action.discard_config_edits
diff_key (KeyCode.char c) =
    if c == b's'
    then some (Action.save_config false)
    else if c == b'r'
    then some (Action.save_config true)
    else if c == b'j'
    then some Action.config_diff_scroll_down
    else if c == b'k'
    then some Action.config_diff_scroll_up
    else if c == b'q'
    then some Action.discard_config_edits
    else none
diff_key _ = none

unfoldable pub diff_preview_key : KeyCode → AppState → Option Action
diff_preview_key code s = elim s.config_diff_pending [ none ↦ none | some _ ↦ diff_key code ]

unfoldable pub confirm_key : KeyCode → Option Action
confirm_key (KeyCode.char c) =
    if c == b'y' || c == b'Y' then some Action.confirm_yes else some Action.confirm_no
confirm_key _ = some Action.confirm_no

unfoldable pub confirm_dialog_key : KeyCode → AppState → Option Action
confirm_dialog_key code s = elim s.pending_confirm [ none ↦ none | some _ ↦ confirm_key code ]

unfoldable pub search_key : KeyCode → Option Action
search_key KeyCode.esc = some Action.exit_search
search_key KeyCode.enter = some Action.exit_search
search_key KeyCode.backspace = some Action.search_backspace
search_key (KeyCode.char c) = some (Action.search_input c)
search_key _ = none

unfoldable pub import_prompt_key : KeyCode → Option Action
import_prompt_key KeyCode.esc = some Action.exit_import
import_prompt_key KeyCode.enter = some Action.submit_import
import_prompt_key code = some (Action.import_key code)

unfoldable pub export_prompt_key : KeyCode → Option Action
export_prompt_key KeyCode.esc = some Action.exit_export
export_prompt_key KeyCode.enter = some Action.submit_export
export_prompt_key code = some (Action.export_key code)

unfoldable pub status_bar_key : KeyCode → InputMode → Option Action
status_bar_key code search = search_key code
status_bar_key code (importing _) = import_prompt_key code
status_bar_key code (exporting _) = export_prompt_key code
status_bar_key code normal = none
status_bar_key code edit_field = none

module _ (ext : External) where
  unfoldable pub filtered_connections : AppState → List ConnectionView
  filtered_connections s =
      let query = ext.to_lowercase s.connection_filter_search in
      filter (λ c. is_empty query || has_part query (ext.to_lowercase c.name)) s.connections

  unfoldable pub toggle_at : List ConnectionView → ℕ → Option Action
  toggle_at views row = elim (get_elem? views row) [
    | none ↦ none
    | some c ↦ some (Action.toggle_connection_visibility c.name)
  ]

  unfoldable pub filter_key : KeyCode → AppState → ℕ → Option Action
  filter_key KeyCode.esc s row = some Action.hide_connection_filter
  filter_key (KeyCode.char c) s row =
      some (Action.set_connection_filter_search (s.connection_filter_search ++ c ∷ []))
  filter_key KeyCode.backspace s row =
      some (Action.set_connection_filter_search (drop_last s.connection_filter_search))
  filter_key KeyCode.up s row = some Action.prev_row
  filter_key KeyCode.down s row = some Action.next_row
  filter_key KeyCode.enter s row = toggle_at (filtered_connections s) row
  filter_key _ s row = none

  unfoldable pub filter_overlay_key : KeyCode → AppState → ℕ → Option Action
  filter_overlay_key code s row = while_open s.show_connection_filter (filter_key code s row)

  unfoldable pub move_filter_row : Action → AppState → ℕ → ℕ
  move_filter_row Action.next_row s row = min (row + 1) (length (filtered_connections s) - 1)
  move_filter_row Action.prev_row s row = row - 1
  move_filter_row (Action.set_connection_filter_search _) s row = 0
  move_filter_row Action.show_connection_filter s row = 0
  move_filter_row _ s row = row

  unfoldable pub filter_update : Action → AppState → ℕ → ℕ
  filter_update a s row = if s.show_connection_filter then move_filter_row a s row else row
