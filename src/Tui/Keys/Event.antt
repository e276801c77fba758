-- ===== src/Tui/Keys/Event.antt =====
-- `handle_global_key` of ferro-wg-tui/src/lib.rs, on a key's code and whether Control is held.
use ferro_wg.Prelude.{Bool, Option, none, some, if◌then◌else◌, ◌==◌, nat_eq, ℕ}
use ferro_wg.Tui.App.{overview, status, peers, compare, config, logs}
use ferro_wg.Tui.Action.{Action, KeyCode}

pub record KeyEvent : Type 0 where
  pub code : KeyCode
  pub control : Bool

-- The characters, in the order of the match's arms.
unfoldable pub global_char : ℕ → Bool → Option Action
global_char c control =
    if c == b'q'
    then some Action.quit
    else if c == b'c'
    then (if control then some Action.quit else none)
    else if c == b'1'
    then some (Action.select_tab overview)
    else if c == b'2'
    then some (Action.select_tab status)
    else if c == b'3'
    then some (Action.select_tab peers)
    else if c == b'4'
    then some (Action.select_tab compare)
    else if c == b'5'
    then some (Action.select_tab config)
    else if c == b'6'
    then some (Action.select_tab logs)
    else if c == b'/'
    then some Action.enter_search
    else if c == b'T'
    then some Action.toggle_theme
    else if c == b'?'
    then some Action.show_help
    else if c == b'i'
    then some Action.enter_import
    else none

unfoldable pub handle_global_key : KeyEvent → Option Action
handle_global_key key = elim key.code [
  | KeyCode.char c ↦ global_char c key.control
  | KeyCode.esc ↦ some Action.quit
  | KeyCode.tab ↦ some Action.next_tab
  | KeyCode.right ↦ some Action.next_tab
  | KeyCode.back_tab ↦ some Action.prev_tab
  | KeyCode.left ↦ some Action.prev_tab
  | _ ↦ none
]
