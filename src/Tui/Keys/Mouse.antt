-- ===== src/Tui/Keys/Mouse.antt =====
-- The mouse: `resolve_mouse_action` of ferro-wg-tui-components/src/tab_bar.rs and `handle_mouse_event`
-- of ferro-wg-tui/src/lib.rs.
use ferro_wg.Prelude.{
  ℕ, zero, suc, ◌+◌, ◌-◌, ◌<◌, ◌≤◌, ◌&&◌, ◌||◌, List, [], ◌∷◌, Text, Option, none, some, Result, ok,
  codes, length, if◌then◌else◌, ltb, leb, ◌>>=◌, ◌≡◌, arith, ◌↔◌,
}
use ferro_wg.External.{External}
use ferro_wg.Core.Config.{WgConfig}
use ferro_wg.Core.Toml.{Printer}
use ferro_wg.Tui.App.{Tab, overview, status, peers, compare, config, logs, all_tabs, index}
use ferro_wg.Tui.Action.{Action}
use ferro_wg.Tui.State.Types.{Clock, Panic, AppState}
use ferro_wg.Tui.Keys.Commands.{maybe_spawn_command, task_list}
use ferro_wg.Tui.Keys.Resolve.{ComponentBundle, KeyEffect, is_set, dispatch_all}

unfoldable pub title : Tab → Text
title overview = codes "Overview"
title status = codes "Status"
title peers = codes "Peers"
title compare = codes "Compare"
title config = codes "Config"
title logs = codes "Logs"

-- The label is a space, the digit, a colon, the title and a space.
unfoldable pub tab_width : Tab → ℕ
tab_width t = 4 + length (title t)

-- The width of the first labels, with the column that divides each from the next.
unfoldable pub widths_before : ℕ → List Tab → ℕ
widths_before zero ts = 0
widths_before (suc i) [] = 0
widths_before (suc i) (t ∷ ts) = tab_width t + 1 + widths_before i ts

-- The tabs have a margin of two columns.
unfoldable pub tab_label_start : ℕ → ℕ
tab_label_start i = 2 + widths_before i all_tabs

-- The first label that has this column; the tabs given are those from the index `i` on.
unfoldable pub find_label : ℕ → ℕ → List Tab → Option Tab
find_label relative i [] = none
find_label relative i (t ∷ ts) =
    if leb (tab_label_start i) relative && ltb relative (tab_label_start i + tab_width t)
    then some t
    else find_label relative (i + 1) ts

unfoldable pub select_label : Option Tab → Option Action
select_label none = none
select_label (some t) = some (Action.select_tab t)

unfoldable pub tab_hit_test : ℕ → ℕ → Option Action
tab_hit_test column tab_bar_x = select_label (find_label (column - tab_bar_x) 0 all_tabs)

pub data MouseKind : Type 0 where
  wheel_down wheel_up left_down other_event : MouseKind

pub record MouseEvent : Type 0 where
  pub kind : MouseKind
  pub column : ℕ
  pub row : ℕ

pub record Rect : Type 0 where
  pub x : ℕ
  pub y : ℕ
  pub height : ℕ

unfoldable pub resolve_mouse_action : MouseEvent → Rect → Option Action
resolve_mouse_action mouse bar = elim mouse.kind [
  | wheel_down ↦ some Action.next_row
  | wheel_up ↦ some Action.prev_row
  | left_down ↦
      if leb bar.y mouse.row && ltb mouse.row (bar.y + bar.height) && leb bar.x mouse.column
      then tab_hit_test mouse.column bar.x
      else none
  | other_event ↦ none
]

module _ (ext : External) (printer : Printer WgConfig) where
  unfoldable pub dispatch_mouse :
      Clock → Option Action → AppState × ComponentBundle → Result KeyEffect Panic
  dispatch_mouse clock none sb = ok (sb, [])
  dispatch_mouse clock (some a) sb = do
    after ← dispatch_all ext printer clock a sb
    ok (after, task_list (maybe_spawn_command a after.0))

  -- No component has a mouse handler of its own; an open dialog takes the event.
  unfoldable pub handle_mouse_event :
      Clock → MouseEvent → Rect → AppState × ComponentBundle → Result KeyEffect Panic
  handle_mouse_event clock mouse bar (s, b) =
      dispatch_mouse clock
        (if s.show_help
            || s.show_connection_filter
            || is_set s.pending_confirm
            || is_set s.config_diff_pending
          then none
          else resolve_mouse_action mouse bar)
        (s, b)

-- A click selects a tab exactly when it is on one of the columns of the tab's label.
pub tab_hit_test_iff :
    (column tab_bar_x : ℕ) (t : Tab)
    → (tab_hit_test column tab_bar_x ≡ some (Action.select_tab t)) ↔ (
        (tab_label_start (index t) ≤ column - tab_bar_x)
        × (column - tab_bar_x < tab_label_start (index t) + tab_width t))
unfolding tab_hit_test find_label select_label tab_width title tab_label_start widths_before index
tab_hit_test_iff column tab_bar_x overview = ground arith
tab_hit_test_iff column tab_bar_x status = ground arith
tab_hit_test_iff column tab_bar_x peers = ground arith
tab_hit_test_iff column tab_bar_x compare = ground arith
tab_hit_test_iff column tab_bar_x config = ground arith
tab_hit_test_iff column tab_bar_x logs = ground arith
