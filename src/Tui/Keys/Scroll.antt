-- ===== src/Tui/Keys/Scroll.antt =====
-- The log view of ferro-wg-tui-components/src/logs.rs: where its keys leave the offset.
use ferro_wg.Prelude.{
  ℕ, ◌-◌, ◌≤◌, Option, none, some, ◌≡◌, refl, arith, Bool-cases, inl, inr, ltb, nat_eq,
}
use ferro_wg.Tui.Action.{KeyCode}
use ferro_wg.Tui.State.Types.{AppState}
use ferro_wg.Tui.Keys.LogsView.{
  LogsView, new_logs_view, filtered_total, get_filtered_entries, scroll_up, scroll_down,
  jump_to_top, jump_to_bottom, cycle_level, toggle_connection_filter, with_total, logs_char,
  logs_key,
}

-- The offset is that of the last page or one before it.
abbrev Within : Option ℕ → LogsView → Type 0
Within none v = Unit
Within (some total) v = v.offset ≤ total - v.view_height

abbrev pub IsInside : AppState → LogsView → Type 0
IsInside s v = Within (filtered_total v s) v

Within-lower :
    (o : Option ℕ) (v w : LogsView)
    → w.offset ≤ v.offset
    → w.view_height ≡ v.view_height
    → Within o v
    → Within o w
Within-lower none v w below same h = tt
Within-lower (some total) v w below same h = ground arith

Within-zero : (o : Option ℕ) (v : LogsView) → v.offset ≡ 0 → Within o v
Within-zero none v e = tt
Within-zero (some total) v e = ground arith

pub new_logs_view-IsInside : (s : AppState) → IsInside s new_logs_view
unfolding new_logs_view
new_logs_view-IsInside s = Within-zero (filtered_total new_logs_view s) new_logs_view refl

module _ (s : AppState) where
  scroll_up-IsInside : (v : LogsView) → IsInside s v → IsInside s (scroll_up v)
  unfolding scroll_up filtered_total get_filtered_entries
  scroll_up-IsInside v h = elim (Bool-cases (ltb 0 v.offset)) [
    | inl e ↦ rw e (Within-lower (filtered_total v s) v _ (ground arith) refl h)
    | inr e ↦ rw e h
  ]

  scroll_down-Within :
      (o : Option ℕ) (v : LogsView) → Within o v → Within o (with_total scroll_down o v)
  unfolding scroll_down with_total
  scroll_down-Within none v h = h
  scroll_down-Within (some total) v h = ground (arith, h)

  scroll_down-total :
      (o : Option ℕ) (v : LogsView)
      → filtered_total (with_total scroll_down o v) s ≡ filtered_total v s
  unfolding scroll_down with_total filtered_total get_filtered_entries
  scroll_down-total none v = refl
  scroll_down-total (some total) v = elim (Bool-cases (ltb v.offset (total - v.view_height))) [
    | inl e ↦ rw e refl
    | inr e ↦ rw e refl
  ]

  scroll_down-IsInside :
      (v : LogsView) → IsInside s v → IsInside s (with_total scroll_down (filtered_total v s) v)
  scroll_down-IsInside v h =
      rw (scroll_down-total (filtered_total v s) v) (scroll_down-Within (filtered_total v s) v h)

  jump_to_bottom-Within : (o : Option ℕ) (v : LogsView) → Within o (with_total jump_to_bottom o v)
  unfolding jump_to_bottom with_total
  jump_to_bottom-Within none v = tt
  jump_to_bottom-Within (some total) v = ground arith

  jump_to_bottom-total :
      (o : Option ℕ) (v : LogsView)
      → filtered_total (with_total jump_to_bottom o v) s ≡ filtered_total v s
  unfolding jump_to_bottom with_total filtered_total get_filtered_entries
  jump_to_bottom-total none v = refl
  jump_to_bottom-total (some total) v = refl

  jump_to_bottom-IsInside :
      (v : LogsView) → IsInside s (with_total jump_to_bottom (filtered_total v s) v)
  jump_to_bottom-IsInside v =
      rw (jump_to_bottom-total (filtered_total v s) v)
        (jump_to_bottom-Within (filtered_total v s) v)

  char-IsInside : (c : ℕ) (v : LogsView) → IsInside s v → IsInside s (logs_char c s v)
  unfolding logs_char jump_to_top cycle_level toggle_connection_filter
  char-IsInside c v h = ground (
    arith,
    scroll_up-IsInside v h,
    scroll_down-IsInside v h,
    jump_to_bottom-IsInside v,
    Within-zero (filtered_total (jump_to_top v) s) (jump_to_top v) refl,
    Within-zero (filtered_total (cycle_level v) s) (cycle_level v) refl,
    Within-zero (filtered_total (toggle_connection_filter v) s) (toggle_connection_filter v) refl,
    h,
  )

  -- While the offset of the log view is that of the last page or one before it, of the entries
  -- that pass the view's filters, it is so after every key, for the filters that the key leaves.
  pub logs_key-IsInside :
      (code : KeyCode) (v : LogsView) → IsInside s v → IsInside s (logs_key code s v)
  unfolding logs_key
  logs_key-IsInside KeyCode.up v h = scroll_up-IsInside v h
  logs_key-IsInside KeyCode.down v h = scroll_down-IsInside v h
  logs_key-IsInside (KeyCode.char c) v h = char-IsInside c v h
  logs_key-IsInside _ v h = h
