-- ===== src/Tui/ConnectionBar.antt =====
-- ferro-wg-tui-components/src/connection_bar.rs: the widths of the bar's entries, and which of them
-- are shown.
pub mod Viewport
pub mod Widths
use ferro_wg.Prelude.{
  ℕ, zero, suc, ◌+◌, ◌-◌, Bool, true, false, ◌||◌, List, [], ◌∷◌, ◌++◌, Text, Option, none, some,
  length, take, get_elem?, map, Result, ok, err, if◌then◌else◌, ltb, leb, codes, ◌>>=◌, ◌/◌, ◌==◌,
  nat_eq,
}
use ferro_wg.Text.Number.{show_nat}

unfoldable pub max_display_name_len : ℕ
max_display_name_len = 20

abbrev pub prefix_width : ℕ
prefix_width = 14

abbrev pub right_indicator_width : ℕ
right_indicator_width = 2

unfoldable pub truncate_name : Text → Text
truncate_name name =
    if ltb max_display_name_len (length name)
    then take max_display_name_len name ++ codes "…"
    else name

-- `n` divided by ten until nothing is left, which takes fewer than `n + 1` rounds.
unfoldable pub digits_left : ℕ → ℕ → ℕ
digits_left zero n = 0
digits_left (suc fuel) n = let rest = digits_left fuel (n / 10) in if n == 0 then 0 else 1 + rest

unfoldable pub digit_count : ℕ → ℕ
digit_count n = if n == 0 then 1 else digits_left n n

unfoldable pub entry_width : ℕ → Text → Bool → ℕ
entry_width index display_name selected =
    let label_width = 2 + digit_count (index + 1) in
    if selected then label_width + 1 + length display_name + 1 + 1 + 2 else label_width + 1 + 2

-- The text of an entry's spans; the indicator is one character.
unfoldable pub entry_text : ℕ → Text → ℕ → Bool → Text
entry_text index display_name indicator selected =
    if selected
    then (codes "[" ++ show_nat (index + 1) ++ codes "] ")
      ++ display_name
      ++ codes " "
      ++ (indicator ∷ [])
      ++ codes "  "
    else (codes "[" ++ show_nat (index + 1) ++ codes "]") ++ (indicator ∷ []) ++ codes "  "

unfoldable pub sum_widths : List ℕ → ℕ
sum_widths [] = 0
sum_widths (w ∷ ws) = w + sum_widths ws

-- The variables of the loop.
pub record Window : Type 0 where
  pub start : ℕ
  pub end : ℕ
  pub used : ℕ

-- No entry is selected, an index is out of range, or the fuel is used up.
pub data NoView : Type 0 where
  nothing_selected index_out_of_range out_of_fuel : NoView

-- The neighbour is taken in when it fits.
unfoldable pub taken : ℕ → Window → Window → Option ℕ → Result (Window × Bool) NoView
taken budget v moved none = err index_out_of_range
taken budget v moved (some w) =
    if leb (v.used + w) budget then ok (record moved { used = v.used + w }, true) else ok (v, false)

unfoldable pub grown_left : ℕ → List ℕ → Window → Result (Window × Bool) NoView
grown_left budget ws v =
    if ltb 0 v.start
    then taken budget v (record v { start = v.start - 1 }) (get_elem? ws (v.start - 1))
    else ok (v, false)

unfoldable pub grown_right : ℕ → List ℕ → Window → Result (Window × Bool) NoView
grown_right budget ws v =
    if ltb (v.end + 1) (length ws)
    then taken budget v (record v { end = v.end + 1 }) (get_elem? ws (v.end + 1))
    else ok (v, false)

-- The loop, with fuel.
unfoldable pub grow : ℕ → ℕ → List ℕ → Window → Result Window NoView
grow zero budget ws v = err out_of_fuel
grow (suc n) budget ws v = do
  left ← grown_left budget ws v
  right ← grown_right budget ws left.0
  let rest = grow n budget ws right.0
  if left.1 || right.1 then rest else ok right.0

unfoldable pub scrolled : ℕ → List ℕ → ℕ → Option ℕ → Result (ℕ × ℕ) NoView
scrolled budget ws selected none = err nothing_selected
scrolled budget ws selected (some w) = if ltb budget w then ok (selected, selected) else do
  v ← grow (length ws) budget ws (record { start = selected; end = selected; used = w })
  ok (v.start, v.end)

-- The first and the last entry shown. One round of the loop takes in an entry or is the last, so
-- there are at most as many rounds as entries. The assertions are those of debug builds only.
unfoldable pub viewport : List ℕ → ℕ → ℕ → Result (ℕ × ℕ) NoView
viewport [] selected area_width = err nothing_selected
viewport ws selected area_width =
    if leb (sum_widths ws + prefix_width) area_width
    then ok (0, length ws - 1)
    else scrolled (area_width - (prefix_width + right_indicator_width)) ws selected
        (get_elem? ws selected)

-- The widths of the entries from the index `i` on.
unfoldable pub widths_from : ℕ → ℕ → List Text → List ℕ
widths_from i selected [] = []
widths_from i selected (name ∷ names) =
    entry_width i name (i == selected) ∷ widths_from (i + 1) selected names

-- What `render` shows of the connections with these names: it always selects the first one.
unfoldable pub shown_entries : List Text → ℕ → Result (ℕ × ℕ) NoView
shown_entries names area_width = viewport (widths_from 0 0 (map truncate_name names)) 0 area_width
