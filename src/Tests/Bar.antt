-- ===== src/Tests/Bar.antt =====
-- Runs of ferro-wg-tui-components/src/connection_bar.rs.
use ferro_wg.Prelude.{ℕ, List, [], ◌∷◌, ◌≡◌, ◌≤◌, ◌<◌, ok, length, arith, true, codes}
use ferro_wg.Tui.ConnectionBar.{viewport, entry_width, entry_text}
use ferro_wg.Tui.ConnectionBar.Viewport.{IsShown, viewport-IsShown}
use ferro_wg.Tui.ConnectionBar.Widths.{entry_width-entry_text}

abbrev seven_entries : List ℕ
seven_entries = 6 ∷ 6 ∷ 6 ∷ 12 ∷ 6 ∷ 6 ∷ 6 ∷ []

viewport-IsShown_example :
    (s e : ℕ) × (viewport seven_entries 3 40 ≡ ok (s, e))
    × (s ≤ 3)
    × (3 ≤ e)
    × (e < length seven_entries)
    × IsShown seven_entries 3 40 (s, e)
viewport-IsShown_example = viewport-IsShown seven_entries 3 40 (ground arith)

entry_width-entry_text_example :
    entry_width 9 (codes "lab") true ≡ length (entry_text 9 (codes "lab") b'?' true)
entry_width-entry_text_example = entry_width-entry_text 9 (codes "lab") b'?' true
