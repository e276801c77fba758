-- ===== src/Tui/App.antt =====
-- ferro-wg-tui-core/src/app.rs: tabs and input modes.
use ferro_wg.Prelude.{ℕ, ◌+◌, ◌-◌, ◌%◌, List, [], ◌∷◌, ◌≡◌, refl, Text, some, get_elem?, length}

pub data Tab : Type 0 where
  overview status peers compare config logs : Tab

abbrev pub all_tabs : List Tab
all_tabs = overview ∷ status ∷ peers ∷ compare ∷ config ∷ logs ∷ []

unfoldable pub index : Tab → ℕ
index overview = 0
index status = 1
index peers = 2
index compare = 3
index config = 4
index logs = 5

-- `Self::ALL[i]`; the callers below keep `i` under the array's length.
tab_at : List Tab → ℕ → Tab
tab_at ts i = elim (get_elem? ts i) [ some t ↦ t | _ ↦ overview ]

unfoldable pub next : Tab → Tab
unfolding tab_at index
next t = tab_at all_tabs ((index t + 1) % length all_tabs)

unfoldable pub prev : Tab → Tab
unfolding tab_at index
prev t = tab_at all_tabs ((index t + length all_tabs - 1) % length all_tabs)

pub data InputMode : Type 0 where
  normal search : InputMode
  -- the path typed so far
  importing : Text → InputMode
  exporting : Text → InputMode
  edit_field : InputMode

-- `prev` and `next` undo one another, and both step through the tabs in the order of the array,
-- with the ends joined.
pub prev-next :
    (t : Tab)
    → (prev (next t) ≡ t)
      × (next (prev t) ≡ t)
      × (get_elem? all_tabs ((index t + 1) % 6) ≡ some (next t))
unfolding next prev
prev-next overview = (refl, refl, refl)
prev-next status = (refl, refl, refl)
prev-next peers = (refl, refl, refl)
prev-next compare = (refl, refl, refl)
prev-next config = (refl, refl, refl)
prev-next logs = (refl, refl, refl)
