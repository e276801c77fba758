-- ===== src/Tui/ConnectionBar/Viewport.antt =====
-- What `viewport` of ferro-wg-tui-components/src/connection_bar.rs shows.
use ferro_wg.Prelude.{
  ℕ, zero, suc, ◌+◌, ◌-◌, ◌<◌, ◌≤◌, Bool, true, false, ◌||◌, List, [], ◌∷◌, Option, some, Result,
  ok, err, length, get_elem?, if◌then◌else◌, ltb, leb, ◌≡◌, refl, sym, subst, arith, ◌⊎◌, inl, inr,
  Bool-cases, ◌>>=◌,
}
use ferro_wg.Tui.ConnectionBar.{
  prefix_width, right_indicator_width, sum_widths, Window, NoView, taken, grown_left, grown_right,
  grow, scrolled, viewport,
}

-- The width of the first `k` entries.
unfoldable pub total : List ℕ → ℕ → ℕ
total [] k = 0
total (w ∷ ws) zero = 0
total (w ∷ ws) (suc k) = w + total ws k

total-zero : (ws : List ℕ) → total ws 0 ≡ 0
unfolding total
total-zero [] = refl
total-zero (w ∷ ws) = refl

-- Behind the entry `i` the width has grown by its own.
total-suc :
    (ws : List ℕ) (i : ℕ)
    → i < length ws
    → (w : ℕ) × (get_elem? ws i ≡ some w) × (total ws (i + 1) ≡ total ws i + w)
unfolding total
total-suc [] i h = ground (arith, h)
total-suc (w ∷ ws) zero h = (w, refl, ground (arith, total-zero ws))
total-suc (w ∷ ws) (suc i) h =
    let (x, found, e) = total-suc ws i (ground arith) in (x, found, ground (arith, e))

module _ (budget : ℕ) (ws : List ℕ) (selected : ℕ) where
  -- The loop's invariant.
  abbrev Inv : Window → Type 0
  Inv v =
      (v.start ≤ selected)
      × (selected ≤ v.end)
      × (v.end < length ws)
      × (v.used ≤ budget)
      × (v.used + total ws v.start ≡ total ws (v.end + 1))

  abbrev StuckLeft : Window → Type 0
  StuckLeft v = (v.start ≡ 0) ⊎ (total ws (v.start - 1) + budget < total ws (v.end + 1))

  abbrev StuckRight : Window → Type 0
  StuckRight v = (v.end + 1 ≡ length ws) ⊎ (total ws v.start + budget < total ws (v.end + 2))

  -- What is left to take in.
  abbrev room : Window → ℕ
  room v = v.start + (length ws - v.end)

  abbrev Stepped : (Window → Type 0) → Window → Result (Window × Bool) NoView → Type 0
  Stepped Stuck v (err e) = ⊥
  Stepped Stuck v (ok (l, true)) = Inv l × (room l < room v)
  Stepped Stuck v (ok (l, false)) = (l ≡ v) × Stuck v

  taken-Stepped :
      (Stuck : Window → Type 0) (v moved : Window) (w : ℕ) (o : Option ℕ)
      → o ≡ some w
      → (v.used + w ≤ budget
          → Inv (record moved { used = v.used + w })
            × (room (record moved { used = v.used + w }) < room v))
      → (budget < v.used + w → Stuck v)
      → Stepped Stuck v (taken budget v moved o)
  unfolding taken
  taken-Stepped Stuck v moved w o found fits full =
      rw found (elim (Bool-cases (leb (v.used + w) budget)) [
        | inl e ↦ rw e (fits (ground (arith, e)))
        | inr e ↦ rw e (refl, full (ground (arith, e)))
      ])

  left-Stepped : (v : Window) → Inv v → Stepped StuckLeft v (grown_left budget ws v)
  unfolding grown_left
  left-Stepped v (a, b, c, d, e) = elim (Bool-cases (ltb 0 v.start)) [
    | inl more ↦
        let (w, found, grows) = total-suc ws (v.start - 1) (ground (arith, more)) in
        let here : total ws (v.start - 1) + w ≡ total ws v.start =
          subst (λ i. total ws (v.start - 1) + w ≡ total ws i) (ground (arith, more)) (sym grows) in
        rw more (
          taken-Stepped StuckLeft v (record v { start = v.start - 1 }) w _ found
            (λ fits. (
              (ground arith, ground arith, ground arith, ground arith, ground (arith, here, e)),
              ground (arith, more),
            ))
            (λ full. inr (ground (arith, here, e))))
    | inr first ↦ rw first (refl, inl (ground (arith, first)))
  ]

  right-Stepped : (v : Window) → Inv v → Stepped StuckRight v (grown_right budget ws v)
  unfolding grown_right
  right-Stepped v (a, b, c, d, e) = elim (Bool-cases (ltb (v.end + 1) (length ws))) [
    | inl more ↦
        let (w, found, grows) = total-suc ws (v.end + 1) (ground (arith, more)) in
        let next : total ws (v.end + 2) ≡ total ws (v.end + 1) + w =
          subst (λ i. total ws i ≡ total ws (v.end + 1) + w) (ground arith) grows in
        rw more (
          taken-Stepped StuckRight v (record v { end = v.end + 1 }) w _ found
            (λ fits. (
              (
                ground arith,
                ground arith,
                ground (arith, more),
                ground arith,
                ground (arith, grows, e),
              ),
              ground (arith, more),
            ))
            (λ full. inr (ground (arith, next, e))))
    | inr last ↦ rw last (refl, inl (ground (arith, last)))
  ]

  abbrev Done : Result Window NoView → Type 0
  Done (err e) = ⊥
  Done (ok v) = Inv v × StuckLeft v × StuckRight v

  -- The rest of a round, after its step to the left.
  abbrev Continues : ℕ → Type 0
  Continues n = (v : Window) → Inv v → room v ≤ n → Done (grow n budget ws v)

  after_left-Done :
      (n : ℕ) (grew : Bool) (l : Window) (r : Result (Window × Bool) NoView)
      → Continues n
      → Inv l
      → Stepped StuckRight l r
      → (grew ≡ true → room l ≤ n)
      → (grew ≡ false → StuckLeft l × (room l ≤ suc n))
      → Done (do
        right ← r
        let rest = grow n budget ws right.0
        if grew || right.1 then rest else ok right.0)
  after_left-Done n true l (ok (m, true)) ih inv (kept, less) more first =
      ih m kept (ground (arith, less, more refl))
  after_left-Done n false l (ok (m, true)) ih inv (kept, less) more first =
      ih m kept (ground (arith, less, (first refl).1))
  after_left-Done n true l (ok (m, false)) ih inv (same, stuck) more first =
      rw same (ih l inv (more refl))
  after_left-Done n false l (ok (m, false)) ih inv (same, stuck) more first =
      rw same (inv, (first refl).0, stuck)
  after_left-Done n grew l (err e) ih inv step more first = step

  round-Done :
      (n : ℕ) (v : Window) (r : Result (Window × Bool) NoView)
      → Continues n
      → Inv v
      → Stepped StuckLeft v r
      → room v ≤ suc n
      → Done (do
        left ← r
        right ← grown_right budget ws left.0
        let rest = grow n budget ws right.0
        if left.1 || right.1 then rest else ok right.0)
  round-Done n v (ok (l, true)) ih inv (kept, less) enough =
      after_left-Done n true l _ ih kept (right-Stepped l kept) (λ e. ground (arith, less, enough))
        (λ e. ground (arith, e))
  round-Done n v (ok (l, false)) ih inv (same, stuck) enough = rw same (
      after_left-Done n false v _ ih inv (right-Stepped v inv) (λ e. ground (arith, e))
        (λ e. (stuck, enough)))
  round-Done n v (err e) ih inv step enough = step

  -- As much fuel as there is room is enough.
  grow-Done : (n : ℕ) → Continues n
  unfolding grow
  grow-Done zero v inv enough = ground (arith, inv.2)
  grow-Done (suc n) v inv enough =
      round-Done n v (grown_left budget ws v) (grow-Done n) inv (left-Stepped v inv) enough

-- What may be shown, in a budget: all entries, the selected one alone, or a page with no room for
-- another.
abbrev pub IsShown : List ℕ → ℕ → ℕ → ℕ × ℕ → Type 0
IsShown ws selected area_width (s, e) =
    let budget = area_width - (prefix_width + right_indicator_width) in
    ((s ≡ 0) × (e + 1 ≡ length ws) × (sum_widths ws + prefix_width ≤ area_width))
    ⊎ ((s ≡ selected) × (e ≡ selected) × (total ws selected + budget < total ws (selected + 1)))
    ⊎ ((total ws (e + 1) ≤ total ws s + budget)
        × ((s ≡ 0) ⊎ (total ws (s - 1) + budget < total ws (e + 1)))
        × ((e + 1 ≡ length ws) ⊎ (total ws s + budget < total ws (e + 2))))

abbrev Holds : List ℕ → ℕ → ℕ → Result (ℕ × ℕ) NoView → Type 0
Holds ws selected area_width (err e) = ⊥
Holds ws selected area_width (ok (s, e)) =
    (s ≤ selected) × (selected ≤ e) × (e < length ws) × IsShown ws selected area_width (s, e)

Done-Holds :
    (ws : List ℕ) (selected area_width : ℕ) (r : Result Window NoView)
    → Done (area_width - (prefix_width + right_indicator_width)) ws selected r
    → Holds ws selected area_width (do v ← r; ok (v.start, v.end))
Done-Holds ws selected area_width (ok v) ((a, b, c, d, e), left, right) =
    (a, b, c, inr (inr (ground (arith, e, d), left, right)))
Done-Holds ws selected area_width (err e) h = h

scrolled-Holds :
    (ws : List ℕ) (selected area_width : ℕ)
    → selected < length ws
    → Holds ws selected area_width (
        scrolled
          (area_width - (prefix_width + right_indicator_width))
          ws
          selected
          (get_elem? ws selected))
unfolding scrolled
scrolled-Holds ws selected area_width inside =
    let budget = area_width - (prefix_width + right_indicator_width) in
    let (w, found, grows) = total-suc ws selected inside in
    rw found (elim (Bool-cases (ltb budget w)) [
      | inl wide ↦
          rw wide (
            ground arith,
            ground arith,
            inside,
            inr (inl (refl, refl, ground (arith, wide, grows))),
          )
      | inr narrow ↦ rw narrow (
          Done-Holds ws selected area_width _ (
            grow-Done budget ws selected (length ws)
              (record { start = selected; end = selected; used = w })
              (ground arith, ground arith, inside, ground (arith, narrow), ground (arith, grows))
              (ground (arith, inside))))
    ])

viewport-Holds :
    (ws : List ℕ) (selected area_width : ℕ)
    → selected < length ws
    → Holds ws selected area_width (viewport ws selected area_width)
unfolding viewport
viewport-Holds [] selected area_width inside = ground (arith, inside)
viewport-Holds (w ∷ ws) selected area_width inside =
    elim (Bool-cases (leb (sum_widths (w ∷ ws) + prefix_width) area_width)) [
      | inl all ↦ rw all (
        ground arith,
        ground (arith, inside),
        ground arith,
        inl (refl, ground arith, ground (arith, all)),
      )
      | inr some_hidden ↦ rw some_hidden (scrolled-Holds (w ∷ ws) selected area_width inside)
    ]

-- With an entry selected, the loop ends and the view has that entry in it. It is of all entries, when
-- they fit behind the label; or of the selected one alone, when it is wider than the budget; or it is
-- within the budget, and so that neither neighbour fits as well.
pub viewport-IsShown :
    (ws : List ℕ) (selected area_width : ℕ)
    → selected < length ws
    → (s e : ℕ) × (viewport ws selected area_width ≡ ok (s, e))
      × (s ≤ selected)
      × (selected ≤ e)
      × (e < length ws)
      × IsShown ws selected area_width (s, e)
viewport-IsShown ws selected area_width inside =
    found (viewport ws selected area_width) (viewport-Holds ws selected area_width inside)
  where
    found :
        (r : Result (ℕ × ℕ) NoView)
        → Holds ws selected area_width r
        → (s e : ℕ) × (r ≡ ok (s, e))
          × (s ≤ selected)
          × (selected ≤ e)
          × (e < length ws)
          × IsShown ws selected area_width (s, e)
    found (ok (s, e)) h = (s, e, refl, h.0, h.1, h.2, h.3)
    found (err e) h = elim h [ ]
