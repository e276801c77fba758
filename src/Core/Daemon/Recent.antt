-- ===== src/Core/Daemon/Recent.antt =====
-- What `LogBuffer` of ferro-wg-core/src/daemon.rs keeps of what it was given.
use ferro_wg.Prelude.{
  ℕ, zero, suc, ◌-◌, ◌≤◌, ◌<◌, List, [], ◌∷◌, ◌++◌, ◌≡◌, refl, sym, ap, subst, ◌∙◌, arith, length,
  drop, length-append, length-drop, append_assoc, append-nil, ◌==◌, nat_eq, nat_beq_iff, Bool-cases,
  inl, inr,
}
use ferro_wg.Core.Ipc.{LogEntry}
use ferro_wg.Core.Daemon.Buffer.{
  LogBuffer, make_room, new_buffer, push_back, add_entry, add_entries,
}

-- The last `n` of a list.
abbrev pub last_of : {A : Type 0} → ℕ → List A → List A
last_of n xs = drop (length xs - n) xs

drop-append :
    {A : Type 0} (n : ℕ) (xs ys : List A) → n ≤ length xs → drop n (xs ++ ys) ≡ drop n xs ++ ys
drop-append zero xs ys h = refl
drop-append (suc n) [] ys h = elim h [ ]
drop-append (suc n) (x ∷ xs) ys h = drop-append n xs ys (omega arith)

drop-suc : {A : Type 0} (n : ℕ) (xs : List A) → drop n (drop 1 xs) ≡ drop (suc n) xs
drop-suc zero [] = refl
drop-suc (suc n) [] = refl
drop-suc n (x ∷ xs) = refl

last_of-drop :
    {A : Type 0} (n : ℕ) (xs : List A) → n < length xs → last_of n (drop 1 xs) ≡ last_of n xs
last_of-drop n [] h = elim h [ ]
last_of-drop n (x ∷ xs) h = ap (λ k. drop k (x ∷ xs)) (count (length xs) h)
  where
    count : (l : ℕ) → n < suc l → suc (l - n) ≡ suc l - n
    count l h = omega (arith, h)

last_of-all : {A : Type 0} (n : ℕ) (xs : List A) → length xs ≤ n → last_of n xs ≡ xs
last_of-all n xs h = ap (λ k. drop k xs) (none_left (length xs) h)
  where
    none_left : (l : ℕ) → l ≤ n → l - n ≡ 0
    none_left l h = omega (arith, h)

-- A full queue that forgets its first element.
full_queue :
    {A : Type 0} (e : A) (es rest : List A)
    → 0 < length es
    → last_of (length es) ((drop 1 es ++ e ∷ []) ++ rest) ≡ last_of (length es) (es ++ e ∷ rest)
full_queue e es rest h =
    ap (last_of (length es)) (
      append_assoc (drop 1 es) (e ∷ []) rest ∙ sym (drop-append 1 es (e ∷ rest) (omega (arith, h))))
    ∙ last_of-drop (length es) (es ++ e ∷ rest) (omega (arith, length-append es (e ∷ rest)))

module _ (granted : ℕ → ℕ) where
  IsKept : ℕ → LogEntry → List LogEntry → LogBuffer → Type 0
  IsKept cap e es b =
      (b.capacity ≡ cap)
      × (length b.entries ≤ cap)
      × ((rest : List LogEntry) → last_of cap (b.entries ++ rest) ≡ last_of cap (es ++ e ∷ rest))

  -- One entry more: the buffer keeps its capacity, and the entries are the last ones.
  add_entry-IsKept :
      (e : LogEntry) (b : LogBuffer)
      → 0 < b.capacity
      → length b.entries ≤ b.capacity
      → IsKept b.capacity e b.entries (add_entry granted e b)
  unfolding add_entry push_back make_room IsKept
  add_entry-IsKept e b pos h = elim (Bool-cases (length b.entries == b.capacity)) [
    | inl full ↦
        let same : length b.entries ≡ b.capacity =
          (nat_beq_iff (length b.entries) b.capacity).0 full in
        rw full (
          ground (arith, length-drop 1 b.entries, same, pos),
          omega (
            arith,
            length-append (drop 1 b.entries) (e ∷ []),
            length-drop 1 b.entries,
            same,
            pos,
          ),
          λ rest.
              subst
                (λ n.
                  last_of n ((drop 1 b.entries ++ e ∷ []) ++ rest)
                  ≡ last_of n (b.entries ++ e ∷ rest))
                same (full_queue e b.entries rest (omega (arith, same, pos))),
        )
    | inr free ↦ rw free (
        rw free (
          refl,
          ground (arith, length-append b.entries (e ∷ []), free, h),
          λ rest. ap (last_of b.capacity) (append_assoc b.entries (e ∷ []) rest),
        ))
  ]

  -- A buffer with room keeps the entries that came last, and never more than its capacity.
  pub recent_kept :
      (es : List LogEntry) (b : LogBuffer)
      → 0 < b.capacity
      → length b.entries ≤ b.capacity
      → ((add_entries granted es b).capacity ≡ b.capacity)
        × (length (add_entries granted es b).entries ≤ b.capacity)
        × ((add_entries granted es b).entries ≡ last_of b.capacity (b.entries ++ es))
  unfolding add_entries IsKept
  recent_kept [] b pos h = (
    refl,
    h,
    sym (ap (last_of b.capacity) (append-nil b.entries) ∙ last_of-all b.capacity b.entries h),
  )
  recent_kept (e ∷ es) b pos h =
      let next = add_entry granted e b in
      let kept = add_entry-IsKept e b pos h in
      let ih = recent_kept es next (rw kept.0 pos) (rw kept.0 kept.1) in
      (
        ih.0 ∙ kept.0,
        subst (λ n. length (add_entries granted es next).entries ≤ n) kept.0 ih.1,
        ih.2 ∙ ap (λ n. last_of n (next.entries ++ es)) kept.0 ∙ kept.2 es,
      )

  -- A new buffer that was granted at least one place holds, after any number of entries, the last
  -- of them, as many as it was granted and no more.
  pub add_entries_lem :
      (capacity : ℕ) (es : List LogEntry)
      → 0 < granted capacity
      → (length (add_entries granted es (new_buffer granted capacity)).entries ≤ granted capacity)
        × ((add_entries granted es (new_buffer granted capacity)).entries
            ≡ last_of (granted capacity) es)
  unfolding new_buffer
  add_entries_lem capacity es pos =
      let h = recent_kept es (new_buffer granted capacity) pos (omega arith) in (h.1, h.2)
