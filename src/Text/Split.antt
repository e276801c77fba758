-- ===== src/Text/Split.antt =====
-- `str::split`, `split_once`, `lines` and `join`.
use ferro_wg.Text.Trim.{trim, is_whitespace, EndsSolid, trim-blank}
use ferro_wg.Prelude.{
  map, All, ◌≡◌, ◌≢◌, refl, ap, ◌∙◌, append-nil, append_assoc, arith, codes, ==_refl, ℕ, Bool, true,
  false, ◌||◌, List, [], ◌∷◌, ◌++◌, ◌==◌, nat_eq, if◌then◌else◌, is_empty, Text, Option, none, some,
  last?, drop_last, drop, length,
}

push_front : ℕ → List Text → List Text
push_front x [] = (x ∷ []) ∷ []
push_front x (p ∷ ps) = (x ∷ p) ∷ ps

-- `s.split(c)`: one piece more than `c` occurs.
unfoldable pub split : ℕ → Text → List Text
unfolding push_front
split c [] = [] ∷ []
split c (x ∷ xs) = let rest = split c xs in if x == c then [] ∷ rest else push_front x rest

-- `s.split_once(c)`: the texts before and behind the first `c`.
unfoldable pub split_once : ℕ → Text → Option (Text × Text)
split_once c [] = none
split_once c (x ∷ xs) =
    let rest = split_once c xs in
    if x == c then some ([], xs) else elim rest [ none ↦ none | some (a, b) ↦ some (x ∷ a, b) ]

strip_cr : Text → Text
strip_cr s = elim (last? s) [ none ↦ s | some c ↦ if c == b'\r' then drop_last s else s ]

-- `acc` is the line read so far.
unfoldable pub lines_from : Text → Text → List Text
unfolding strip_cr
lines_from acc [] = if is_empty acc then [] else acc ∷ []
lines_from acc (c ∷ cs) =
    let next = lines_from [] cs in
    let more = lines_from (acc ++ c ∷ []) cs in if c == b'\n' then strip_cr acc ∷ next else more

-- `s.lines()`: a line loses its "\n" or "\r\n"; a last line need not have one.
unfoldable pub lines : Text → List Text
unfolding lines_from
lines = lines_from []

-- What one `read_line` takes from the front: a line with its "\n".
unfoldable pub read_line : Text → Text
read_line [] = []
read_line (c ∷ cs) = let rest = read_line cs in if c == b'\n' then c ∷ [] else c ∷ rest

-- `acc` is the line read so far.
read_lines_from : Text → Text → List Text
read_lines_from acc [] = if is_empty acc then [] else acc ∷ []
read_lines_from acc (c ∷ cs) =
    let next = read_lines_from [] cs in
    let more = read_lines_from (acc ++ c ∷ []) cs in
    if c == b'\n' then (acc ++ c ∷ []) ∷ next else more

-- What `read_line` gives, one call after the other, up to the end.
unfoldable pub read_lines : Text → List Text
unfolding read_lines_from
read_lines = read_lines_from []

-- `parts.join(sep)`
unfoldable pub join : Text → List Text → Text
join sep [] = []
join sep (x ∷ []) = x
join sep (x ∷ y ∷ xs) = x ++ (sep ++ join sep (y ∷ xs))

unfoldable pub is_prefix : Text → Text → Bool
is_prefix [] s = true
is_prefix (c ∷ cs) [] = false
is_prefix (c ∷ cs) (x ∷ xs) = let rest = is_prefix cs xs in if c == x then rest else false

-- `s.contains(part)`
unfoldable pub has_part : Text → Text → Bool
unfolding is_prefix
has_part part [] = is_empty part
has_part part (x ∷ xs) = is_prefix part (x ∷ xs) || has_part part xs

-- `s.split_once(part)` at the first occurrence of a text.
unfoldable pub split_once_text : Text → Text → Option (Text × Text)
unfolding is_prefix
split_once_text part [] = none
split_once_text part (x ∷ xs) =
    let rest = split_once_text part xs in
    if is_prefix part (x ∷ xs)
    then some ([], drop (length part) (x ∷ xs))
    else elim rest [ none ↦ none | some (a, b) ↦ some (x ∷ a, b) ]

-- `s.strip_prefix(part)`
unfoldable pub strip_prefix : Text → Text → Option Text
unfolding is_prefix
strip_prefix part s = if is_prefix part s then some (drop (length part) s) else none

abbrev pub Lacks : ℕ → Text → Type 0
Lacks c s = All (λ x. (x == c) ≡ false) s

last-EndsSolid : (s : Text) → EndsSolid s → (c : ℕ) × (last? s ≡ some c) × (is_whitespace c ≡ false)
last-EndsSolid [] h = elim h [ ]
last-EndsSolid (c ∷ []) h = (c, refl, h)
last-EndsSolid (c ∷ d ∷ s) h = last-EndsSolid (d ∷ s) h

strip_cr-solid : (s : Text) → EndsSolid s → strip_cr s ≡ s
unfolding strip_cr is_whitespace
strip_cr-solid s h =
    let (c, e, solid) = last-EndsSolid s h in rw (e, strip_cr) (rw (no_cr c solid) refl)
  where
    no_cr : (c : ℕ) → is_whitespace c ≡ false → (c == b'\r') ≡ false
    no_cr c h = ground (arith, h)

lines_from-line :
    (acc v rest : Text)
    → Lacks b'\n' v
    → lines_from acc (v ++ (b'\n' ∷ rest)) ≡ strip_cr (acc ++ v) ∷ lines_from [] rest
unfolding lines_from
lines_from-line acc [] rest h = rw (append-nil acc) refl
lines_from-line acc (c ∷ v) rest h =
    rw (h.0) (lines_from-line (acc ++ c ∷ []) v rest h.1 ∙ rw (append_assoc acc (c ∷ []) v) refl)

-- A line that does not end in a white character is read as it is.
pub lines-line :
    (v rest : Text) → Lacks b'\n' v → EndsSolid v → lines (v ++ (b'\n' ∷ rest)) ≡ v ∷ lines rest
unfolding lines
lines-line v rest h k =
    lines_from-line [] v rest h ∙ ap (λ l. l ∷ lines_from [] rest) (strip_cr-solid v k)

pub read_line-append :
    (v rest : Text) → Lacks b'\n' v → read_line (v ++ (b'\n' ∷ rest)) ≡ v ++ (b'\n' ∷ [])
unfolding read_line
read_line-append [] rest h = refl
read_line-append (c ∷ v) rest h = rw (h.0) (rw (read_line-append v rest h.1) refl)

read_lines_from-line :
    (acc v rest : Text)
    → Lacks b'\n' v
    → read_lines_from acc (v ++ (b'\n' ∷ rest))
      ≡ (acc ++ (v ++ b'\n' ∷ [])) ∷ read_lines_from [] rest
unfolding read_lines_from
read_lines_from-line acc [] rest h = refl
read_lines_from-line acc (c ∷ v) rest h = rw (h.0) (
    read_lines_from-line (acc ++ c ∷ []) v rest h.1
    ∙ ap (λ l. l ∷ read_lines_from [] rest) (append_assoc acc (c ∷ []) (v ++ b'\n' ∷ [])))

pub read_lines-line :
    (v rest : Text)
    → Lacks b'\n' v
    → read_lines (v ++ (b'\n' ∷ rest)) ≡ (v ++ b'\n' ∷ []) ∷ read_lines rest
unfolding read_lines
read_lines-line v rest h = read_lines_from-line [] v rest h

pub split-lacking : (c : ℕ) (x : Text) → Lacks c x → split c x ≡ x ∷ []
unfolding split push_front
split-lacking c [] h = refl
split-lacking c (y ∷ x) h = rw (h.0) (rw (split-lacking c x h.1) refl)

pub split-append :
    (c : ℕ) (x rest : Text) → Lacks c x → split c (x ++ (c ∷ rest)) ≡ x ∷ split c rest
unfolding split push_front
split-append c [] rest h = rw (==_refl c) refl
split-append c (y ∷ x) rest h = rw (h.0) (rw (split-append c x rest h.1) refl)

blank_first : (s : Text) → split b',' (b' ' ∷ s) ≡ push_front b' ' (split b',' s)
unfolding split
blank_first s = refl

pushed : (y : Text) (xs : List Text) → push_front b' ' (y ∷ xs) ≡ (b' ' ∷ y) ∷ xs
unfolding push_front
pushed y xs = refl

split-join :
    (x : Text) (xs : List Text)
    → Lacks b',' x
    → All (Lacks b',') xs
    → split b',' (join (codes ", ") (x ∷ xs)) ≡ x ∷ map (◌∷◌ b' ') xs
unfolding join
split-join x [] h hs = split-lacking b',' x h
split-join x (y ∷ xs) h hs =
    split-append b',' x (b' ' ∷ join (codes ", ") (y ∷ xs)) h
    ∙ ap (◌∷◌ x) (
        blank_first (join (codes ", ") (y ∷ xs))
        ∙ rw (split-join y xs hs.0 hs.1) (pushed y (map (◌∷◌ b' ') xs)))

-- What was joined by a comma and a space is split and trimmed to what it was.
pub trimmed-split-join :
    (xs : List Text)
    → xs ≢ []
    → All (λ x. Lacks b',' x × (trim x ≡ x)) xs
    → map trim (split b',' (join (codes ", ") xs)) ≡ xs
trimmed-split-join [] ne h = absurd (ne refl)
trimmed-split-join (x ∷ xs) ne h =
    rw (split-join x xs h.0.0 (lacking xs h.1)) (ap_cons h.0.1 (trimmed xs h.1))
  where
    ap_cons :
        {x y : Text} {xs ys : List Text} → x ≡ y → xs ≡ ys → Path (List Text) (x ∷ xs) (y ∷ ys)
    ap_cons p q = λ i. p i ∷ q i

    lacking : (xs : List Text) → All (λ x. Lacks b',' x × (trim x ≡ x)) xs → All (Lacks b',') xs
    lacking [] h = tt
    lacking (x ∷ xs) h = (h.0.0, lacking xs h.1)

    trimmed :
        (xs : List Text)
        → All (λ x. Lacks b',' x × (trim x ≡ x)) xs
        → map trim (map (◌∷◌ b' ') xs) ≡ xs
    trimmed [] h = refl
    trimmed (x ∷ xs) h = ap_cons (trim-blank x ∙ h.0.1) (trimmed xs h.1)
