-- ===== src/Text/Trim.antt =====
-- `char::is_whitespace`, `str::trim`, and the ASCII case functions.
use ferro_wg.Prelude.{
  ℕ, ◌+◌, Bool, true, false, ◌&&◌, ◌||◌, [], ◌∷◌, ◌++◌, map, ◌≡◌, refl, sym, ap, ◌∙◌, arith, leb,
  ◌==◌, nat_eq, text_eq, All, ◌≢◌, if◌then◌else◌, is_empty, Text,
}

-- Unicode's White_Space property.
unfoldable pub is_whitespace : ℕ → Bool
is_whitespace c =
    leb 9 c && leb c 13
    || c == 32
    || c == 0x85
    || c == 0xa0
    || c == 0x1680
    || leb 0x2000 c && leb c 0x200a
    || c == 0x2028
    || c == 0x2029
    || c == 0x202f
    || c == 0x205f
    || c == 0x3000

trim_start : Text → Text
trim_start [] = []
trim_start (c ∷ cs) = let rest = trim_start cs in if is_whitespace c then rest else c ∷ cs

trim_end : Text → Text
trim_end [] = []
trim_end (c ∷ cs) =
    let rest = trim_end cs in if is_empty rest && is_whitespace c then [] else c ∷ rest

unfoldable pub trim : Text → Text
unfolding trim_start trim_end is_whitespace
trim s = trim_end (trim_start s)

-- `s.trim_end_matches(c)`
unfoldable pub trim_end_char : ℕ → Text → Text
trim_end_char c [] = []
trim_end_char c (x ∷ xs) =
    let rest = trim_end_char c xs in if is_empty rest && x == c then [] else x ∷ rest

abbrev pub to_lower_byte : ℕ → ℕ
to_lower_byte c = if leb b'A' c && leb c b'Z' then c + 32 else c

abbrev pub to_ascii_lowercase : Text → Text
to_ascii_lowercase = map to_lower_byte

abbrev pub eq_ignore_ascii_case : Text → Text → Bool
eq_ignore_ascii_case a b = to_ascii_lowercase a == to_ascii_lowercase b

abbrev pub starts_with_char : ℕ → Text → Bool
starts_with_char c [] = false
starts_with_char c (x ∷ xs) = x == c

-- A text that `trim` leaves as it is.
abbrev pub IsTrimmed : Text → Type 0
IsTrimmed s = trim s ≡ s

trim_end-trim_end : (s : Text) → trim_end (trim_end s) ≡ trim_end s
unfolding trim_end
trim_end-trim_end [] = refl
trim_end-trim_end (c ∷ cs) = ground (arith, trim_end-trim_end cs)

trim_start-trim_end : (s : Text) → trim_start (trim_end s) ≡ trim_end (trim_start s)
unfolding trim_start trim_end
trim_start-trim_end [] = refl
trim_start-trim_end (c ∷ cs) = ground (arith, trim_start-trim_end cs)

trim_start-trim_start : (s : Text) → trim_start (trim_start s) ≡ trim_start s
unfolding trim_start
trim_start-trim_start [] = refl
trim_start-trim_start (c ∷ cs) = ground (arith, trim_start-trim_start cs)

pub trim-trim : (s : Text) → trim (trim s) ≡ trim s
unfolding trim
trim-trim s = rw trim_start-trim_end (rw trim_end-trim_end (rw trim_start-trim_start))

is_empty_append :
    (s : Text) (c : ℕ) (t : Text) (x : ℕ)
    → (if is_empty (s ++ (c ∷ t)) && is_whitespace x then [] else x ∷ (s ++ (c ∷ t)))
      ≡ x ∷ (s ++ (c ∷ t))
is_empty_append [] c t x = refl
is_empty_append (y ∷ s) c t x = refl

-- Behind a character that is not white, only the rest is trimmed.
trim_end-append_solid :
    (s : Text) (c : ℕ) (t : Text)
    → is_whitespace c ≡ false
    → trim_end (s ++ (c ∷ t)) ≡ s ++ (c ∷ trim_end t)
unfolding trim_end
trim_end-append_solid [] c t h = ground arith
trim_end-append_solid (x ∷ s) c t h =
    rw (trim_end-append_solid s c t h) (is_empty_append s c (trim_end t) x)

trim_end-append_white :
    (s : Text) (c : ℕ) → is_whitespace c ≡ true → trim_end (s ++ (c ∷ [])) ≡ trim_end s
unfolding trim_end
trim_end-append_white [] c h = ground (arith, h)
trim_end-append_white (x ∷ s) c h = rw (trim_end-append_white s c h)

-- White space at the end is trimmed with the rest.
pub trim-append_white : (s : Text) (c : ℕ) → is_whitespace c ≡ true → trim (s ++ (c ∷ [])) ≡ trim s
unfolding trim
trim-append_white s c h =
    sym (trim_start-trim_end (s ++ (c ∷ [])))
    ∙ ap trim_start (trim_end-append_white s c h)
    ∙ trim_start-trim_end s

pub trim-append_newline : (s : Text) → trim (s ++ (b'\n' ∷ [])) ≡ trim s
unfolding is_whitespace
trim-append_newline s = trim-append_white s b'\n' refl

-- A text that has a first character, which is not white, and one whose last character is not.
abbrev pub StartsSolid : Text → Type 0
StartsSolid [] = ⊥
StartsSolid (c ∷ cs) = is_whitespace c ≡ false

abbrev pub EndsSolid : Text → Type 0
EndsSolid [] = ⊥
EndsSolid (c ∷ []) = is_whitespace c ≡ false
EndsSolid (c ∷ d ∷ cs) = EndsSolid (d ∷ cs)

EndsSolid-cons : (c : ℕ) (s : Text) → EndsSolid s → EndsSolid (c ∷ s)
EndsSolid-cons c [] h = elim h [ ]
EndsSolid-cons c (d ∷ s) h = h

pub EndsSolid-append : (s t : Text) → EndsSolid t → EndsSolid (s ++ t)
EndsSolid-append [] t h = h
EndsSolid-append (c ∷ s) t h = EndsSolid-cons c (s ++ t) (EndsSolid-append s t h)

-- A text with no white character at all.
abbrev pub NoWhite : Text → Type 0
NoWhite s = All (λ c. is_whitespace c ≡ false) s

pub NoWhite-EndsSolid : (s : Text) → s ≢ [] → NoWhite s → EndsSolid s
NoWhite-EndsSolid [] ne h = ne refl
NoWhite-EndsSolid (c ∷ []) ne h = h.0
NoWhite-EndsSolid (c ∷ d ∷ s) ne h = NoWhite-EndsSolid (d ∷ s) (λ e. cc e) h.1

pub NoWhite-StartsSolid : (s : Text) → s ≢ [] → NoWhite s → StartsSolid s
NoWhite-StartsSolid [] ne h = ne refl
NoWhite-StartsSolid (c ∷ s) ne h = h.0

trim_end-solid : (s : Text) → EndsSolid s → trim_end s ≡ s
unfolding trim_end
trim_end-solid [] h = elim h [ ]
trim_end-solid (c ∷ []) h = rw h refl
trim_end-solid (c ∷ d ∷ s) h = rw (trim_end-solid (d ∷ s) h) refl

-- A text with nothing white at its ends is left as it is.
pub trim-solid : (s : Text) → StartsSolid s → EndsSolid s → trim s ≡ s
unfolding trim trim_start
trim-solid [] h k = refl
trim-solid (c ∷ s) h k = rw h (trim_end-solid (c ∷ s) k)

pub trim-blank : (s : Text) → trim (b' ' ∷ s) ≡ trim s
unfolding trim trim_start is_whitespace
trim-blank s = refl
