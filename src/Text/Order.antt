-- ===== src/Text/Order.antt =====
-- The order of Rust's `str`: by code points, which is the order of the UTF-8 bytes.
use ferro_wg.Prelude.{
  ℕ, ◌+◌, Bool, true, false, ◌&&◌, ◌||◌, List, [], ◌∷◌, ltb, ◌==◌, nat_eq, text_eq, Text,
  if◌then◌else◌, Option, none, some,
}

unfoldable pub text_ltb : Text → Text → Bool
text_ltb [] [] = false
text_ltb [] (y ∷ ys) = true
text_ltb (x ∷ xs) [] = false
text_ltb (x ∷ xs) (y ∷ ys) = ltb x y || x == y && text_ltb xs ys

-- The bytes that a character takes in UTF-8.
abbrev utf8_len : ℕ → ℕ
utf8_len c = if ltb c 0x80 then 1 else if ltb c 0x800 then 2 else if ltb c 0x10000 then 3 else 4

-- `s.len()`, which counts bytes.
unfoldable pub byte_len : Text → ℕ
byte_len [] = 0
byte_len (c ∷ cs) = utf8_len c + byte_len cs

-- `iter().min()` over texts.
unfoldable pub min_text? : List Text → Option Text
min_text? [] = none
min_text? (x ∷ xs) = elim (min_text? xs) [
  | none ↦ some x
  | some m ↦ some (if text_ltb m x then m else x)
]
