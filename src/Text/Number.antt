-- ===== src/Text/Number.antt =====
-- Unsigned integers as decimal text: `parse::<uN>()` and `to_string`.
use mathlib.Core.List.{concat-ne-nil}
use ferro_wg.Prelude.{
  ℕ, zero, suc, ◌+◌, ◌-◌, ◌*◌, ◌/◌, ◌%◌, ◌^◌, ◌≤◌, ◌<◌, Bool, ◌&&◌, [], ◌∷◌, ◌++◌, ◌≡◌, ◌≢◌, refl,
  ap, ◌∙◌, arith, ltb, leb, ◌==◌, nat_eq, if◌then◌else◌, Text, Result, ok, err, ◌>>=◌, All,
  All-append, Bool-cases, inl, inr,
}

-- `std::num::IntErrorKind`, as far as an unsigned type can raise it.
pub data ParseIntError : Type 0 where
  empty invalid_digit pos_overflow : ParseIntError

abbrev is_digit : ℕ → Bool
is_digit c = leb b'0' c && leb c b'9'

abbrev pub IsDigit : ℕ → Type 0
IsDigit c = (b'0' ≤ c) × (c ≤ b'9')

-- The digits behind `acc`; the first byte that is no digit or passes `max` decides the error.
digits_from : ℕ → ℕ → Text → Result ℕ ParseIntError
digits_from max acc [] = ok acc
digits_from max acc (c ∷ cs) =
    if is_digit c
    then (if leb (acc * 10 + (c - b'0')) max
        then digits_from max (acc * 10 + (c - b'0')) cs
        else err pos_overflow)
    else err invalid_digit

-- A lone sign is no number; a `+` in front of digits is dropped.
signed_digits : ℕ → Text → Result ℕ ParseIntError
signed_digits max [] = err invalid_digit
signed_digits max (c ∷ cs) = digits_from max 0 (c ∷ cs)

-- `s.parse::<uN>()`, with `max` the type's greatest value.
unfoldable pub parse_uint : ℕ → Text → Result ℕ ParseIntError
unfolding digits_from signed_digits
parse_uint max [] = err empty
parse_uint max (c ∷ cs) = if c == b'+' then signed_digits max cs else digits_from max 0 (c ∷ cs)

abbrev pub u8_max : ℕ
u8_max = 2 ^ 8 - 1

abbrev pub u16_max : ℕ
u16_max = 2 ^ 16 - 1

abbrev pub u32_max : ℕ
u32_max = 2 ^ 32 - 1

unfoldable pub show_digits : ℕ → ℕ → Text
show_digits zero n = []
show_digits (suc fuel) n =
    let front = show_digits fuel (n / 10) in
    if ltb n 10 then (b'0' + n) ∷ [] else front ++ (b'0' + n % 10) ∷ []

-- `n.to_string()`; a number has fewer than `n + 1` digits to divide away.
unfoldable pub show_nat : ℕ → Text
unfolding show_digits
show_nat n = show_digits (suc n) n

-- A parsed number fits its type.
digits_from-le-max :
    (max acc : ℕ) (s : Text) (n : ℕ) → acc ≤ max → digits_from max acc s ≡ ok n → n ≤ max
unfolding digits_from
digits_from-le-max max acc [] n h e = ground arith
digits_from-le-max max acc (c ∷ cs) n h e =
    ground (arith, digits_from-le-max max (acc * 10 + (c - b'0')) cs n)

pub parse_uint-le-max : (max : ℕ) (s : Text) (n : ℕ) → parse_uint max s ≡ ok n → n ≤ max
unfolding parse_uint
parse_uint-le-max max [] n e = cc
parse_uint-le-max max (c ∷ []) n e = ground (arith, digits_from-le-max max 0 (c ∷ []) n)
parse_uint-le-max max (c ∷ d ∷ cs) n e =
    ground (arith, digits_from-le-max max 0 (c ∷ d ∷ cs) n, digits_from-le-max max 0 (d ∷ cs) n)

digits_from-append :
    (max acc : ℕ) (s t : Text)
    → digits_from max acc (s ++ t) ≡ (digits_from max acc s >>= λ a. digits_from max a t)
unfolding digits_from
digits_from-append max acc [] t = refl
digits_from-append max acc (c ∷ cs) t =
    ground (arith, digits_from-append max (acc * 10 + (c - b'0')) cs t)

one_digit :
    (max a d : ℕ)
    → d < 10
    → a * 10 + d ≤ max
    → digits_from max a ((b'0' + d) ∷ []) ≡ ok (a * 10 + d)
unfolding digits_from
one_digit max a d small le = ground arith

digits_from-show_digits :
    (fuel max n : ℕ) → n < fuel → n ≤ max → digits_from max 0 (show_digits fuel n) ≡ ok n
unfolding show_digits digits_from
digits_from-show_digits zero max n h le = elim h [ ]
digits_from-show_digits (suc fuel) max n h le = elim (Bool-cases (ltb n 10)) [
  | inl small ↦ rw small (ground arith)
  | inr large ↦ rw large (
      rw digits_from-append (
        rw (digits_from-show_digits fuel max (n / 10) (ground arith) (omega arith))
          (one_digit max (n / 10) (n % 10) (omega arith) (omega arith) ∙ ap ok (omega arith))))
]

-- No digit is a sign, so the whole text is read.
parse_uint-digits :
    (max : ℕ) (s : Text) (n : ℕ)
    → All IsDigit s
    → s ≢ []
    → digits_from max 0 s ≡ ok n
    → parse_uint max s ≡ ok n
unfolding parse_uint
parse_uint-digits max [] n ds ne e = absurd (ne refl)
parse_uint-digits max (d ∷ s) n ds ne e = ground arith

-- Every character that `show_nat` writes is a digit.
show_digits-IsDigit : (fuel n : ℕ) → n < fuel → All IsDigit (show_digits fuel n)
unfolding show_digits
show_digits-IsDigit zero n h = elim h [ ]
show_digits-IsDigit (suc fuel) n h = elim (Bool-cases (ltb n 10)) [
  | inl small ↦ rw small ((omega arith, ground arith), tt)
  | inr large ↦ rw large (
      All-append _ (show_digits fuel (n / 10)) _ (show_digits-IsDigit fuel (n / 10) (ground arith))
        ((omega arith, omega arith), tt))
]

show_digits-ne-nil : (fuel n : ℕ) → show_digits (suc fuel) n ≢ []
unfolding show_digits
show_digits-ne-nil fuel n = elim (Bool-cases (ltb n 10)) [
  | inl small ↦ rw small (λ e. cc e)
  | inr large ↦ rw large (concat-ne-nil _ (show_digits fuel (n / 10)))
]

pub show_nat-IsDigit : (n : ℕ) → All IsDigit (show_nat n)
unfolding show_nat
show_nat-IsDigit n = show_digits-IsDigit (suc n) n (omega arith)

pub show_nat-ne_nil : (n : ℕ) → show_nat n ≢ []
unfolding show_nat
show_nat-ne_nil n = show_digits-ne-nil n n

-- `parse` reads back what `to_string` writes, for every value of the type.
pub parse_uint-show_nat : (max n : ℕ) → n ≤ max → parse_uint max (show_nat n) ≡ ok n
unfolding show_nat
parse_uint-show_nat max n h =
    parse_uint-digits max (show_digits (suc n) n) n (show_digits-IsDigit (suc n) n (omega arith))
      (show_digits-ne-nil n n) (digits_from-show_digits (suc n) max n (omega arith) h)
