-- ===== src/Tui/ConnectionBar/Widths.antt =====
-- The widths that ferro-wg-tui-components/src/connection_bar.rs computes, and the texts it draws.
use ferro_wg.Prelude.{
  ℕ, zero, suc, ◌+◌, ◌/◌, ◌%◌, length-append, ◌≤◌, Bool, true, false, [], ◌∷◌, Text, length, ◌≡◌,
  ◌≢◌, refl, arith, Bool-cases, inl, inr, ltb, ◌==◌, nat_eq,
}
use ferro_wg.Text.Number.{show_nat, show_digits}
use ferro_wg.Tui.ConnectionBar.{digits_left, digit_count, entry_width, entry_text}

digits_left-zero : (fuel : ℕ) → digits_left fuel 0 ≡ 0
unfolding digits_left
digits_left-zero zero = refl
digits_left-zero (suc fuel) = refl

digits_left-show_digits :
    (fuel n : ℕ) → n ≤ fuel → n ≢ 0 → digits_left fuel n ≡ length (show_digits (suc fuel) n)
unfolding digits_left show_digits
digits_left-show_digits zero n enough more = ground (arith, more)
digits_left-show_digits (suc fuel) n enough more = elim (Bool-cases (ltb n 10)) [
  | inl small ↦
      let none_left : n / 10 ≡ 0 = ground (arith, small) in
      ground (arith, small, none_left, digits_left-zero fuel)
  | inr large ↦ ground (
    arith,
    large,
    digits_left-show_digits fuel (n / 10) (ground (arith, large)) (ground (arith, large)),
    length-append (show_digits (suc fuel) (n / 10)) ((b'0' + n % 10) ∷ []),
  )
]

-- `digit_count` is the length of the number's text.
pub digit_count-show_nat : (n : ℕ) → digit_count n ≡ length (show_nat n)
unfolding digit_count show_nat show_digits
digit_count-show_nat n = elim (Bool-cases (n == 0)) [
  | inl nothing ↦ rw nothing (ground (arith, nothing))
  | inr more ↦ rw more (digits_left-show_digits n n (omega arith) (ground (arith, more)))
]

-- The width that is computed for an entry is the number of characters that are drawn for it.
pub entry_width-entry_text :
    (index : ℕ) (name : Text) (indicator : ℕ) (selected : Bool)
    → entry_width index name selected ≡ length (entry_text index name indicator selected)
unfolding entry_width entry_text
entry_width-entry_text index name indicator true =
    grind (arith, digit_count-show_nat (index + 1), length-append)
entry_width-entry_text index name indicator false =
    grind (arith, digit_count-show_nat (index + 1), length-append)
