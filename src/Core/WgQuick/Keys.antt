-- ===== src/Core/WgQuick/Keys.antt =====
-- A line of a key that is made of letters, as the reader of ferro-wg-core/src/config/wg_quick.rs takes
-- it apart.
use ferro_wg.Prelude.{
  ℕ, Bool, true, false, ◌&&◌, ◌||◌, [], ◌∷◌, ◌++◌, ◌≡◌, refl, arith, Text, some, codes, leb, All,
  All-append, all, ◌==◌, nat_eq, text_eq, text_beq, append_assoc, Bool-cases, inl, inr,
}
use ferro_wg.Text.Trim.{
  is_whitespace, NoWhite, NoWhite-EndsSolid, trim-solid, trim-append_white, to_lower_byte,
}
use ferro_wg.Text.Split.{Lacks, split_once}
use ferro_wg.Core.WgQuick.Builder.{split_kv}
use ferro_wg.Core.WgQuick.Parse.{key_value, line_kind}
use ferro_wg.Core.WgQuick.Takes.{IsKey}

abbrev pub is_letter : ℕ → Bool
is_letter c = leb b'A' c && leb c b'Z' || leb b'a' c && leb c b'z'

-- What the reader asks of a line's first character, and of those of the key.
record IsPlain (c : ℕ) : Type 0 where
  black : is_whitespace c ≡ false
  unbroken : (c == b'\n') ≡ false
  no_equals : (c == b'=') ≡ false
  no_hash : (c == b'#') ≡ false
  no_semicolon : (c == b';') ≡ false
  no_bracket : (to_lower_byte c == b'[') ≡ false

letter-IsPlain : (c : ℕ) → is_letter c ≡ true → IsPlain c
unfolding is_whitespace
letter-IsPlain c h = record {
  black = ground (arith, h);
  unbroken = ground (arith, h);
  no_equals = ground (arith, h);
  no_hash = ground (arith, h);
  no_semicolon = ground (arith, h);
  no_bracket = ground (arith, h);
}

IsPlain-letters : (key : Text) → all is_letter key ≡ true → All IsPlain key
IsPlain-letters [] h = tt
IsPlain-letters (c ∷ key) h = elim (Bool-cases (is_letter c)) [
  | inl e ↦ (letter-IsPlain c e, IsPlain-letters key (rw e at h))
  | inr e ↦ cc (rw e at h)
]

plain-NoWhite : (key : Text) → All IsPlain key → NoWhite key × Lacks b'\n' key
plain-NoWhite [] h = (tt, tt)
plain-NoWhite (c ∷ key) h =
    let rest = plain-NoWhite key h.1 in ((h.0.black, rest.0), (h.0.unbroken, rest.1))

plain-key_value : (c : ℕ) (rest : Text) → IsPlain c → line_kind (c ∷ rest) ≡ key_value
unfolding line_kind text_beq
plain-key_value c rest h = rw (h.no_hash, h.no_semicolon, h.no_bracket) refl

split_once-plain :
    (key rest : Text)
    → All IsPlain key
    → split_once b'=' (key ++ (b' ' ∷ b'=' ∷ rest)) ≡ some (key ++ b' ' ∷ [], rest)
unfolding split_once
split_once-plain [] rest h = refl
split_once-plain (c ∷ key) rest h = rw (h.0.no_equals) (rw (split_once-plain key rest h.1) refl)

blank-white : is_whitespace b' ' ≡ true
unfolding is_whitespace
blank-white = refl

-- A key of letters is a key.
pub letters-IsKey : (c : ℕ) (key : Text) → all is_letter (c ∷ key) ≡ true → IsKey (c ∷ key)
unfolding split_kv
letters-IsKey c key h =
    let plain = IsPlain-letters (c ∷ key) h in
    let solid = plain-NoWhite (c ∷ key) plain in
    record {
      starts = λ v. plain.0.black;
      unbroken =
          All-append (λ x. (x == b'\n') ≡ false) (c ∷ key) (codes " = ") solid.1
            (refl, (refl, (refl, tt)));
      kind = λ v. plain-key_value c (key ++ codes " = " ++ v) plain.0;
      splits = λ v n. rw (append_assoc (c ∷ key) (codes " = ") v) (
          rw (split_once-plain (c ∷ key) (b' ' ∷ v) plain) (
            rw (trim-append_white (c ∷ key) b' ' blank-white) (
              rw
                (trim-solid (c ∷ key) plain.0.black
                  (NoWhite-EndsSolid (c ∷ key) (λ e. cc e) solid.0))
                refl)));
    }
