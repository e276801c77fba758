-- ===== src/Core/WgQuick/Takes.antt =====
-- What the reader of ferro-wg-core/src/config/wg_quick.rs does with the texts that its writer makes: a
-- text takes the loop from a state to a state, whatever follows it.
use ferro_wg.Prelude.{
  ℕ, suc, false, List, [], ◌∷◌, ◌++◌, ◌≡◌, refl, sym, ◌∙◌, subst, String, Text, ok, codes,
  append_assoc, append-nil, All, ◌==◌, nat_eq, All-append,
}
use ferro_wg.External.{External}
use ferro_wg.Text.Trim.{trim, StartsSolid, EndsSolid, EndsSolid-append, trim-solid, trim-blank}
use ferro_wg.Text.Split.{lines, lines-line, Lacks}
use ferro_wg.Core.WgQuick.Builder.{split_kv}
use ferro_wg.Core.WgQuick.Parse.{ParseState, key_value, line_kind, entry, take_line, parse_lines}
use ferro_wg.Core.WgQuick.Export.{key_line, key_lines}

-- A text that a line can carry behind its key: nothing white at its ends, and no line break.
pub record IsLine (v : Text) : Type 0 where
  pub starts : StartsSolid v
  pub ends : EndsSolid v
  pub unbroken : Lacks b'\n' v

-- What there is to know of a key.
pub record IsKey (key : Text) : Type 0 where
  pub starts : (v : Text) → StartsSolid (key ++ codes " = " ++ v)
  pub unbroken : Lacks b'\n' (key ++ codes " = ")
  pub kind : (v : Text) → line_kind (key ++ codes " = " ++ v) ≡ key_value
  pub splits : (v : Text) (n : ℕ) → split_kv (key ++ codes " = " ++ v) n ≡ ok (key, trim (b' ' ∷ v))

-- The loop comes from `s` to `s'` over the text, and the rest of the input is still to be read.
pub record Takes (ext : External) (t : Text) (s s' : ParseState) : Type 0 where
  pub taken :
      (rest : Text) (n : ℕ)
      → (n' : ℕ) × (parse_lines ext n (lines (t ++ rest)) s ≡ parse_lines ext n' (lines rest) s')

pub Takes-append :
    {ext : External} {t u : Text} {s s' s'' : ParseState}
    → Takes ext t s s'
    → Takes ext u s' s''
    → Takes ext (t ++ u) s s''
Takes-append {ext} {t} {u} h k = record {
  taken = λ rest n.
      (let first = h.taken (u ++ rest) n in
        let second = k.taken rest (first.0) in
        (second.0, rw (append_assoc t u rest) (first.1 ∙ second.1)));
}

module _ (ext : External) where
  pub Takes-nil : (s : ParseState) → Takes ext [] s s
  Takes-nil s = record { taken = λ rest n. (n, refl) }

  -- A line with a key whose entry goes well.
  pub Takes-key_line :
      (key : String) (v : Text) (s s' : ParseState)
      → IsKey (codes key)
      → IsLine v
      → ((n : ℕ) → entry ext s.section (codes key) v n s ≡ ok s')
      → Takes ext (key_line key v) s s'
  unfolding key_line parse_lines take_line
  Takes-key_line key v s s' k h e =
      let line = codes key ++ codes " = " ++ v in
      let solid =
        trim-solid line (k.starts v) (EndsSolid-append (codes key ++ codes " = ") v h.ends) in
      let value = trim-blank v ∙ trim-solid v h.starts h.ends in
      record {
        taken = λ rest n. (
          suc n,
          rw (append_assoc line (codes "\n") rest) (
              rw
                (lines-line line rest
                  (All-append (λ x. (x == b'\n') ≡ false) (codes key ++ codes " = ") v k.unbroken
                    h.unbroken)
                  (EndsSolid-append (codes key ++ codes " = ") v h.ends))
                (rw solid (rw (k.kind v) (rw (k.splits v n) (rw value (rw (e n) refl)))))),
        );
      }

  -- Lines of one key, one for each of the values.
  pub Takes-key_lines :
      (key : String) (P : Text → Type 0) (vs done : List Text) (f : List Text → ParseState)
      → IsKey (codes key)
      → ((v : Text) → P v → IsLine v)
      → All P vs
      → ((done : List Text) (v : Text) (n : ℕ)
          → P v
          → entry ext (f done).section (codes key) v n (f done) ≡ ok (f (done ++ v ∷ [])))
      → Takes ext (key_lines key vs) (f done) (f (done ++ vs))
  Takes-key_lines key P [] done f k line h e =
      subst (λ l. Takes ext [] (f done) (f l)) (sym (append-nil done)) (Takes-nil (f done))
  Takes-key_lines key P (v ∷ vs) done f k line h e =
      Takes-append
        (Takes-key_line key v (f done) (f (done ++ v ∷ [])) k (line v h.0) (λ n. e done v n h.0))
        (subst (λ l. Takes ext (key_lines key vs) (f (done ++ v ∷ [])) (f l))
          (append_assoc done (v ∷ []) vs)
          (Takes-key_lines key P vs (done ++ v ∷ []) f k line h.1 e))
