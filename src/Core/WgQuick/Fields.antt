-- ===== src/Core/WgQuick/Fields.antt =====
-- The values that the writer of ferro-wg-core/src/config/wg_quick.rs writes, as lines.
use ferro_wg.Prelude.{
  ℕ, true, false, List, [], ◌∷◌, ◌≡◌, ◌≢◌, refl, arith, Text, All, ◌==◌, nat_eq, length, ok,
}
use ferro_wg.External.{External, Base64Laws, IpLaws, IpAddr, is_base64_char, is_ip_char}
use ferro_wg.Text.Trim.{
  trim, is_whitespace, NoWhite, NoWhite-StartsSolid, NoWhite-EndsSolid, trim-solid,
}
use ferro_wg.Text.Split.{Lacks}
use ferro_wg.Text.Number.{show_nat, show_nat-IsDigit, show_nat-ne_nil, IsDigit}
use ferro_wg.Core.Config.{is_name_char}
use ferro_wg.Core.Config.Valid.{IsName}
use ferro_wg.Core.Key.{IsKeyBytes, decode_key_bytes}
use ferro_wg.Core.WgQuick.Takes.{IsLine}

-- An element of a list that is written with commas.
pub record IsItem (v : Text) : Type 0 where
  pub line : IsLine v
  pub no_comma : Lacks b',' v

pub IsItem-trim : (v : Text) → IsLine v → trim v ≡ v
IsItem-trim v h = trim-solid v h.starts h.ends

-- What is asked of each character.
abbrev pub Inner : ℕ → Type 0
Inner c = (is_whitespace c ≡ false) × ((c == b'\n') ≡ false) × ((c == b',') ≡ false)

Inner-parts : (v : Text) → All Inner v → NoWhite v × Lacks b'\n' v × Lacks b',' v
Inner-parts [] h = (tt, tt, tt)
Inner-parts (c ∷ v) h =
    let rest = Inner-parts v h.1 in ((h.0.0, rest.0), (h.0.1, rest.1), (h.0.2, rest.2))

pub Inner-IsItem : (v : Text) → v ≢ [] → All Inner v → IsItem v
Inner-IsItem v ne h =
    let parts = Inner-parts v h in
    record {
      line = record {
        starts = NoWhite-StartsSolid v ne (parts.0);
        ends = NoWhite-EndsSolid v ne (parts.0);
        unbroken = parts.1;
      };
      no_comma = parts.2;
    }

All-weaken : (P Q : ℕ → Type 0) (v : Text) → ((c : ℕ) → P c → Q c) → All P v → All Q v
All-weaken P Q [] f h = tt
All-weaken P Q (c ∷ v) f h = (f c h.0, All-weaken P Q v f h.1)

digit-Inner : (c : ℕ) → IsDigit c → Inner c
unfolding is_whitespace
digit-Inner c h = (ground (arith, h), ground (arith, h), ground (arith, h))

base64-Inner : (c : ℕ) → is_base64_char c ≡ true → Inner c
unfolding is_whitespace
base64-Inner c h = (ground (arith, h), ground (arith, h), ground (arith, h))

ip-Inner : (c : ℕ) → is_ip_char c ≡ true → Inner c
unfolding is_whitespace
ip-Inner c h = (ground (arith, h), ground (arith, h), ground (arith, h))

name-Inner : (c : ℕ) → is_name_char c ≡ true → Inner c
unfolding is_whitespace is_name_char
name-Inner c h = (ground (arith, h), ground (arith, h), ground (arith, h))

pub show_nat-IsLine : (n : ℕ) → IsLine (show_nat n)
show_nat-IsLine n =
    (Inner-IsItem (show_nat n) (show_nat-ne_nil n)
      (All-weaken IsDigit Inner (show_nat n) digit-Inner (show_nat-IsDigit n))).line

pub name-IsLine : (v : Text) → IsName v → IsLine v
name-IsLine v h =
    (Inner-IsItem v h.ne_nil
      (All-weaken (λ c. is_name_char c ≡ true) Inner v name-Inner h.chars)).line

module _ (ext : External) where
  pub show_ip-IsItem : IpLaws ext → (ip : IpAddr) → IsItem (ext.show_ip ip)
  show_ip-IsItem laws ip =
      Inner-IsItem (ext.show_ip ip) (laws.show_ne_nil ip)
        (All-weaken (λ c. is_ip_char c ≡ true) Inner (ext.show_ip ip) ip-Inner (laws.alphabet ip))

  module _ (laws : Base64Laws ext) (bytes : List ℕ) (h : IsKeyBytes bytes) where
    pub encoded_key-IsLine : IsLine (ext.base64_encode bytes)
    encoded_key-IsLine =
        (Inner-IsItem (ext.base64_encode bytes)
          (laws.encode_ne_nil bytes (λ e. not_nil bytes h.count e))
          (All-weaken (λ c. is_base64_char c ≡ true) Inner (ext.base64_encode bytes) base64-Inner
            (laws.alphabet bytes))).line
      where
        not_nil : (bytes : List ℕ) → length bytes ≡ 32 → bytes ≢ []
        not_nil [] c e = cc c
        not_nil (b ∷ bytes) c e = cc e

    -- A key is read back from its text.
    pub decode-encoded_key : decode_key_bytes ext (ext.base64_encode bytes) ≡ ok bytes
    unfolding decode_key_bytes
    decode-encoded_key =
        let line = encoded_key-IsLine in
        rw (IsItem-trim (ext.base64_encode bytes) line)
          (rw (laws.decode_encode bytes h.byte) (rw (h.count) refl))
