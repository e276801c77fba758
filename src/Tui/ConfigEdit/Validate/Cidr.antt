-- ===== src/Tui/ConfigEdit/Validate/Cidr.antt =====
-- `is_valid_cidr` of ferro-wg-tui-core/src/config_edit.rs: an address with a prefix length.
use ferro_wg.Prelude.{
  ℕ, ◌≤◌, true, false, [], ◌∷◌, ◌++◌, ◌≡◌, ◌↔◌, refl, arith, Text, All, ◌==◌, nat_eq,
}
use ferro_wg.External.{External, IpLaws, IpAddr, v4, v6, is_ip_char}
use ferro_wg.Text.Split.{Lacks, split-append, split-lacking}
use ferro_wg.Text.Number.{show_nat, show_nat-IsDigit, IsDigit, parse_uint-show_nat, u8_max}
use ferro_wg.Tui.ConfigEdit.Validate.{is_valid_cidr, cidr_parts, prefix_fits}

-- The bits of an address.
abbrev pub width : IpAddr → ℕ
width (v4 _) = 32
width (v6 _) = 128

address-Lacks : (s : Text) → All (λ c. is_ip_char c ≡ true) s → Lacks b'/' s
address-Lacks [] h = tt
address-Lacks (c ∷ s) h = (no_slash c h.0, address-Lacks s h.1)
  where
    no_slash : (c : ℕ) → is_ip_char c ≡ true → (c == b'/') ≡ false
    no_slash c h = ground (arith, h)

digits-Lacks : (s : Text) → All IsDigit s → Lacks b'/' s
digits-Lacks [] h = tt
digits-Lacks (c ∷ s) h = (no_slash c h.0, digits-Lacks s h.1)
  where
    no_slash : (c : ℕ) → IsDigit c → (c == b'/') ≡ false
    no_slash c h = ground (arith, h)

prefix_fits_iff : (ip : IpAddr) (n : ℕ) → (prefix_fits ip n ≡ true) ↔ (n ≤ width ip)
unfolding prefix_fits
prefix_fits_iff (v4 a) n = ground arith
prefix_fits_iff (v6 a) n = ground arith

module _ (ext : External) (laws : IpLaws ext) (ip : IpAddr) (n : ℕ) (small : n ≤ u8_max) where
  is_valid_cidr-shown : is_valid_cidr ext (ext.show_ip ip ++ (b'/' ∷ show_nat n)) ≡ prefix_fits ip n
  unfolding is_valid_cidr cidr_parts
  is_valid_cidr-shown =
      rw
        (split-append b'/' (ext.show_ip ip) (show_nat n)
          (address-Lacks (ext.show_ip ip) (laws.alphabet ip)))
        (rw (split-lacking b'/' (show_nat n) (digits-Lacks (show_nat n) (show_nat-IsDigit n)))
          (rw (laws.parse_show ip, cidr_parts) (rw (parse_uint-show_nat u8_max n small) refl)))

  -- With addresses that are read back: an address, a slash and a number that fits a byte are accepted
  -- exactly when the number is at most the bits of the address.
  pub is_valid_cidr_iff :
      (is_valid_cidr ext (ext.show_ip ip ++ (b'/' ∷ show_nat n)) ≡ true) ↔ (n ≤ width ip)
  is_valid_cidr_iff = rw is_valid_cidr-shown (prefix_fits_iff ip n)
