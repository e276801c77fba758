-- ===== src/Tui/ConfigEdit/AllowedIps.antt =====
-- `validate_allowed_ips` of ferro-wg-tui-core/src/config_edit.rs, against what a list of allowed
-- addresses may hold.
use ferro_wg.Prelude.{
  true, false, not, List, [], ◌∷◌, map, ◌≡◌, ◌↔◌, refl, arith, Text, ok, is_empty, filter, contains,
  set_insert, contains-insert, text_eq, text_beq_iff, IsDistinct, All,
}
use ferro_wg.External.{External}
use ferro_wg.Text.Trim.{trim}
use ferro_wg.Text.Split.{split}
use ferro_wg.Tui.ConfigEdit.{parse_comma_list}
use ferro_wg.Tui.ConfigEdit.Validate.{is_valid_cidr, check_allowed, validate_allowed_ips}

-- None of the texts is in the list.
abbrev Apart : List Text → List Text → Type 0
Apart others ips = All (λ t. contains others t ≡ false) ips

Apart-insert :
    (a : Text) (seen ips : List Text)
    → Apart (set_insert a seen) ips ↔ (Apart seen ips × (contains ips a ≡ false))
unfolding contains
Apart-insert a seen [] = ground arith
Apart-insert a seen (t ∷ ips) =
    ground
      (arith, Apart-insert a seen ips, contains-insert a t seen, text_beq_iff a t, text_beq_iff t a)

kept : List Text → List Text
kept ts = filter (λ t. not (is_empty t)) (map trim ts)

-- Addresses with a prefix length, no two alike, and none that another peer has.
pub record IsAllowed (ext : External) (others ips : List Text) : Type 0 where
  pub cidr : All (λ t. is_valid_cidr ext t ≡ true) ips
  pub apart : All (λ t. contains others t ≡ false) ips
  pub distinct : IsDistinct ips

module _ (ext : External) (others : List Text) where
  check_allowed_iff :
      (seen ts : List Text)
      → (check_allowed ext others seen ts ≡ ok tt)
        ↔ (IsAllowed ext others (kept ts) × Apart seen (kept ts))
  unfolding check_allowed kept
  check_allowed_iff seen [] = ground arith
  check_allowed_iff seen (t ∷ ts) = ground (
    arith,
    check_allowed_iff seen ts,
    check_allowed_iff (set_insert (trim t) seen) ts,
    Apart-insert (trim t) seen (kept ts),
  )

module _ (ext : External) where
  Apart-nil : (ips : List Text) → Apart [] ips
  unfolding contains
  Apart-nil [] = tt
  Apart-nil (t ∷ ips) = (refl, Apart-nil ips)

  -- The editor accepts a text for a peer's allowed addresses exactly when the list it stands for has
  -- only addresses with a prefix length, none that another peer has, and none twice.
  pub validate_allowed_ips_iff :
      (v : Text) (others : List Text)
      → (validate_allowed_ips ext v others ≡ ok tt) ↔ IsAllowed ext others (parse_comma_list v)
  unfolding validate_allowed_ips parse_comma_list kept split trim
  validate_allowed_ips_iff [] others =
      (λ e. record { cidr = tt; apart = tt; distinct = tt }, λ h. refl)
  validate_allowed_ips_iff (c ∷ v) others =
      let tokens = split b',' (c ∷ v) in
      ground (arith, check_allowed_iff ext others [] tokens, Apart-nil (kept tokens))
