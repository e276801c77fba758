-- ===== src/Tui/ConfigEdit/Ranges.antt =====
-- The numbers that an accepted edit writes: `validate_field` and `apply_field` of
-- ferro-wg-tui-core/src/config_edit.rs keep the ranges of the draft.
use ferro_wg.Prelude.{
  ℕ, ◌≤◌, List, [], ◌∷◌, ◌≡◌, ◌⊎◌, refl, arith, Text, ok, modify, All, Result-cases, inl, inr,
  leb→le, nat_beq_iff, nat_eq, zero, suc,
}
use ferro_wg.External.{External}
use ferro_wg.Text.Number.{parse_uint, u16_max, u32_max, parse_uint-le-max}
use ferro_wg.Core.Config.{WgConfig, PeerConfig, IsRanged}
use ferro_wg.Tui.ConfigEdit.{ConfigSection, peer, EditableField, parse_or_zero, apply_field}
use ferro_wg.Tui.ConfigEdit.Validate.{validate_mtu, validate_field}

parse_or_zero-le-max : (max : ℕ) (v : Text) → parse_or_zero max v ≤ max
parse_or_zero-le-max max v = elim (Result-cases (parse_uint max v)) [
  | inl (n, e) ↦ ground (arith, e, parse_uint-le-max max v n e)
  | inr (x, e) ↦ ground (arith, e)
]

All-modify :
    (f : PeerConfig → PeerConfig) (i : ℕ) (ps : List PeerConfig)
    → ((p : PeerConfig) → p.persistent_keepalive ≤ u16_max → (f p).persistent_keepalive ≤ u16_max)
    → All (λ p. p.persistent_keepalive ≤ u16_max) ps
    → All (λ p. p.persistent_keepalive ≤ u16_max) (modify f i ps)
All-modify f i [] step h = h
All-modify f zero (p ∷ ps) step h = (step p (h.0), h.1)
All-modify f (suc i) (p ∷ ps) step h = (h.0, All-modify f i ps step (h.1))

-- The automatic MTU, or one that the editor offers.
abbrev pub IsMtu : ℕ → Type 0
IsMtu n = (n ≡ 0) ⊎ ((576 ≤ n) × (n ≤ 9000))

-- Every number fits the width of its field, and the MTU is one of those.
pub record IsSound (c : WgConfig) : Type 0 where
  pub ranged : IsRanged c
  pub mtu : IsMtu c.interface.mtu

validate_mtu-IsMtu : (v : Text) → validate_mtu v ≡ ok tt → IsMtu (parse_or_zero u16_max v)
unfolding validate_mtu parse_uint
validate_mtu-IsMtu [] h = inl refl
validate_mtu-IsMtu (c ∷ v) h = elim (Result-cases (parse_uint u16_max (c ∷ v))) [
  | inl (n, e) ↦ ground (arith, e, leb→le 576 n, leb→le n 9000, nat_beq_iff n 0)
  | inr (x, e) ↦ ground (arith, e)
]

pub modify-IsRanged :
    (f : PeerConfig → PeerConfig) (i : ℕ) (c : WgConfig)
    → ((p : PeerConfig) → p.persistent_keepalive ≤ u16_max → (f p).persistent_keepalive ≤ u16_max)
    → IsRanged c
    → IsRanged (record c { peers = modify f i c.peers })
modify-IsRanged f i c step h = record {
  listen_port = h.listen_port;
  mtu = h.mtu;
  fwmark = h.fwmark;
  keepalive = All-modify f i c.peers step h.keepalive;
}

module _ (ext : External) where
  apply_field-IsRanged :
      (f : EditableField) (v : Text) (c : WgConfig) (s : ConfigSection)
      → IsRanged c
      → IsRanged (apply_field ext f v c s)
  unfolding apply_field
  apply_field-IsRanged EditableField.peer_name v c (peer i) h = modify-IsRanged _ i c (λ p b. b) h
  apply_field-IsRanged EditableField.peer_endpoint v c (peer i) h =
      modify-IsRanged _ i c (λ p b. b) h
  apply_field-IsRanged EditableField.peer_allowed_ips v c (peer i) h =
      modify-IsRanged _ i c (λ p b. b) h
  apply_field-IsRanged EditableField.peer_persistent_keepalive v c (peer i) h =
      modify-IsRanged _ i c (λ p b. parse_or_zero-le-max u16_max v) h
  apply_field-IsRanged _ v c s h =
      ground (arith, parse_or_zero-le-max u16_max v, parse_or_zero-le-max u32_max v)

  apply_field-IsMtu :
      (f : EditableField) (v : Text) (c : WgConfig) (s : ConfigSection)
      → validate_field ext f v c s ≡ ok tt
      → IsMtu c.interface.mtu
      → IsMtu (apply_field ext f v c s).interface.mtu
  unfolding apply_field validate_field
  apply_field-IsMtu EditableField.mtu v c s valid h = validate_mtu-IsMtu v valid
  apply_field-IsMtu EditableField.peer_name v c (peer i) valid h = h
  apply_field-IsMtu EditableField.peer_endpoint v c (peer i) valid h = h
  apply_field-IsMtu EditableField.peer_allowed_ips v c (peer i) valid h = h
  apply_field-IsMtu EditableField.peer_persistent_keepalive v c (peer i) valid h = h
  apply_field-IsMtu _ v c s valid h = h

  -- A value that its field's validator accepts keeps every number of the draft in its width, and the
  -- MTU at 0 or from 576 to 9000.
  pub apply_field-IsSound :
      (f : EditableField) (v : Text) (c : WgConfig) (s : ConfigSection)
      → validate_field ext f v c s ≡ ok tt
      → IsSound c
      → IsSound (apply_field ext f v c s)
  apply_field-IsSound f v c s valid h = record {
    ranged = apply_field-IsRanged f v c s h.ranged;
    mtu = apply_field-IsMtu f v c s valid h.mtu;
  }
