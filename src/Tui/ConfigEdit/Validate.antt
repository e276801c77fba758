-- ===== src/Tui/ConfigEdit/Validate.antt =====
-- The validators of ferro-wg-tui-core/src/config_edit.rs.
pub mod Cidr
use ferro_wg.Prelude.{
  ℕ, suc, Bool, true, false, not, ◌&&◌, ◌||◌, List, [], ◌∷◌, ◌++◌, Text, Option, none, some, Result,
  ok, err, ◌>>=◌, map_err, is_empty, all, last?, length, contains, set_insert, ltb, leb, ◌==◌,
  nat_eq, text_eq, if◌then◌else◌,
}
use ferro_wg.External.{External, IpAddr, v4, v6}
use ferro_wg.Text.Trim.{trim}
use ferro_wg.Text.Split.{split}
use ferro_wg.Text.Number.{parse_uint, u8_max, u16_max, u32_max}
use ferro_wg.Text.Order.{byte_len}
use ferro_wg.Core.Config.{WgConfig, PeerConfig}
use ferro_wg.Tui.ConfigEdit.{
  ConfigSection, interface, peer, EditableField, listen_port, addresses, dns, dns_search, mtu,
  fwmark, pre_up, post_up, pre_down, post_down, peer_name, peer_public_key, peer_endpoint,
  peer_allowed_ips, peer_persistent_keepalive,
}

pub data ConfigEditError : Type 0 where
  port_too_high port_not_numeric : ConfigEditError
  invalid_cidr : Text → ConfigEditError
  invalid_ip : Text → ConfigEditError
  invalid_domain : Text → ConfigEditError
  mtu_out_of_range mtu_not_numeric fwmark_not_numeric : ConfigEditError
  public_key_length public_key_invalid_base64 : ConfigEditError
  endpoint_format endpoint_host_empty endpoint_port_not_numeric : ConfigEditError
  duplicate_allowed_ip : Text → ConfigEditError
  duplicate_cidr_in_input keepalive_too_high keepalive_not_numeric : ConfigEditError

abbrev pub Checked : Type 0
Checked = Result (Unit {0}) ConfigEditError

-- A number that fits `u32`, and then the limit.
unfoldable pub validate_port : Text → Checked
validate_port s = if is_empty s then ok tt else do
  n ← map_err (λ _. port_not_numeric) (parse_uint u32_max s)
  if ltb 65535 n then err port_too_high else ok tt

unfoldable pub validate_mtu : Text → Checked
validate_mtu s = if is_empty s then ok tt else do
  n ← map_err (λ _. mtu_not_numeric) (parse_uint u16_max s)
  if n == 0 || leb 576 n && leb n 9000 then ok tt else err mtu_out_of_range

unfoldable pub validate_fwmark : Text → Checked
validate_fwmark s =
    if is_empty s
    then ok tt
    else do n ← map_err (λ _. fwmark_not_numeric) (parse_uint u32_max s); ok tt

unfoldable pub validate_persistent_keepalive : Text → Checked
validate_persistent_keepalive s = if is_empty s then ok tt else do
  n ← map_err (λ _. keepalive_not_numeric) (parse_uint u32_max s)
  if ltb 65535 n then err keepalive_too_high else ok tt

-- The loops over `s.split(',')`: blank tokens are skipped, the first bad one is reported.
check_tokens : (Text → Bool) → (Text → ConfigEditError) → List Text → Checked
check_tokens valid e [] = ok tt
check_tokens valid e (t ∷ ts) =
    let rest = check_tokens valid e ts in
    if is_empty (trim t) then rest else if valid (trim t) then rest else err (e (trim t))

prefix_fits : IpAddr → ℕ → Bool
prefix_fits (v4 a) p = leb p 32
prefix_fits (v6 a) p = leb p 128

-- the two sides of the slash
endpoint_parts : List Text → Checked
endpoint_parts (host ∷ port ∷ []) =
    if is_empty host
    then err endpoint_host_empty
    else do n ← map_err (λ _. endpoint_port_not_numeric) (parse_uint u16_max port); ok tt
endpoint_parts _ = err endpoint_format

unfoldable pub validate_endpoint : Text → Checked
unfolding endpoint_parts
validate_endpoint s = if is_empty s then ok tt else endpoint_parts (split b':' s)

-- The allowed addresses of all peers but one.
unfoldable pub other_ips : Option ℕ → ℕ → List PeerConfig → List Text
other_ips current i [] = []
other_ips none i (p ∷ ps) = p.allowed_ips ++ other_ips none (suc i) ps
other_ips (some c) i (p ∷ ps) =
    let rest = other_ips (some c) (suc i) ps in if i == c then rest else p.allowed_ips ++ rest

abbrev pub current_peer : ConfigSection → Option ℕ
current_peer interface = none
current_peer (peer i) = some i

module _ (ext : External) where
  cidr_parts : List Text → Bool
  unfolding prefix_fits
  cidr_parts (ip ∷ prefix ∷ []) = elim (ext.parse_ip ip) [
    | none ↦ false
    | some a ↦ elim (parse_uint u8_max prefix) [ ok p ↦ prefix_fits a p | err e ↦ false ]
  ]
  cidr_parts _ = false

  unfoldable pub is_valid_cidr : Text → Bool
  unfolding cidr_parts
  is_valid_cidr cidr = cidr_parts (split b'/' cidr)

  first_is_alphanumeric : Text → Bool
  first_is_alphanumeric [] = false
  first_is_alphanumeric (c ∷ cs) = ext.is_alphanumeric c

  last_is_alphanumeric : Option ℕ → Bool
  last_is_alphanumeric none = false
  last_is_alphanumeric (some c) = ext.is_alphanumeric c

  unfoldable pub is_valid_domain : Text → Bool
  unfolding first_is_alphanumeric last_is_alphanumeric
  is_valid_domain domain =
      not (is_empty domain)
      && all (λ c. ext.is_alphanumeric c || c == b'.' || c == b'-') domain
      && first_is_alphanumeric domain
      && last_is_alphanumeric (last? domain)

  is_ip : Text → Bool
  is_ip s = elim (ext.parse_ip s) [ none ↦ false | some a ↦ true ]

  unfoldable pub validate_addresses : Text → Checked
  unfolding check_tokens
  validate_addresses s =
      if is_empty s then ok tt else check_tokens is_valid_cidr invalid_cidr (split b',' s)

  unfoldable pub validate_dns_ips : Text → Checked
  unfolding check_tokens is_ip
  validate_dns_ips s = if is_empty s then ok tt else check_tokens is_ip invalid_ip (split b',' s)

  unfoldable pub validate_dns_search : Text → Checked
  unfolding check_tokens
  validate_dns_search s =
      if is_empty s then ok tt else check_tokens is_valid_domain invalid_domain (split b',' s)

  unfoldable pub validate_public_key : Text → Checked
  validate_public_key s = if not (byte_len s == 44) then err public_key_length else do
    decoded ← map_err (λ _. public_key_invalid_base64) (ext.base64_decode s)
    if not (length decoded == 32) then err public_key_invalid_base64 else ok tt

  -- The loop of `validate_allowed_ips`; `seen` holds the tokens read before.
  unfoldable pub check_allowed : List Text → List Text → List Text → Checked
  check_allowed others seen [] = ok tt
  check_allowed others seen (t ∷ ts) =
      let skip = check_allowed others seen ts in
      let next = check_allowed others (set_insert (trim t) seen) ts in
      if is_empty (trim t)
      then skip
      else if not (is_valid_cidr (trim t))
      then err (invalid_cidr (trim t))
      else if contains others (trim t)
      then err (duplicate_allowed_ip (trim t))
      else if contains seen (trim t)
      then err duplicate_cidr_in_input
      else next

  unfoldable pub validate_allowed_ips : Text → List Text → Checked
  unfolding check_allowed
  validate_allowed_ips s others =
      if is_empty s then ok tt else check_allowed others [] (split b',' s)

  unfoldable pub validate_field : EditableField → Text → WgConfig → ConfigSection → Checked
  validate_field listen_port v draft s = validate_port v
  validate_field addresses v draft s = validate_addresses v
  validate_field dns v draft s = validate_dns_ips v
  validate_field dns_search v draft s = validate_dns_search v
  validate_field mtu v draft s = validate_mtu v
  validate_field fwmark v draft s = validate_fwmark v
  validate_field pre_up v draft s = ok tt
  validate_field post_up v draft s = ok tt
  validate_field pre_down v draft s = ok tt
  validate_field post_down v draft s = ok tt
  validate_field peer_name v draft s = ok tt
  validate_field peer_public_key v draft s = validate_public_key v
  validate_field peer_endpoint v draft s = validate_endpoint v
  validate_field peer_allowed_ips v draft s =
      validate_allowed_ips v (other_ips (current_peer s) 0 draft.peers)
  validate_field peer_persistent_keepalive v draft s = validate_persistent_keepalive v
