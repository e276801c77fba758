-- ===== src/Tui/ConfigEdit.antt =====
-- ferro-wg-tui-core/src/config_edit.rs: the editable fields of a configuration, their validators,
-- reading and writing a field as text, and the diff of two configurations.
pub mod Validate
pub mod Diff
pub mod AllowedIps
pub mod Ranges
pub mod Elsewhere
use ferro_wg.Prelude.{
  ℕ, zero, suc, Bool, true, false, not, ◌&&◌, List, [], ◌∷◌, map, Text, Option, none, some, Result,
  ok, err, is_empty, get_elem?, modify, filter, filter_map, ◌==◌, nat_eq, if◌then◌else◌, codes,
}
use ferro_wg.External.{External, IpAddr}
use ferro_wg.Text.Trim.{trim}
use ferro_wg.Text.Split.{split, join}
use ferro_wg.Text.Number.{ParseIntError, parse_uint, show_nat, u16_max, u32_max}
use ferro_wg.Core.Key.{PublicKey, public_to_base64}
use ferro_wg.Core.Config.{WgConfig, InterfaceConfig, PeerConfig}

pub data ConfigSection : Type 0 where
  interface : ConfigSection
  peer : ℕ → ConfigSection

pub data EditableField : Type 0 where
  listen_port addresses dns dns_search mtu fwmark pre_up post_up pre_down post_down : EditableField
  peer_name peer_public_key peer_endpoint peer_allowed_ips peer_persistent_keepalive : EditableField

abbrev pub interface_fields : List EditableField
interface_fields =
    listen_port ∷ addresses ∷ dns ∷ dns_search ∷ mtu ∷ fwmark ∷ pre_up ∷ post_up ∷ pre_down
    ∷ post_down ∷ []

abbrev pub peer_fields_existing : List EditableField
peer_fields_existing = peer_name ∷ peer_endpoint ∷ peer_allowed_ips ∷ peer_persistent_keepalive ∷ []

abbrev pub peer_fields_new : List EditableField
peer_fields_new =
    peer_public_key ∷ peer_name ∷ peer_endpoint ∷ peer_allowed_ips ∷ peer_persistent_keepalive ∷ []

unfoldable pub fields_for_section : ConfigSection → Bool → List EditableField
fields_for_section interface is_new_peer = interface_fields
fields_for_section (peer i) is_new_peer =
    if is_new_peer then peer_fields_new else peer_fields_existing

-- `sep` of the joins below
abbrev pub comma_space : Text
comma_space = b',' ∷ b' ' ∷ []

abbrev show_nonzero : ℕ → Text
show_nonzero n = if n == 0 then [] else show_nat n

-- A field of the peer in focus; empty where there is no such peer.
of_peer : List PeerConfig → ConfigSection → (PeerConfig → Text) → Text
of_peer peers interface read = []
of_peer peers (peer i) read = elim (get_elem? peers i) [ none ↦ [] | some p ↦ read p ]

abbrev pub or_empty : Option Text → Text
or_empty none = []
or_empty (some s) = s

module _ (ext : External) where
  unfoldable pub field_current_value : EditableField → ConfigSection → WgConfig → Text
  unfolding of_peer
  field_current_value listen_port s c = show_nonzero c.interface.listen_port
  field_current_value addresses s c = join comma_space c.interface.addresses
  field_current_value dns s c = join comma_space (map ext.show_ip c.interface.dns)
  field_current_value dns_search s c = join comma_space c.interface.dns_search
  field_current_value mtu s c = show_nonzero c.interface.mtu
  field_current_value fwmark s c = show_nonzero c.interface.fwmark
  field_current_value pre_up s c = join comma_space c.interface.pre_up
  field_current_value post_up s c = join comma_space c.interface.post_up
  field_current_value pre_down s c = join comma_space c.interface.pre_down
  field_current_value post_down s c = join comma_space c.interface.post_down
  field_current_value peer_name s c = of_peer c.peers s (λ p. p.name)
  field_current_value peer_public_key s c =
      of_peer c.peers s (λ p. public_to_base64 ext p.public_key)
  field_current_value peer_endpoint s c = of_peer c.peers s (λ p. or_empty p.endpoint)
  field_current_value peer_allowed_ips s c = of_peer c.peers s (λ p. join comma_space p.allowed_ips)
  field_current_value peer_persistent_keepalive s c =
      of_peer c.peers s (λ p. show_nonzero p.persistent_keepalive)

-- `value.parse().unwrap_or(0)`
abbrev pub parse_or_zero : ℕ → Text → ℕ
parse_or_zero max value = elim (parse_uint max value) [ ok n ↦ n | err e ↦ 0 ]

unfoldable pub parse_comma_list : Text → List Text
parse_comma_list s = filter (λ t. not (is_empty t)) (map trim (split b',' s))

-- `if let Peer(idx) = section && let Some(peer) = draft.peers.get_mut(idx)`
at_peer : ConfigSection → (PeerConfig → PeerConfig) → WgConfig → WgConfig
at_peer interface f draft = draft
at_peer (peer i) f draft = record draft { peers = modify f i draft.peers }

at_interface : (InterfaceConfig → InterfaceConfig) → WgConfig → WgConfig
at_interface f draft = record draft { interface = f draft.interface }

module _ (ext : External) where
  unfoldable pub apply_field : EditableField → Text → WgConfig → ConfigSection → WgConfig
  unfolding at_peer at_interface
  apply_field listen_port v draft s =
      at_interface (λ c. record c { listen_port = parse_or_zero u16_max v }) draft
  apply_field addresses v draft s =
      at_interface (λ c. record c { addresses = parse_comma_list v }) draft
  apply_field dns v draft s =
      at_interface (λ c. record c { dns = filter_map ext.parse_ip (parse_comma_list v) }) draft
  apply_field dns_search v draft s =
      at_interface (λ c. record c { dns_search = parse_comma_list v }) draft
  apply_field mtu v draft s = at_interface (λ c. record c { mtu = parse_or_zero u16_max v }) draft
  apply_field fwmark v draft s =
      at_interface (λ c. record c { fwmark = parse_or_zero u32_max v }) draft
  apply_field pre_up v draft s = at_interface (λ c. record c { pre_up = parse_comma_list v }) draft
  apply_field post_up v draft s =
      at_interface (λ c. record c { post_up = parse_comma_list v }) draft
  apply_field pre_down v draft s =
      at_interface (λ c. record c { pre_down = parse_comma_list v }) draft
  apply_field post_down v draft s =
      at_interface (λ c. record c { post_down = parse_comma_list v }) draft
  apply_field peer_name v draft s = at_peer s (λ p. record p { name = v }) draft
  -- written by the caller
  apply_field peer_public_key v draft s = draft
  apply_field peer_endpoint v draft s =
      at_peer s (λ p. record p { endpoint = if is_empty v then none else some v }) draft
  apply_field peer_allowed_ips v draft s =
      at_peer s (λ p. record p { allowed_ips = parse_comma_list v }) draft
  apply_field peer_persistent_keepalive v draft s =
      at_peer s (λ p. record p { persistent_keepalive = parse_or_zero u16_max v }) draft
