-- ===== src/Tui/Keys/Fields.antt =====
-- `get_field_display` of ferro-wg-tui-components/src/config.rs: what the configuration tab shows of a
-- field.
use ferro_wg.Prelude.{
  Bool, true, false, [], map, Text, Option, none, some, get_elem?, codes, if◌then◌else◌, ◌==◌,
  nat_eq,
}
use ferro_wg.External.{External}
use ferro_wg.Text.Split.{join}
use ferro_wg.Text.Number.{show_nat}
use ferro_wg.Core.Key.{public_to_base64}
use ferro_wg.Core.Config.{WgConfig, PeerConfig}
use ferro_wg.Tui.ConfigEdit.{
  ConfigSection, interface, peer, EditableField, listen_port, addresses, dns, dns_search, mtu,
  fwmark, pre_up, post_up, pre_down, post_down, peer_name, peer_public_key, peer_endpoint,
  peer_allowed_ips, peer_persistent_keepalive, or_empty, comma_space,
}

unfoldable pub field_label : EditableField → Text
field_label listen_port = codes "Listen Port"
field_label addresses = codes "Addresses"
field_label dns = codes "DNS"
field_label dns_search = codes "DNS Search"
field_label mtu = codes "MTU"
field_label fwmark = codes "Fwmark"
field_label pre_up = codes "PreUp"
field_label post_up = codes "PostUp"
field_label pre_down = codes "PreDown"
field_label post_down = codes "PostDown"
field_label peer_name = codes "Name"
field_label peer_public_key = codes "Public Key"
field_label peer_endpoint = codes "Endpoint"
field_label peer_allowed_ips = codes "Allowed IPs"
field_label peer_persistent_keepalive = codes "Persistent Keepalive"

-- The peer of the section, when it is there.
unfoldable pub section_peer : ConfigSection → WgConfig → Option PeerConfig
section_peer interface c = none
section_peer (peer i) c = get_elem? c.peers i

unfoldable pub shown_or_empty : (PeerConfig → Text) → Option PeerConfig → Text
shown_or_empty f none = []
shown_or_empty f (some p) = f p

-- A public key that is there is read-only.
unfoldable pub is_read_only : EditableField → Option PeerConfig → Bool
is_read_only peer_public_key (some p) = true
is_read_only _ _ = false

module _ (ext : External) where
  unfoldable pub field_shown : EditableField → WgConfig → Option PeerConfig → Text
  field_shown listen_port c o = show_nat c.interface.listen_port
  field_shown addresses c o = join comma_space c.interface.addresses
  field_shown dns c o = join comma_space (map ext.show_ip c.interface.dns)
  field_shown dns_search c o = join comma_space c.interface.dns_search
  field_shown mtu c o = show_nat c.interface.mtu
  field_shown fwmark c o = show_nat c.interface.fwmark
  field_shown pre_up c o = join comma_space c.interface.pre_up
  field_shown post_up c o = join comma_space c.interface.post_up
  field_shown pre_down c o = join comma_space c.interface.pre_down
  field_shown post_down c o = join comma_space c.interface.post_down
  field_shown peer_name c o = shown_or_empty (λ p. p.name) o
  field_shown peer_public_key c o = shown_or_empty (λ p. public_to_base64 ext p.public_key) o
  field_shown peer_endpoint c o = shown_or_empty (λ p. or_empty p.endpoint) o
  field_shown peer_allowed_ips c o = shown_or_empty (λ p. join comma_space p.allowed_ips) o
  field_shown peer_persistent_keepalive c o =
      shown_or_empty
        (λ p. if p.persistent_keepalive == 0 then [] else show_nat p.persistent_keepalive) o

  -- The label, the value, and whether it is read-only.
  unfoldable pub get_field_display : EditableField → ConfigSection → WgConfig → Text × Text × Bool
  get_field_display field section c =
      let o = section_peer section c in
      (field_label field, field_shown field c o, is_read_only field o)
