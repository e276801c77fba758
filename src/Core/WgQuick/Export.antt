-- ===== src/Core/WgQuick/Export.antt =====
-- `export_to_string` of ferro-wg-core/src/config/wg_quick.rs.
use ferro_wg.Prelude.{
  ℕ, String, List, [], ◌∷◌, ◌++◌, map, Text, Option, none, some, is_empty, flat_map, ◌==◌, nat_eq,
  codes, if◌then◌else◌,
}
use ferro_wg.External.{External}
use ferro_wg.Text.Number.{show_nat}
use ferro_wg.Text.Split.{join}
use ferro_wg.Core.Key.{private_to_base64, public_to_base64, preshared_to_base64}
use ferro_wg.Core.Config.{InterfaceConfig, PeerConfig, WgConfig}

-- `writeln!(out, "{key} = {value}")`
unfoldable pub key_line : String → Text → Text
key_line key value = codes key ++ codes " = " ++ value ++ codes "\n"

abbrev pub key_lines : String → List Text → Text
key_lines key values = flat_map (key_line key) values

-- A number that is 0 has no line.
unfoldable pub int_line : String → ℕ → Text
unfolding key_line
int_line key n = if n == 0 then [] else key_line key (show_nat n)

unfoldable pub list_line : String → List Text → Text
unfolding key_line
list_line key [] = []
list_line key (v ∷ vs) = key_line key (join (codes ", ") (v ∷ vs))

unfoldable pub option_line : String → Option Text → Text
unfolding key_line
option_line key none = []
option_line key (some v) = key_line key v

-- The name stands in a comment.
unfoldable pub name_line : Text → Text
unfolding key_line
name_line name = if is_empty name then [] else key_line "# Name" name

module _ (ext : External) where
  unfoldable pub export_interface : InterfaceConfig → Text
  unfolding int_line list_line
  export_interface c =
      codes "[Interface]\n"
      ++ key_line "PrivateKey" (private_to_base64 ext c.private_key)
      ++ int_line "ListenPort" c.listen_port
      ++ key_lines "Address" c.addresses
      ++ list_line "DNS" (map ext.show_ip c.dns ++ c.dns_search)
      ++ int_line "MTU" c.mtu
      ++ key_lines "PreUp" c.pre_up
      ++ key_lines "PostUp" c.post_up
      ++ key_lines "PreDown" c.pre_down
      ++ key_lines "PostDown" c.post_down

  unfoldable pub export_psk : PeerConfig → Text
  unfolding option_line
  export_psk p = elim p.preshared_key [
    | none ↦ []
    | some key ↦ key_line "PresharedKey" (preshared_to_base64 ext key)
  ]

  unfoldable pub export_peer : PeerConfig → Text
  unfolding name_line export_psk
  export_peer p =
      codes "\n[Peer]\n"
      ++ name_line p.name
      ++ key_line "PublicKey" (public_to_base64 ext p.public_key)
      ++ export_psk p
      ++ option_line "Endpoint" p.endpoint
      ++ list_line "AllowedIPs" p.allowed_ips
      ++ int_line "PersistentKeepalive" p.persistent_keepalive

  unfoldable pub export_to_string : WgConfig → Text
  unfolding export_interface export_peer
  export_to_string c = export_interface c.interface ++ flat_map export_peer c.peers
