-- ===== src/Core/WgQuick/Interface.antt =====
-- The interface's section of ferro-wg-core/src/config/wg_quick.rs, written and read.
use ferro_wg.Prelude.{
  ℕ, suc, ◌≤◌, List, [], ◌∷◌, ◌++◌, map, ◌≡◌, refl, ap, subst, Text, some, ok, codes, All, text_beq,
}
use ferro_wg.External.{External, Base64Laws, IpLaws, IpAddr}
use ferro_wg.Text.Trim.{trim}
use ferro_wg.Text.Split.{lines, lines_from, join}
use ferro_wg.Text.Number.{parse_uint-show_nat, u16_max}
use ferro_wg.Core.Key.{IsKeyBytes, private_from_base64, private_to_base64}
use ferro_wg.Core.Config.{InterfaceConfig}
use ferro_wg.Core.WgQuick.Builder.{
  InterfaceBuilder, default_interface, set_interface, interface_key, parse_interface_kv, int_at,
}
use ferro_wg.Core.WgQuick.Parse.{
  ParseState, initial, interface_section, entry, parse_lines, take_line, line_kind,
}
use ferro_wg.Core.WgQuick.Export.{int_line, key_line, key_lines, list_line, export_interface}
use ferro_wg.Core.WgQuick.Takes.{
  IsLine, Takes, Takes-nil, Takes-append, Takes-key_line, Takes-key_lines,
}
use ferro_wg.Core.WgQuick.Keys.{letters-IsKey}
use ferro_wg.Core.WgQuick.Fields.{IsItem, encoded_key-IsLine, decode-encoded_key}
use ferro_wg.Core.WgQuick.Lists.{
  trimmed-item, join-IsLine, Takes-int_line, IsDomain, add_dns-written, dns_unwritten, dns-IsItem,
}

-- An interface that the format can hold: its lists have no commas, line breaks or blanks at the ends.
pub record IsWritable (ext : External) (c : InterfaceConfig) : Type 0 where
  pub key : IsKeyBytes c.private_key.bytes
  pub listen_port : c.listen_port ≤ u16_max
  pub mtu : c.mtu ≤ u16_max
  pub addresses : All IsItem c.addresses
  pub dns_search : All (IsDomain ext) c.dns_search
  pub pre_up : All IsLine c.pre_up
  pub post_up : All IsLine c.post_up
  pub pre_down : All IsLine c.pre_down
  pub post_down : All IsLine c.post_down

-- In the interface's section, with no peer so far.
abbrev at_interface : InterfaceBuilder → ParseState
at_interface b = record { section = interface_section; iface = b; peers = [] }

module _ (ext : External) (laws : Base64Laws ext) (ips : IpLaws ext) (c : InterfaceConfig)
    (h : IsWritable ext c) where
  -- The builder behind each of the lines.
  abbrev with_key : InterfaceBuilder
  with_key = record default_interface { private_key = some c.private_key }

  abbrev with_port : ℕ → InterfaceBuilder
  with_port n = record with_key { listen_port = n }

  abbrev with_addresses : List Text → InterfaceBuilder
  with_addresses l = record (with_port c.listen_port) { addresses = l }

  abbrev with_dns : List IpAddr → List Text → InterfaceBuilder
  with_dns l m = record (with_addresses c.addresses) { dns = l; dns_search = m }

  abbrev with_mtu : ℕ → InterfaceBuilder
  with_mtu n = record (with_dns c.dns c.dns_search) { mtu = n }

  abbrev with_pre_up : List Text → InterfaceBuilder
  with_pre_up l = record (with_mtu c.mtu) { pre_up = l }

  abbrev with_post_up : List Text → InterfaceBuilder
  with_post_up l = record (with_pre_up c.pre_up) { post_up = l }

  abbrev with_pre_down : List Text → InterfaceBuilder
  with_pre_down l = record (with_post_up c.post_up) { pre_down = l }

  abbrev with_post_down : List Text → InterfaceBuilder
  with_post_down l = record (with_pre_down c.pre_down) { post_down = l }

  Takes-header : Takes ext (codes "[Interface]\n") initial (at_interface default_interface)
  unfolding lines lines_from parse_lines take_line line_kind trim text_beq
  Takes-header = record { taken = λ rest n. (suc n, refl) }

  Takes-private_key :
      Takes ext
        (key_line "PrivateKey" (private_to_base64 ext c.private_key))
        (at_interface default_interface)
        (at_interface with_key)
  unfolding entry parse_interface_kv interface_key set_interface private_from_base64
      private_to_base64 text_beq
  Takes-private_key =
      Takes-key_line ext "PrivateKey" (private_to_base64 ext c.private_key) _
        (at_interface with_key) (letters-IsKey b'P' (codes "rivateKey") refl)
        (encoded_key-IsLine ext laws c.private_key.bytes h.key)
        (λ n. rw (decode-encoded_key ext laws c.private_key.bytes h.key) refl)

  Takes-listen_port :
      Takes ext
        (int_line "ListenPort" c.listen_port)
        (at_interface with_key)
        (at_interface (with_port c.listen_port))
  unfolding entry parse_interface_kv interface_key set_interface int_at text_beq
  Takes-listen_port =
      Takes-int_line ext "ListenPort" c.listen_port (at_interface with_key)
        (λ n. at_interface (with_port n)) (letters-IsKey b'L' (codes "istenPort") refl) refl
        (λ m. rw (parse_uint-show_nat u16_max c.listen_port h.listen_port) refl)

  Takes-addresses :
      Takes ext
        (key_lines "Address" c.addresses)
        (at_interface (with_port c.listen_port))
        (at_interface (with_addresses c.addresses))
  unfolding entry parse_interface_kv interface_key set_interface text_beq
  Takes-addresses =
      Takes-key_lines ext "Address" IsItem c.addresses [] (λ l. at_interface (with_addresses l))
        (letters-IsKey b'A' (codes "ddress") refl) (λ v item. item.line) h.addresses
        (λ done v n item. rw (trimmed-item v item) refl)

  written_dns :
      (vs : List Text)
      → map ext.show_ip c.dns ++ c.dns_search ≡ vs
      → All IsItem vs
      → Takes ext
          (list_line "DNS" vs)
          (at_interface (with_addresses c.addresses))
          (at_interface (with_dns c.dns c.dns_search))
  unfolding entry parse_interface_kv interface_key set_interface text_beq list_line
  written_dns [] e items =
      subst (λ b. Takes ext [] (at_interface (with_addresses c.addresses)) (at_interface b))
        (dns_unwritten ext c.dns c.dns_search (with_addresses c.addresses) ips h.dns_search e)
        (Takes-nil ext (at_interface (with_addresses c.addresses)))
  written_dns (v ∷ vs) e items =
      Takes-key_line ext "DNS" (join (codes ", ") (v ∷ vs)) _
        (at_interface (with_dns c.dns c.dns_search)) (letters-IsKey b'D' (codes "NS") refl)
        (join-IsLine v vs items)
        (λ n.
          ap (λ b. ok (at_interface b))
            (add_dns-written ext v vs c.dns c.dns_search (with_addresses c.addresses) ips
              h.dns_search items e))

  Takes-dns :
      Takes ext
        (list_line "DNS" (map ext.show_ip c.dns ++ c.dns_search))
        (at_interface (with_addresses c.addresses))
        (at_interface (with_dns c.dns c.dns_search))
  Takes-dns =
      written_dns (map ext.show_ip c.dns ++ c.dns_search) refl
        (dns-IsItem ext c.dns c.dns_search ips h.dns_search)

  Takes-mtu :
      Takes ext
        (int_line "MTU" c.mtu)
        (at_interface (with_dns c.dns c.dns_search))
        (at_interface (with_mtu c.mtu))
  unfolding entry parse_interface_kv interface_key set_interface int_at text_beq
  Takes-mtu =
      Takes-int_line ext "MTU" c.mtu (at_interface (with_dns c.dns c.dns_search))
        (λ n. at_interface (with_mtu n)) (letters-IsKey b'M' (codes "TU") refl) refl
        (λ m. rw (parse_uint-show_nat u16_max c.mtu h.mtu) refl)

  Takes-pre_up :
      Takes ext
        (key_lines "PreUp" c.pre_up)
        (at_interface (with_mtu c.mtu))
        (at_interface (with_pre_up c.pre_up))
  unfolding entry parse_interface_kv interface_key set_interface text_beq
  Takes-pre_up =
      Takes-key_lines ext "PreUp" IsLine c.pre_up [] (λ l. at_interface (with_pre_up l))
        (letters-IsKey b'P' (codes "reUp") refl) (λ v line. line) h.pre_up (λ done v n line. refl)

  Takes-post_up :
      Takes ext
        (key_lines "PostUp" c.post_up)
        (at_interface (with_pre_up c.pre_up))
        (at_interface (with_post_up c.post_up))
  unfolding entry parse_interface_kv interface_key set_interface text_beq
  Takes-post_up =
      Takes-key_lines ext "PostUp" IsLine c.post_up [] (λ l. at_interface (with_post_up l))
        (letters-IsKey b'P' (codes "ostUp") refl) (λ v line. line) h.post_up (λ done v n line. refl)

  Takes-pre_down :
      Takes ext
        (key_lines "PreDown" c.pre_down)
        (at_interface (with_post_up c.post_up))
        (at_interface (with_pre_down c.pre_down))
  unfolding entry parse_interface_kv interface_key set_interface text_beq
  Takes-pre_down =
      Takes-key_lines ext "PreDown" IsLine c.pre_down [] (λ l. at_interface (with_pre_down l))
        (letters-IsKey b'P' (codes "reDown") refl) (λ v line. line) h.pre_down
        (λ done v n line. refl)

  Takes-post_down :
      Takes ext
        (key_lines "PostDown" c.post_down)
        (at_interface (with_pre_down c.pre_down))
        (at_interface (with_post_down c.post_down))
  unfolding entry parse_interface_kv interface_key set_interface text_beq
  Takes-post_down =
      Takes-key_lines ext "PostDown" IsLine c.post_down [] (λ l. at_interface (with_post_down l))
        (letters-IsKey b'P' (codes "ostDown") refl) (λ v line. line) h.post_down
        (λ done v n line. refl)

  -- What is read of a written interface: everything but the mark of the firewall.
  pub Takes-export_interface :
      Takes ext (export_interface ext c) initial (at_interface (with_post_down c.post_down))
  unfolding export_interface
  Takes-export_interface =
      Takes-append
        (Takes-append
          (Takes-append
            (Takes-append
              (Takes-append
                (Takes-append
                  (Takes-append
                    (Takes-append (Takes-append Takes-header Takes-private_key) Takes-listen_port)
                    Takes-addresses)
                  Takes-dns)
                Takes-mtu)
              Takes-pre_up)
            Takes-post_up)
          Takes-pre_down)
        Takes-post_down
