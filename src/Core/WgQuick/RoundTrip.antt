-- ===== src/Core/WgQuick/RoundTrip.antt =====
-- `load_from_str` reads back what `export_to_string` of ferro-wg-core/src/config/wg_quick.rs writes.
use ferro_wg.Prelude.{
  List, [], ◌∷◌, ◌++◌, map, ◌≡◌, ◌≢◌, refl, sym, subst, arith, Text, ok, some, inl, All, append-nil,
  append_assoc, flat_map,
}
use ferro_wg.External.{External, Base64Laws, IpLaws}
use ferro_wg.Text.Split.{lines, lines_from}
use ferro_wg.Core.Config.{InterfaceConfig, PeerConfig, WgConfig, validate}
use ferro_wg.Core.Config.Valid.{IsValidPeer, validate_iff}
use ferro_wg.Core.WgQuick.Builder.{
  InterfaceBuilder, PeerBuilder, build_interface, build_peer, build_peers,
}
use ferro_wg.Core.WgQuick.Parse.{
  Section, interface_section, peer_section, ParseState, initial, parse_lines, finish, load_from_str,
}
use ferro_wg.Core.WgQuick.Export.{export_peer, export_to_string}
use ferro_wg.Core.WgQuick.Takes.{Takes, Takes-nil, Takes-append}
use ferro_wg.Core.WgQuick.Interface.{IsWritable, Takes-export_interface}
use ferro_wg.Core.WgQuick.Peers.{IsWritablePeer, read_peer, Takes-export_peer}

-- A configuration that the format can hold.
pub record IsExportable (ext : External) (c : WgConfig) : Type 0 where
  pub interface : IsWritable ext c.interface
  pub some_peer : c.peers ≢ []
  pub peers : All IsWritablePeer c.peers
  pub routed : All (λ (p : PeerConfig). p.allowed_ips ≢ []) c.peers

abbrev pub unnamed : PeerConfig → PeerConfig
unnamed p = record p { name = [] }

-- The format has no place for the names, and the writer leaves out the mark of the firewall.
abbrev pub without_names : WgConfig → WgConfig
without_names c = record {
  interface = record c.interface { fwmark = 0 };
  peers = map unnamed c.peers;
}

section_after : Section → List PeerConfig → Section
section_after place [] = place
section_after place (p ∷ ps) = peer_section

in_peers : (ps : List PeerConfig) → section_after peer_section ps ≡ peer_section
unfolding section_after
in_peers [] = refl
in_peers (p ∷ ps) = refl

Takes-peers :
    (ext : External) (laws : Base64Laws ext) (i : InterfaceBuilder) (place : Section)
    (bs : List PeerBuilder) (ps : List PeerConfig)
    → All IsWritablePeer ps
    → Takes ext
        (flat_map (export_peer ext) ps)
        (record { section = place; iface = i; peers = bs })
        (record { section = section_after place ps; iface = i; peers = bs ++ map read_peer ps })
unfolding section_after
Takes-peers ext laws i place bs [] h =
    subst
      (λ l.
        Takes ext [] (record { section = place; iface = i; peers = bs })
          (record { section = place; iface = i; peers = l }))
      (sym (append-nil bs)) (Takes-nil ext _)
Takes-peers ext laws i place bs (p ∷ ps) h =
    Takes-append (Takes-export_peer ext laws i bs p h.0 place) (
      subst
        (λ s.
          Takes ext (flat_map (export_peer ext) ps)
            (record { section = peer_section; iface = i; peers = bs ++ read_peer p ∷ [] }) s)
        (λ j. record {
          section = in_peers ps j;
          iface = i;
          peers = append_assoc bs (read_peer p ∷ []) (map read_peer ps) j;
        })
        (Takes-peers ext laws i peer_section (bs ++ read_peer p ∷ []) ps h.1))

built_peers : (ps : List PeerConfig) → build_peers (map read_peer ps) ≡ ok (map unnamed ps)
unfolding build_peers build_peer
built_peers [] = refl
built_peers (p ∷ ps) = rw (built_peers ps) refl

unnamed-IsValidPeer :
    (ps : List PeerConfig)
    → All (λ (p : PeerConfig). p.allowed_ips ≢ []) ps
    → All IsValidPeer (map unnamed ps)
unnamed-IsValidPeer [] h = tt
unnamed-IsValidPeer (p ∷ ps) h =
    (record { name = inl refl; allowed_ips = h.0 }, unnamed-IsValidPeer ps h.1)

validate-without_names :
    {ext : External} (c : WgConfig) → IsExportable ext c → validate (without_names c) ≡ ok tt
validate-without_names c h = (validate_iff (without_names c)).1 (record {
  some_peer = some_left c.peers h.some_peer;
  peers = unnamed-IsValidPeer c.peers h.routed;
})
  where
    some_left : (ps : List PeerConfig) → ps ≢ [] → map unnamed ps ≢ []
    some_left [] ne = ne
    some_left (p ∷ ps) ne = ground arith

-- What is read of a written interface.
abbrev read_interface : InterfaceConfig → InterfaceBuilder
read_interface c = record {
  private_key = some c.private_key;
  listen_port = c.listen_port;
  addresses = c.addresses;
  dns = c.dns;
  dns_search = c.dns_search;
  mtu = c.mtu;
  fwmark = 0;
  pre_up = c.pre_up;
  post_up = c.post_up;
  pre_down = c.pre_down;
  post_down = c.post_down;
}

abbrev read_state : WgConfig → ParseState
read_state c = record {
  section = section_after interface_section c.peers;
  iface = read_interface c.interface;
  peers = map read_peer c.peers;
}

finish-read_state :
    {ext : External} (c : WgConfig)
    → IsExportable ext c
    → finish (read_state c) ≡ ok (without_names c)
unfolding finish build_interface
finish-read_state c h = rw (built_peers c.peers) (rw (validate-without_names c h) refl)

-- A text that takes the loop to a state is read as what the state comes to.
load_from_str-Takes :
    (ext : External) (t : Text) (s : ParseState) (c : WgConfig)
    → Takes ext t initial s
    → finish s ≡ ok c
    → load_from_str ext t ≡ ok c
unfolding load_from_str lines lines_from parse_lines
load_from_str-Takes ext t s c h e =
    let run =
      subst (λ x. parse_lines ext 1 (lines x) initial ≡ ok s) (append-nil t) (h.taken [] 1).1 in
    rw run (rw e refl)

module _ (ext : External) (laws : Base64Laws ext) (ips : IpLaws ext) where
  Takes-export_to_string :
      (c : WgConfig)
      → IsExportable ext c
      → Takes ext (export_to_string ext c) initial (read_state c)
  unfolding export_to_string
  Takes-export_to_string c h =
      Takes-append (Takes-export_interface ext laws ips c.interface h.interface)
        (Takes-peers ext laws (read_interface c.interface) interface_section [] c.peers h.peers)

  -- A configuration that is written to the wg-quick format and read again is the same one, without
  -- the names of its peers and the mark of the firewall, if it has a peer, every peer has somewhere
  -- to route to, and its values can stand in the format.
  pub load_from_str-export_to_string :
      (c : WgConfig)
      → IsExportable ext c
      → load_from_str ext (export_to_string ext c) ≡ ok (without_names c)
  load_from_str-export_to_string c h =
      load_from_str-Takes ext (export_to_string ext c) (read_state c) (without_names c)
        (Takes-export_to_string c h) (finish-read_state c h)
