-- ===== src/Tui/ConfigEdit/Elsewhere.antt =====
-- `apply_field` of ferro-wg-tui-core/src/config_edit.rs leaves the other fields alone.
use ferro_wg.Prelude.{
  ℕ, zero, suc, List, [], ◌∷◌, ◌≡◌, ◌≢◌, refl, Text, none, some, modify, if◌then◌else◌, is_empty,
}
use ferro_wg.External.{External}
use ferro_wg.Text.Split.{join}
use ferro_wg.Text.Number.{u16_max}
use ferro_wg.Core.Key.{public_to_base64}
use ferro_wg.Core.Config.{PeerConfig, WgConfig}
use ferro_wg.Tui.ConfigEdit.{
  EditableField, listen_port, addresses, dns, dns_search, mtu, fwmark, pre_up, post_up, pre_down,
  post_down, peer_name, peer_public_key, peer_endpoint, peer_allowed_ips, peer_persistent_keepalive,
  ConfigSection, interface, peer, of_peer, or_empty, comma_space, show_nonzero, parse_or_zero,
  parse_comma_list, at_peer, at_interface, field_current_value, apply_field,
}

-- What is shown of a peer stays the same when the change keeps it in every peer.
of_peer-modify :
    (read : PeerConfig → Text) (f : PeerConfig → PeerConfig) (i : ℕ) (ps : List PeerConfig)
    (s : ConfigSection)
    → ((p : PeerConfig) → read (f p) ≡ read p)
    → of_peer (modify f i ps) s read ≡ of_peer ps s read
unfolding of_peer
of_peer-modify read f i ps interface h = refl
of_peer-modify read f i [] (peer j) h = refl
of_peer-modify read f zero (p ∷ ps) (peer zero) h = h p
of_peer-modify read f zero (p ∷ ps) (peer (suc j)) h = refl
of_peer-modify read f (suc i) (p ∷ ps) (peer zero) h = refl
of_peer-modify read f (suc i) (p ∷ ps) (peer (suc j)) h = of_peer-modify read f i ps (peer j) h

-- What the editor writes to a peer.
abbrev set_name : Text → PeerConfig → PeerConfig
set_name v p = record p { name = v }

abbrev set_endpoint : Text → PeerConfig → PeerConfig
set_endpoint v p = record p { endpoint = if is_empty v then none else some v }

abbrev set_allowed_ips : Text → PeerConfig → PeerConfig
set_allowed_ips v p = record p { allowed_ips = parse_comma_list v }

abbrev set_keepalive : Text → PeerConfig → PeerConfig
set_keepalive v p = record p { persistent_keepalive = parse_or_zero u16_max v }

module _ (ext : External) where
  -- What a peer's field shows; the fields of the interface show nothing of a peer.
  read_peer_field : EditableField → PeerConfig → Text
  read_peer_field peer_name p = p.name
  read_peer_field peer_public_key p = public_to_base64 ext p.public_key
  read_peer_field peer_endpoint p = or_empty p.endpoint
  read_peer_field peer_allowed_ips p = join comma_space p.allowed_ips
  read_peer_field peer_persistent_keepalive p = show_nonzero p.persistent_keepalive
  read_peer_field _ p = []

  at_peer-elsewhere :
      (g : EditableField) (f : PeerConfig → PeerConfig) (s t : ConfigSection) (c : WgConfig)
      → ((p : PeerConfig) → read_peer_field g (f p) ≡ read_peer_field g p)
      → field_current_value ext g t (at_peer s f c) ≡ field_current_value ext g t c
  unfolding field_current_value at_peer read_peer_field
  at_peer-elsewhere g f interface t c h = refl
  at_peer-elsewhere peer_name f (peer i) t c h =
      of_peer-modify (read_peer_field peer_name) f i c.peers t h
  at_peer-elsewhere peer_public_key f (peer i) t c h =
      of_peer-modify (read_peer_field peer_public_key) f i c.peers t h
  at_peer-elsewhere peer_endpoint f (peer i) t c h =
      of_peer-modify (read_peer_field peer_endpoint) f i c.peers t h
  at_peer-elsewhere peer_allowed_ips f (peer i) t c h =
      of_peer-modify (read_peer_field peer_allowed_ips) f i c.peers t h
  at_peer-elsewhere peer_persistent_keepalive f (peer i) t c h =
      of_peer-modify (read_peer_field peer_persistent_keepalive) f i c.peers t h
  at_peer-elsewhere _ f (peer i) t c h = refl

  set_name-kept :
      (g : EditableField) (v : Text) (p : PeerConfig)
      → peer_name ≢ g
      → read_peer_field g (set_name v p) ≡ read_peer_field g p
  unfolding read_peer_field
  set_name-kept peer_name v p ne = absurd (ne refl)
  set_name-kept _ v p ne = refl

  set_endpoint-kept :
      (g : EditableField) (v : Text) (p : PeerConfig)
      → peer_endpoint ≢ g
      → read_peer_field g (set_endpoint v p) ≡ read_peer_field g p
  unfolding read_peer_field
  set_endpoint-kept peer_endpoint v p ne = absurd (ne refl)
  set_endpoint-kept _ v p ne = refl

  set_allowed_ips-kept :
      (g : EditableField) (v : Text) (p : PeerConfig)
      → peer_allowed_ips ≢ g
      → read_peer_field g (set_allowed_ips v p) ≡ read_peer_field g p
  unfolding read_peer_field
  set_allowed_ips-kept peer_allowed_ips v p ne = absurd (ne refl)
  set_allowed_ips-kept _ v p ne = refl

  set_keepalive-kept :
      (g : EditableField) (v : Text) (p : PeerConfig)
      → peer_persistent_keepalive ≢ g
      → read_peer_field g (set_keepalive v p) ≡ read_peer_field g p
  unfolding read_peer_field
  set_keepalive-kept peer_persistent_keepalive v p ne = absurd (ne refl)
  set_keepalive-kept _ v p ne = refl

  -- Writing a field changes nothing of what the other fields show, in any section.
  pub field_current_value-apply_field :
      (f g : EditableField) (v : Text) (s t : ConfigSection) (c : WgConfig)
      → f ≢ g
      → field_current_value ext g t (apply_field ext f v c s) ≡ field_current_value ext g t c
  unfolding field_current_value apply_field at_interface read_peer_field
  field_current_value-apply_field listen_port listen_port v s t c ne = absurd (ne refl)
  field_current_value-apply_field listen_port _ v s t c ne = refl
  field_current_value-apply_field addresses addresses v s t c ne = absurd (ne refl)
  field_current_value-apply_field addresses _ v s t c ne = refl
  field_current_value-apply_field dns dns v s t c ne = absurd (ne refl)
  field_current_value-apply_field dns _ v s t c ne = refl
  field_current_value-apply_field dns_search dns_search v s t c ne = absurd (ne refl)
  field_current_value-apply_field dns_search _ v s t c ne = refl
  field_current_value-apply_field mtu mtu v s t c ne = absurd (ne refl)
  field_current_value-apply_field mtu _ v s t c ne = refl
  field_current_value-apply_field fwmark fwmark v s t c ne = absurd (ne refl)
  field_current_value-apply_field fwmark _ v s t c ne = refl
  field_current_value-apply_field pre_up pre_up v s t c ne = absurd (ne refl)
  field_current_value-apply_field pre_up _ v s t c ne = refl
  field_current_value-apply_field post_up post_up v s t c ne = absurd (ne refl)
  field_current_value-apply_field post_up _ v s t c ne = refl
  field_current_value-apply_field pre_down pre_down v s t c ne = absurd (ne refl)
  field_current_value-apply_field pre_down _ v s t c ne = refl
  field_current_value-apply_field post_down post_down v s t c ne = absurd (ne refl)
  field_current_value-apply_field post_down _ v s t c ne = refl
  field_current_value-apply_field peer_name peer_name v s t c ne = absurd (ne refl)
  field_current_value-apply_field peer_name g v s t c ne =
      at_peer-elsewhere g (set_name v) s t c (λ p. set_name-kept g v p ne)
  field_current_value-apply_field peer_public_key g v s t c ne = refl
  field_current_value-apply_field peer_endpoint peer_endpoint v s t c ne = absurd (ne refl)
  field_current_value-apply_field peer_endpoint g v s t c ne =
      at_peer-elsewhere g (set_endpoint v) s t c (λ p. set_endpoint-kept g v p ne)
  field_current_value-apply_field peer_allowed_ips peer_allowed_ips v s t c ne = absurd (ne refl)
  field_current_value-apply_field peer_allowed_ips g v s t c ne =
      at_peer-elsewhere g (set_allowed_ips v) s t c (λ p. set_allowed_ips-kept g v p ne)
  field_current_value-apply_field peer_persistent_keepalive peer_persistent_keepalive v s t c ne =
      absurd (ne refl)
  field_current_value-apply_field peer_persistent_keepalive g v s t c ne =
      at_peer-elsewhere g (set_keepalive v) s t c (λ p. set_keepalive-kept g v p ne)
