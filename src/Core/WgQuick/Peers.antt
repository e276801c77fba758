-- ===== src/Core/WgQuick/Peers.antt =====
-- The peers' sections of ferro-wg-core/src/config/wg_quick.rs, written and read.
use ferro_wg.Prelude.{
  ℕ, suc, ◌≤◌, false, List, [], ◌∷◌, ◌++◌, ◌≡◌, ◌⊎◌, inl, inr, refl, Text, Option, none, some, ok,
  codes, All, All-append, text_beq, append_assoc, is_empty, Bool-cases, ◌==◌, nat_eq,
}
use ferro_wg.External.{External, Base64Laws}
use ferro_wg.Text.Trim.{trim, is_whitespace, trim-solid, EndsSolid-append}
use ferro_wg.Text.Split.{lines, lines_from, lines-line, join}
use ferro_wg.Text.Number.{parse_uint-show_nat, u16_max}
use ferro_wg.Core.Key.{
  IsKeyBytes, PresharedKey, public_from_base64, public_to_base64, preshared_from_base64,
  preshared_to_base64,
}
use ferro_wg.Core.Config.{PeerConfig}
use ferro_wg.Core.Config.Valid.{IsName}
use ferro_wg.Core.WgQuick.Builder.{
  InterfaceBuilder, PeerBuilder, default_peer, set_peer, peer_key, parse_peer_kv, int_at,
}
use ferro_wg.Core.WgQuick.Parse.{
  Section, ParseState, peer_section, entry, parse_lines, parse_last, take_line, line_kind,
}
use ferro_wg.Core.WgQuick.Export.{
  int_line, key_line, list_line, option_line, name_line, export_psk, export_peer,
}
use ferro_wg.Core.WgQuick.Takes.{IsLine, Takes, Takes-nil, Takes-append, Takes-key_line}
use ferro_wg.Core.WgQuick.Keys.{letters-IsKey}
use ferro_wg.Core.WgQuick.Fields.{IsItem, name-IsLine, encoded_key-IsLine, decode-encoded_key}
use ferro_wg.Core.WgQuick.Lists.{join-IsLine, items_again, Takes-int_line}

abbrev pub OnSome {ℓ} : {A : Type ℓ} → (A → Type 0) → Option A → Type 0
OnSome P none = Unit
OnSome P (some a) = P a

-- A peer that the format can hold.
pub record IsWritablePeer (p : PeerConfig) : Type 0 where
  pub name : (p.name ≡ []) ⊎ IsName p.name
  pub key : IsKeyBytes p.public_key.bytes
  pub preshared_key : OnSome (λ k. IsKeyBytes k.bytes) p.preshared_key
  pub endpoint : OnSome IsLine p.endpoint
  pub allowed_ips : All IsItem p.allowed_ips
  pub keepalive : p.persistent_keepalive ≤ u16_max

-- In the section of the last peer.
abbrev at_peer : InterfaceBuilder → List PeerBuilder → PeerBuilder → ParseState
at_peer i bs b = record { section = peer_section; iface = i; peers = bs ++ b ∷ [] }

-- What is read of a written peer: everything but its name, which stands in a comment.
abbrev pub read_peer : PeerConfig → PeerBuilder
read_peer p = record {
  name = [];
  public_key = some p.public_key;
  preshared_key = p.preshared_key;
  endpoint = p.endpoint;
  allowed_ips = p.allowed_ips;
  persistent_keepalive = p.persistent_keepalive;
}

module _ (ext : External) where
  parse_last-append :
      (bs : List PeerBuilder) (b b' : PeerBuilder) (key v : Text) (n : ℕ)
      → parse_peer_kv ext b key v n ≡ ok b'
      → parse_last ext (bs ++ b ∷ []) key v n ≡ ok (bs ++ b' ∷ [])
  unfolding parse_last
  parse_last-append [] b b' key v n e = rw e refl
  parse_last-append (a ∷ []) b b' key v n e = rw e refl
  parse_last-append (a ∷ c ∷ bs) b b' key v n e =
      rw (parse_last-append (c ∷ bs) b b' key v n e) refl

  peer_entry :
      (i : InterfaceBuilder) (bs : List PeerBuilder) (b b' : PeerBuilder) (key v : Text) (n : ℕ)
      → parse_peer_kv ext b key v n ≡ ok b'
      → entry ext peer_section key v n (at_peer i bs b) ≡ ok (at_peer i bs b')
  unfolding entry
  peer_entry i bs b b' key v n e = rw (parse_last-append bs b b' key v n e) refl

  -- A comment is skipped.
  Takes-comment : (v : Text) (s : ParseState) → IsLine v → Takes ext (key_line "# Name" v) s s
  unfolding key_line parse_lines take_line line_kind is_whitespace
  Takes-comment v s h =
      let line = codes "# Name" ++ codes " = " ++ v in
      let ends = EndsSolid-append (codes "# Name" ++ codes " = ") v h.ends in
      record {
        taken = λ rest n. (
          suc n,
          rw (append_assoc line (codes "\n") rest) (
              rw
                (lines-line line rest
                  (All-append (λ x. (x == b'\n') ≡ false) (codes "# Name" ++ codes " = ") v
                    (refl, (refl, (refl, (refl, (refl, (refl, (refl, (refl, (refl, tt)))))))))
                    h.unbroken)
                  ends)
                (rw (trim-solid line refl ends) refl)),
        );
      }

  Takes-name :
      (p : PeerConfig) (s : ParseState) → IsWritablePeer p → Takes ext (name_line p.name) s s
  unfolding name_line
  Takes-name p s h = elim (Bool-cases (is_empty p.name)) [
    | inl e ↦ rw e (Takes-nil ext s)
    | inr e ↦ rw e (Takes-comment p.name s (line p.name h.name e))
  ]
    where
      line : (v : Text) → (v ≡ []) ⊎ IsName v → is_empty v ≡ false → IsLine v
      line v (inl nameless) e = cc (rw nameless at e)
      line v (inr named) e = name-IsLine v named

  module _ (laws : Base64Laws ext) (i : InterfaceBuilder) (bs : List PeerBuilder) (p : PeerConfig)
      (h : IsWritablePeer p) where
    -- The builder behind each of the lines.
    abbrev keyed : PeerBuilder
    keyed = record default_peer { public_key = some p.public_key }

    abbrev with_psk : Option PresharedKey → PeerBuilder
    with_psk k = record keyed { preshared_key = k }

    abbrev with_endpoint : Option Text → PeerBuilder
    with_endpoint e = record (with_psk p.preshared_key) { endpoint = e }

    abbrev with_allowed : List Text → PeerBuilder
    with_allowed l = record (with_endpoint p.endpoint) { allowed_ips = l }

    abbrev with_keepalive : ℕ → PeerBuilder
    with_keepalive n = record (with_allowed p.allowed_ips) { persistent_keepalive = n }

    Takes-public_key :
        Takes ext
          (key_line "PublicKey" (public_to_base64 ext p.public_key))
          (at_peer i bs default_peer)
          (at_peer i bs keyed)
    unfolding parse_peer_kv peer_key set_peer public_from_base64 public_to_base64 text_beq
    Takes-public_key =
        Takes-key_line ext "PublicKey" (public_to_base64 ext p.public_key) _ (at_peer i bs keyed)
          (letters-IsKey b'P' (codes "ublicKey") refl)
          (encoded_key-IsLine ext laws p.public_key.bytes h.key)
          (λ n.
            peer_entry i bs default_peer keyed _ _ n
              (rw (decode-encoded_key ext laws p.public_key.bytes h.key) refl))

    written_psk :
        (k : Option PresharedKey)
        → OnSome (λ k. IsKeyBytes k.bytes) k
        → Takes ext
            (elim k [
              | none ↦ []
              | some key ↦ key_line "PresharedKey" (preshared_to_base64 ext key)
            ])
            (at_peer i bs keyed)
            (at_peer i bs (with_psk k))
    unfolding parse_peer_kv peer_key set_peer preshared_from_base64 preshared_to_base64 text_beq
    written_psk none w = Takes-nil ext (at_peer i bs keyed)
    written_psk (some k) w =
        Takes-key_line ext "PresharedKey" (preshared_to_base64 ext k) _
          (at_peer i bs (with_psk (some k))) (letters-IsKey b'P' (codes "resharedKey") refl)
          (encoded_key-IsLine ext laws k.bytes w)
          (λ n.
            peer_entry i bs keyed (with_psk (some k)) _ _ n
              (rw (decode-encoded_key ext laws k.bytes w) refl))

    written_endpoint :
        (e : Option Text)
        → OnSome IsLine e
        → Takes ext
            (option_line "Endpoint" e)
            (at_peer i bs (with_psk p.preshared_key))
            (at_peer i bs (with_endpoint e))
    unfolding parse_peer_kv peer_key set_peer text_beq option_line
    written_endpoint none w = Takes-nil ext _
    written_endpoint (some e) w =
        Takes-key_line ext "Endpoint" e _ (at_peer i bs (with_endpoint (some e)))
          (letters-IsKey b'E' (codes "ndpoint") refl) w
          (λ n. peer_entry i bs (with_psk p.preshared_key) (with_endpoint (some e)) _ _ n refl)

    written_allowed :
        (l : List Text)
        → All IsItem l
        → Takes ext
            (list_line "AllowedIPs" l)
            (at_peer i bs (with_endpoint p.endpoint))
            (at_peer i bs (with_allowed l))
    unfolding parse_peer_kv peer_key set_peer text_beq list_line
    written_allowed [] w = Takes-nil ext _
    written_allowed (v ∷ vs) w =
        Takes-key_line ext "AllowedIPs" (join (codes ", ") (v ∷ vs)) _
          (at_peer i bs (with_allowed (v ∷ vs))) (letters-IsKey b'A' (codes "llowedIPs") refl)
          (join-IsLine v vs w)
          (λ n.
            peer_entry i bs (with_endpoint p.endpoint) (with_allowed (v ∷ vs)) _ _ n
              (rw (items_again v vs w) refl))

    Takes-keepalive :
        Takes ext
          (int_line "PersistentKeepalive" p.persistent_keepalive)
          (at_peer i bs (with_allowed p.allowed_ips))
          (at_peer i bs (with_keepalive p.persistent_keepalive))
    unfolding parse_peer_kv peer_key set_peer int_at text_beq
    Takes-keepalive =
        Takes-int_line ext "PersistentKeepalive" p.persistent_keepalive _
          (λ n. at_peer i bs (with_keepalive n))
          (letters-IsKey b'P' (codes "ersistentKeepalive") refl) refl
          (λ m.
            peer_entry i bs (with_allowed p.allowed_ips) (with_keepalive p.persistent_keepalive) _ _
              m (rw (parse_uint-show_nat u16_max p.persistent_keepalive h.keepalive) refl))

    Takes-peer_header :
        (place : Section)
        → Takes ext
            (codes "\n[Peer]\n")
            (record { section = place; iface = i; peers = bs })
            (at_peer i bs default_peer)
    unfolding lines lines_from parse_lines take_line line_kind trim text_beq
    Takes-peer_header place = record { taken = λ rest n. (suc (suc n), refl) }

    -- What is read of a written peer: everything but its name.
    pub Takes-export_peer :
        (place : Section)
        → Takes ext
            (export_peer ext p)
            (record { section = place; iface = i; peers = bs })
            (at_peer i bs (read_peer p))
    unfolding export_peer export_psk
    Takes-export_peer place =
        Takes-append
          (Takes-append
            (Takes-append
              (Takes-append
                (Takes-append
                  (Takes-append (Takes-peer_header place)
                    (Takes-name p (at_peer i bs default_peer) h))
                  Takes-public_key)
                (written_psk p.preshared_key h.preshared_key))
              (written_endpoint p.endpoint h.endpoint))
            (written_allowed p.allowed_ips h.allowed_ips))
          Takes-keepalive
