-- ===== src/Core/WgQuick/Lines.antt =====
-- The loop of `load_from_str` in ferro-wg-core/src/config/wg_quick.rs: what holds between two lines,
-- and where an error of the loop stands.
use ferro_wg.Prelude.{
  ℕ, suc, ◌+◌, ◌≤◌, List, [], ◌∷◌, ◌++◌, ◌≡◌, ◌≢◌, refl, sym, arith, String, Text, Result, ok, err,
  Result-cases, Option-cases, inl, inr, length, All, All-append,
}
use ferro_wg.External.{External}
use ferro_wg.Text.Trim.{trim}
use ferro_wg.Text.Split.{split, split_once}
use ferro_wg.Text.Number.{parse_uint, u16_max, u32_max, parse_uint-le-max}
use ferro_wg.Core.Error.{ConfigError, wg_quick_parse}
use ferro_wg.Core.WgQuick.Builder.{
  InterfaceBuilder, PeerBuilder, default_peer, split_kv, parse_interface_kv, parse_peer_kv,
  InterfaceKey, PeerKey, interface_key, peer_key, set_interface, set_peer, add_dns, int_at,
}
use ferro_wg.Core.WgQuick.Parse.{
  Section, no_section, interface_section, peer_section, Stop, invalid, ParseState, initial,
  parse_last, entry, LineKind, skipped, interface_header, peer_header, key_value, line_kind,
  take_line, parse_lines,
}

-- The numbers of a builder fit their widths.
pub record IsRangedInterface (b : InterfaceBuilder) : Type 0 where
  pub listen_port : b.listen_port ≤ u16_max
  pub mtu : b.mtu ≤ u16_max
  pub fwmark : b.fwmark ≤ u32_max

abbrev pub IsRangedPeer : PeerBuilder → Type 0
IsRangedPeer b = b.persistent_keepalive ≤ u16_max

-- A result of reading line `n`: a value with the property, or an error about that line.
abbrev ReadsAt {ℓ} : {A : Type ℓ} → ℕ → (A → Type 0) → Result A ConfigError → Type 0
ReadsAt n P (ok a) = P a
ReadsAt n P (err (wg_quick_parse m r)) = m ≡ n
ReadsAt n P (err _) = ⊥

int_at-ReadsAt :
    (n : ℕ) (name : String) (max : ℕ) (v : Text) → ReadsAt n (λ k. k ≤ max) (int_at n name max v)
unfolding int_at
int_at-ReadsAt n name max v = elim (Result-cases (parse_uint max v)) [
  | inl (k, e) ↦ rw e (parse_uint-le-max max v k e)
  | inr (x, e) ↦ rw e refl
]

module _ (ext : External) where
  add_dns_keeps :
      (ts : List Text) (b : InterfaceBuilder)
      → IsRangedInterface b
      → IsRangedInterface (add_dns ext ts b)
  unfolding add_dns
  add_dns_keeps [] b h = h
  add_dns_keeps (t ∷ ts) b h = add_dns_keeps ts _ (ground arith)

  set_interface-ReadsAt :
      (k : InterfaceKey) (v : Text) (n : ℕ) (b : InterfaceBuilder)
      → IsRangedInterface b
      → ReadsAt n IsRangedInterface (set_interface ext k v n b)
  unfolding set_interface
  set_interface-ReadsAt InterfaceKey.private_key v n b h = ground arith
  set_interface-ReadsAt InterfaceKey.listen_port v n b h =
      ground (arith, int_at-ReadsAt n "ListenPort" u16_max v)
  set_interface-ReadsAt InterfaceKey.dns v n b h = add_dns_keeps (split b',' v) b h
  set_interface-ReadsAt InterfaceKey.mtu v n b h = ground (arith, int_at-ReadsAt n "MTU" u16_max v)
  set_interface-ReadsAt InterfaceKey.fwmark v n b h =
      ground (arith, int_at-ReadsAt n "FwMark" u32_max v)
  set_interface-ReadsAt _ v n b h = ground arith

  set_peer-ReadsAt :
      (k : PeerKey) (v : Text) (n : ℕ) (b : PeerBuilder)
      → IsRangedPeer b
      → ReadsAt n IsRangedPeer (set_peer ext k v n b)
  unfolding set_peer
  set_peer-ReadsAt PeerKey.persistent_keepalive v n b h =
      ground (arith, int_at-ReadsAt n "PersistentKeepalive" u16_max v)
  set_peer-ReadsAt _ v n b h = ground arith

  parse_interface_kv-ReadsAt :
      (b : InterfaceBuilder) (key v : Text) (n : ℕ)
      → IsRangedInterface b
      → ReadsAt n IsRangedInterface (parse_interface_kv ext b key v n)
  unfolding parse_interface_kv
  parse_interface_kv-ReadsAt b key v n h = elim (Option-cases (interface_key key)) [
    | inl e ↦ rw e refl
    | inr (k, e) ↦ rw e (set_interface-ReadsAt k v n b h)
  ]

  parse_peer_kv-ReadsAt :
      (b : PeerBuilder) (key v : Text) (n : ℕ)
      → IsRangedPeer b
      → ReadsAt n IsRangedPeer (parse_peer_kv ext b key v n)
  unfolding parse_peer_kv
  parse_peer_kv-ReadsAt b key v n h = elim (Option-cases (peer_key key)) [
    | inl e ↦ rw e refl
    | inr (k, e) ↦ rw e (set_peer-ReadsAt k v n b h)
  ]

-- What holds between two lines: behind a `[Peer]` header there is a peer to fill.
pub record IsReady (s : ParseState) : Type 0 where
  pub some_peer : s.section ≡ peer_section → s.peers ≢ []
  pub iface : IsRangedInterface s.iface
  pub peers : All IsRangedPeer s.peers

-- A result of the lines from `lo` on, up to `hi`: never the unreachable place.
abbrev pub RunsIn {ℓ} : {A : Type ℓ} → ℕ → ℕ → (A → Type 0) → Result A Stop → Type 0
RunsIn lo hi P (ok a) = P a
RunsIn lo hi P (err (invalid (wg_quick_parse n r))) = (lo ≤ n) × (n ≤ hi)
RunsIn lo hi P (err _) = ⊥

module _ (ext : External) where
  parse_last-RunsIn :
      (bs : List PeerBuilder) (key v : Text) (n : ℕ)
      → bs ≢ []
      → All IsRangedPeer bs
      → RunsIn n n (λ bs'. (bs' ≢ []) × All IsRangedPeer bs') (parse_last ext bs key v n)
  unfolding parse_last
  parse_last-RunsIn [] key v n ne h = absurd (ne refl)
  parse_last-RunsIn (b ∷ []) key v n ne h =
      ground (arith, parse_peer_kv-ReadsAt ext b key v n (h.0))
  parse_last-RunsIn (b ∷ c ∷ bs) key v n ne h =
      ground (arith, parse_last-RunsIn (c ∷ bs) key v n (λ e. cc e) (h.1))

  entry-RunsIn :
      (sec : Section) (key v : Text) (n : ℕ) (s : ParseState)
      → sec ≡ s.section
      → IsReady s
      → RunsIn n n IsReady (entry ext sec key v n s)
  unfolding entry
  entry-RunsIn no_section key v n s e h = ground arith
  entry-RunsIn interface_section key v n s e h =
      ground (arith, parse_interface_kv-ReadsAt ext s.iface key v n h.iface)
  entry-RunsIn peer_section key v n s e h =
      ground (arith, parse_last-RunsIn s.peers key v n (h.some_peer (sym e)) h.peers)

  split_kv-ReadsAt : (line : Text) (n : ℕ) → ReadsAt n (λ kv. Unit {0}) (split_kv line n)
  unfolding split_kv
  split_kv-ReadsAt line n = elim (Option-cases (split_once b'=' line)) [
    | inl e ↦ rw e refl
    | inr (kv, e) ↦ rw e tt
  ]

  append_ne_nil : (bs : List PeerBuilder) (b : PeerBuilder) → bs ++ b ∷ [] ≢ []
  append_ne_nil [] b = λ e. cc e
  append_ne_nil (c ∷ bs) b = λ e. cc e

  take_line-RunsIn :
      (k : LineKind) (n : ℕ) (line : Text) (s : ParseState)
      → IsReady s
      → RunsIn n n IsReady (take_line ext k n line s)
  unfolding take_line
  take_line-RunsIn skipped n line s h = h
  take_line-RunsIn interface_header n line s h = record {
    some_peer = λ e. cc e;
    iface = h.iface;
    peers = h.peers;
  }
  take_line-RunsIn peer_header n line s h = record {
    some_peer = λ e. append_ne_nil s.peers default_peer;
    iface = h.iface;
    peers = All-append IsRangedPeer s.peers (default_peer ∷ []) h.peers (omega arith, tt);
  }
  take_line-RunsIn key_value n line s h = elim (Result-cases (split_kv line n)) [
    | inl (kv, e) ↦ rw e (entry-RunsIn s.section (kv.0) (kv.1) n s refl h)
    | inr (x, e) ↦ ground (arith, e, split_kv-ReadsAt line n)
  ]

  pub parse_lines-RunsIn :
      (hi n : ℕ) (ls : List Text) (s : ParseState)
      → IsReady s
      → 1 ≤ n
      → n + length ls ≤ hi + 1
      → RunsIn 1 hi IsReady (parse_lines ext n ls s)
  unfolding parse_lines
  parse_lines-RunsIn hi n [] s h low high = h
  parse_lines-RunsIn hi n (l ∷ ls) s h low high =
      let step = take_line-RunsIn (line_kind (trim l)) n (trim l) s h in
      elim (Result-cases (take_line ext (line_kind (trim l)) n (trim l) s)) [
        | inl (s', e) ↦
            rw e (parse_lines-RunsIn hi (suc n) ls s' (rw e at step) (omega arith) (omega arith))
        | inr (x, e) ↦ ground (arith, e, step)
      ]

  pub initial-IsReady : IsReady initial
  initial-IsReady = record {
    some_peer = λ e. cc e;
    iface = record { listen_port = omega arith; mtu = omega arith; fwmark = omega arith };
    peers = tt;
  }
