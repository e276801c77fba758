-- ===== src/Core/Config/Valid.antt =====
-- What the validation of ferro-wg-core/src/config/mod.rs accepts, and what it reports first.
use ferro_wg.Prelude.{
  ℕ, suc, ◌≤◌, String, true, not, List, [], ◌∷◌, ◌≡◌, ◌≢◌, ◌↔◌, ◌⊎◌, inl, inr, refl, arith, Text,
  none, Result, ok, err, map_err, find?, All, ltb, Bool-cases, Option-cases, >>=-eq-ok,
}
use ferro_wg.Text.Order.{byte_len}
use ferro_wg.Core.Config.{
  WgConfig, AppConfig, PeerConfig, max_name_len, is_name_char, check_chars, check_peer_name,
  check_allowed_ips, validate_name, validate_peer, validate_peers, validate, validate_connections,
  validate_app,
}

pub record IsName (s : Text) : Type 0 where
  pub ne_nil : s ≢ []
  pub short : byte_len s ≤ max_name_len
  pub chars : All (λ c. is_name_char c ≡ true) s

-- A peer need not have a name, but it has somewhere to route to.
pub record IsValidPeer (p : PeerConfig) : Type 0 where
  pub name : (p.name ≡ []) ⊎ IsName p.name
  pub allowed_ips : p.allowed_ips ≢ []

pub record IsValidConfig (c : WgConfig) : Type 0 where
  pub some_peer : c.peers ≢ []
  pub peers : All IsValidPeer c.peers

pub record IsValidApp (a : AppConfig) : Type 0 where
  pub some_connection : a.connections ≢ []
  pub connections : All (λ (e : Text × WgConfig). IsName e.0 × IsValidConfig e.1) a.connections

find?-none :
    (s : Text) → find? (λ c. not (is_name_char c)) s ≡ none → All (λ c. is_name_char c ≡ true) s
find?-none [] h = tt
find?-none (c ∷ s) h = elim (Bool-cases (is_name_char c)) [
  | inl good ↦ (good, find?-none s (rw good at h))
  | inr bad ↦ cc (rw bad at h)
]

All-find? :
    (s : Text) → All (λ c. is_name_char c ≡ true) s → find? (λ c. not (is_name_char c)) s ≡ none
All-find? [] h = refl
All-find? (c ∷ s) h = rw (h.0) (All-find? s h.1)

chars-of-validate :
    (field : String) (s : Text)
    → check_chars field s (find? (λ c. not (is_name_char c)) s) ≡ ok tt
    → All (λ c. is_name_char c ≡ true) s
unfolding check_chars
chars-of-validate field s h = elim (Option-cases (find? (λ c. not (is_name_char c)) s)) [
  | inl e ↦ find?-none s e
  | inr (c, e) ↦ cc (rw e at h)
]

validate_name_sound :
    (field : String) (name : Text) → validate_name field name ≡ ok tt → IsName name
unfolding validate_name
validate_name_sound field [] h = cc
validate_name_sound field (c ∷ s) h = elim (Bool-cases (ltb max_name_len (byte_len (c ∷ s)))) [
  | inl long ↦ cc (rw long at h)
  | inr short ↦ record {
    ne_nil = λ e. cc e;
    short = ground arith;
    chars = chars-of-validate field (c ∷ s) (rw short at h);
  }
]

validate_name_complete :
    (field : String) (name : Text) → IsName name → validate_name field name ≡ ok tt
unfolding validate_name
validate_name_complete field [] h = absurd (h.ne_nil refl)
validate_name_complete field (c ∷ s) h = ground (arith, All-find? (c ∷ s) h.chars)

-- A name passes exactly when it is not empty, takes at most 64 bytes, and has ASCII letters,
-- digits, hyphens and underscores alone.
pub validate_name_iff :
    (field : String) (name : Text) → (validate_name field name ≡ ok tt) ↔ IsName name
validate_name_iff field name = (validate_name_sound field name, validate_name_complete field name)

map_err-eq-ok {ℓ} :
    {E F : Type ℓ} (f : E → F) (r : Result (Unit {0}) E) → map_err f r ≡ ok tt → r ≡ ok tt
map_err-eq-ok f (ok tt) h = refl
map_err-eq-ok f (err e) h = cc

check_peer_name_sound :
    (i : ℕ) (name : Text) → check_peer_name i name ≡ ok tt → (name ≡ []) ⊎ IsName name
unfolding check_peer_name
check_peer_name_sound i [] h = inl refl
check_peer_name_sound i (c ∷ s) h =
    inr (validate_name_sound "peer.name" (c ∷ s) (map_err-eq-ok _ _ h))

-- A peer's check passes exactly on a valid peer.
validate_peer_sound : (i : ℕ) (p : PeerConfig) → validate_peer i p ≡ ok tt → IsValidPeer p
unfolding validate_peer
validate_peer_sound i p h =
    let (u, name, ips) =
      >>=-eq-ok (check_peer_name i p.name) (λ _. check_allowed_ips i p.allowed_ips) h in
    record { name = check_peer_name_sound i p.name name; allowed_ips = ground arith }

validate_peer_complete : (i : ℕ) (p : PeerConfig) → IsValidPeer p → validate_peer i p ≡ ok tt
unfolding validate_peer
validate_peer_complete i p h = ground (arith, validate_name_complete "peer.name" p.name)

validate_peers_sound :
    (i : ℕ) (ps : List PeerConfig) → validate_peers i ps ≡ ok tt → All IsValidPeer ps
unfolding validate_peers
validate_peers_sound i [] h = tt
validate_peers_sound i (p ∷ ps) h =
    let (u, first, rest) = >>=-eq-ok (validate_peer i p) (λ _. validate_peers (suc i) ps) h in
    (validate_peer_sound i p first, validate_peers_sound (suc i) ps rest)

validate_peers_complete :
    (i : ℕ) (ps : List PeerConfig) → All IsValidPeer ps → validate_peers i ps ≡ ok tt
unfolding validate_peers
validate_peers_complete i [] h = refl
validate_peers_complete i (p ∷ ps) h =
    rw (validate_peer_complete i p h.0) (validate_peers_complete (suc i) ps h.1)

validate_sound : (c : WgConfig) → validate c ≡ ok tt → IsValidConfig c
unfolding validate
validate_sound c h = record {
  some_peer = ground arith;
  peers = validate_peers_sound 0 c.peers (ground arith);
}

validate_complete : (c : WgConfig) → IsValidConfig c → validate c ≡ ok tt
unfolding validate
validate_complete c h = ground (arith, validate_peers_complete 0 c.peers h.peers)

-- `WgConfig::validate` accepts exactly the configurations with a peer, in which every peer has an
-- allowed address and a proper name or none.
pub validate_iff : (c : WgConfig) → (validate c ≡ ok tt) ↔ IsValidConfig c
validate_iff c = (validate_sound c, validate_complete c)

validate_connections_sound :
    (m : List (Text × WgConfig))
    → validate_connections m ≡ ok tt
    → All (λ (e : Text × WgConfig). IsName e.0 × IsValidConfig e.1) m
unfolding validate_connections
validate_connections_sound [] h = tt
validate_connections_sound ((name, conn) ∷ m) h =
    let (u, named, h') = >>=-eq-ok (map_err _ (validate_name "connection name" name)) _ h in
    let (v, valid, rest) = >>=-eq-ok (map_err _ (validate conn)) _ h' in
    (
      (
        validate_name_sound "connection name" name (map_err-eq-ok _ _ named),
        validate_sound conn (map_err-eq-ok _ _ valid),
      ),
      validate_connections_sound m rest,
    )

validate_connections_complete :
    (m : List (Text × WgConfig))
    → All (λ (e : Text × WgConfig). IsName e.0 × IsValidConfig e.1) m
    → validate_connections m ≡ ok tt
unfolding validate_connections
validate_connections_complete [] h = refl
validate_connections_complete ((name, conn) ∷ m) h =
    rw (validate_name_complete "connection name" name h.0.0)
      (rw (validate_complete conn h.0.1) (validate_connections_complete m h.1))

validate_app_sound : (a : AppConfig) → validate_app a ≡ ok tt → IsValidApp a
unfolding validate_app
validate_app_sound a h = record {
  some_connection = ground arith;
  connections = validate_connections_sound a.connections (ground arith);
}

validate_app_complete : (a : AppConfig) → IsValidApp a → validate_app a ≡ ok tt
unfolding validate_app
validate_app_complete a h =
    ground (arith, validate_connections_complete a.connections h.connections)

-- `AppConfig::validate` accepts exactly the configurations with a connection, in which every
-- connection has a proper name and a valid configuration.
pub validate_app_iff : (a : AppConfig) → (validate_app a ≡ ok tt) ↔ IsValidApp a
validate_app_iff a = (validate_app_sound a, validate_app_complete a)
