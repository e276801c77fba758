-- ===== src/Core/Config.antt =====
-- ferro-wg-core/src/config/mod.rs: the configuration types and their validation. A `u16` or `u32`
-- field is a number with its range in `IsRanged`; a `BTreeMap` is the list of its entries in the
-- order of its keys.
pub mod Valid
use ferro_wg.Prelude.{
  ℕ, zero, suc, ◌+◌, ◌≤◌, ◌<◌, String, Bool, true, false, not, ◌&&◌, ◌||◌, List, [], ◌∷◌, map, Text,
  Option, none, some, Result, ok, err, ◌>>=◌, ◌>>◌, map_err, is_empty, find?, All, ltb, leb, ◌==◌,
  nat_eq, text_eq, if◌then◌else◌, lookup,
}
use ferro_wg.External.{IpAddr}
use ferro_wg.Text.Number.{u16_max, u32_max}
use ferro_wg.Text.Order.{text_ltb, byte_len}
use ferro_wg.Core.Key.{PrivateKey, PublicKey, PresharedKey}
use ferro_wg.Core.Error.{
  ConfigError, missing_field, invalid_value, name_empty, name_too_long, name_bad_char, of_peer,
  peer_no_allowed_ips, of_connection,
}

abbrev pub max_name_len : ℕ
max_name_len = 64

unfoldable pub is_name_char : ℕ → Bool
is_name_char c =
    leb b'a' c && leb c b'z'
    || leb b'A' c && leb c b'Z'
    || leb b'0' c && leb c b'9'
    || c == b'-'
    || c == b'_'

pub record InterfaceConfig : Type 0 where
  pub private_key : PrivateKey
  pub listen_port : ℕ
  pub addresses : List Text
  pub dns : List IpAddr
  pub dns_search : List Text
  pub mtu : ℕ
  pub fwmark : ℕ
  pub pre_up : List Text
  pub post_up : List Text
  pub pre_down : List Text
  pub post_down : List Text

pub record PeerConfig : Type 0 where
  pub name : Text
  pub public_key : PublicKey
  pub preshared_key : Option PresharedKey
  pub endpoint : Option Text
  pub allowed_ips : List Text
  pub persistent_keepalive : ℕ

pub record WgConfig : Type 0 where
  pub interface : InterfaceConfig
  pub peers : List PeerConfig

pub record LogDisplayConfig : Type 0 where
  pub show_timestamps : Bool
  pub color_badges : Bool

abbrev pub default_log_display : LogDisplayConfig
default_log_display = record { show_timestamps = true; color_badges = true }

pub record AppConfig : Type 0 where
  pub connections : List (Text × WgConfig)
  pub log_display : LogDisplayConfig

-- What the field types `u16` and `u32` say of their values.
pub record IsRanged (c : WgConfig) : Type 0 where
  pub listen_port : c.interface.listen_port ≤ u16_max
  pub mtu : c.interface.mtu ≤ u16_max
  pub fwmark : c.interface.fwmark ≤ u32_max
  pub keepalive : All (λ (p : PeerConfig). p.persistent_keepalive ≤ u16_max) c.peers

check_chars : String → Text → Option ℕ → Result (Unit {0}) ConfigError
check_chars field name none = ok tt
check_chars field name (some bad) = err (invalid_value field (name_bad_char name bad))

unfoldable pub validate_name : String → Text → Result (Unit {0}) ConfigError
unfolding check_chars is_name_char
validate_name field name =
    if is_empty name
    then err (invalid_value field name_empty)
    else if ltb max_name_len (byte_len name)
    then err (invalid_value field (name_too_long name))
    else check_chars field name (find? (λ c. not (is_name_char c)) name)

-- A peer may go without a name.
check_peer_name : ℕ → Text → Result (Unit {0}) ConfigError
check_peer_name i name =
    if is_empty name
    then ok tt
    else map_err (λ e. invalid_value "peer.name" (of_peer i e)) (validate_name "peer.name" name)

check_allowed_ips : ℕ → List Text → Result (Unit {0}) ConfigError
check_allowed_ips i ips =
    if is_empty ips then err (invalid_value "allowed_ips" (peer_no_allowed_ips i)) else ok tt

-- The body of the loop over the peers.
unfoldable pub validate_peer : ℕ → PeerConfig → Result (Unit {0}) ConfigError
unfolding check_peer_name check_allowed_ips
validate_peer i peer = do check_peer_name i peer.name; check_allowed_ips i peer.allowed_ips

unfoldable pub validate_peers : ℕ → List PeerConfig → Result (Unit {0}) ConfigError
validate_peers i [] = ok tt
validate_peers i (peer ∷ peers) = do validate_peer i peer; validate_peers (suc i) peers

unfoldable pub validate : WgConfig → Result (Unit {0}) ConfigError
validate c = if is_empty c.peers then err (missing_field "peers") else validate_peers 0 c.peers

unfoldable pub validate_connections : List (Text × WgConfig) → Result (Unit {0}) ConfigError
validate_connections [] = ok tt
validate_connections ((name, conn) ∷ rest) = do
  map_err (λ e. invalid_value "connection name" (of_connection name e))
      (validate_name "connection name" name)
  map_err (λ e. invalid_value "connections" (of_connection name e)) (validate conn)
  validate_connections rest

unfoldable pub validate_app : AppConfig → Result (Unit {0}) ConfigError
validate_app a =
    if is_empty a.connections
    then err (missing_field "connections")
    else validate_connections a.connections

unfoldable pub get : AppConfig → Text → Option WgConfig
get a name = lookup name a.connections

unfoldable pub connection_names : AppConfig → List Text
connection_names a = map (λ c. c.0) a.connections

-- `BTreeMap::insert`
unfoldable pub insert_entry : Text → WgConfig → List (Text × WgConfig) → List (Text × WgConfig)
insert_entry k v [] = (k, v) ∷ []
insert_entry k v ((j, w) ∷ m) =
    if k == j
    then (k, v) ∷ m
    else if text_ltb k j
    then (k, v) ∷ (j, w) ∷ m
    else (j, w) ∷ insert_entry k v m

unfoldable pub insert : AppConfig → Text → WgConfig → AppConfig
insert a name config = record a { connections = insert_entry name config a.connections }
