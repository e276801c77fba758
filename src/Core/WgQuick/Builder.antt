-- ===== src/Core/WgQuick/Builder.antt =====
-- The builders of ferro-wg-core/src/config/wg_quick.rs, and how a line's key and value fill them.
use ferro_wg.Prelude.{
  ℕ, List, [], ◌∷◌, ◌++◌, map, String, Text, Option, none, some, Result, ok, ◌>>=◌, map_err, ok_or,
  is_empty, ◌==◌, text_eq, codes, if◌then◌else◌,
}
use ferro_wg.External.{External, IpAddr}
use ferro_wg.Text.Trim.{trim, to_ascii_lowercase}
use ferro_wg.Text.Split.{split, split_once}
use ferro_wg.Text.Number.{parse_uint, u16_max, u32_max}
use ferro_wg.Core.Error.{
  ConfigError, missing_field, wg_quick_parse, expected_key_value, bad_key, bad_int, unknown_key,
}
use ferro_wg.Core.Key.{
  PrivateKey, PublicKey, PresharedKey, private_from_base64, public_from_base64,
  preshared_from_base64,
}
use ferro_wg.Core.Config.{InterfaceConfig, PeerConfig}

pub record InterfaceBuilder : Type 0 where
  pub private_key : Option PrivateKey
  pub listen_port : ℕ
  pub addresses : List Text
  pub dns : List IpAddr
  pub dns_search : List Text
  pub mtu : ℕ
  pub fwmark : ℕ
  pub pre_up : List Text
  pub post_up : List Text
  pub pre_down : List Text
  pub post_down : List Text

abbrev pub default_interface : InterfaceBuilder
default_interface = record {
  private_key = none;
  listen_port = 0;
  addresses = [];
  dns = [];
  dns_search = [];
  mtu = 0;
  fwmark = 0;
  pre_up = [];
  post_up = [];
  pre_down = [];
  post_down = [];
}

unfoldable pub build_interface : InterfaceBuilder → Result InterfaceConfig ConfigError
build_interface b = do
  key ← ok_or b.private_key (missing_field "PrivateKey")
  ok (record {
    private_key = key;
    listen_port = b.listen_port;
    addresses = b.addresses;
    dns = b.dns;
    dns_search = b.dns_search;
    mtu = b.mtu;
    fwmark = b.fwmark;
    pre_up = b.pre_up;
    post_up = b.post_up;
    pre_down = b.pre_down;
    post_down = b.post_down;
  })

pub record PeerBuilder : Type 0 where
  pub name : Text
  pub public_key : Option PublicKey
  pub preshared_key : Option PresharedKey
  pub endpoint : Option Text
  pub allowed_ips : List Text
  pub persistent_keepalive : ℕ

abbrev pub default_peer : PeerBuilder
default_peer = record {
  name = [];
  public_key = none;
  preshared_key = none;
  endpoint = none;
  allowed_ips = [];
  persistent_keepalive = 0;
}

unfoldable pub build_peer : PeerBuilder → Result PeerConfig ConfigError
build_peer b = do
  key ← ok_or b.public_key (missing_field "PublicKey")
  ok (record {
    name = b.name;
    public_key = key;
    preshared_key = b.preshared_key;
    endpoint = b.endpoint;
    allowed_ips = b.allowed_ips;
    persistent_keepalive = b.persistent_keepalive;
  })

unfoldable pub build_peers : List PeerBuilder → Result (List PeerConfig) ConfigError
build_peers [] = ok []
build_peers (b ∷ bs) = do p ← build_peer b; ps ← build_peers bs; ok (p ∷ ps)

unfoldable pub split_kv : Text → ℕ → Result (Text × Text) ConfigError
split_kv line n = do
  kv ← ok_or (split_once b'=' line) (wg_quick_parse n (expected_key_value line))
  ok (trim (kv.0), trim (kv.1))

-- The keys that the two sections know, in the order of the matches' arms.
pub data InterfaceKey : Type 0 where
  private_key listen_port address dns mtu fwmark pre_up post_up pre_down post_down : InterfaceKey

pub data PeerKey : Type 0 where
  public_key preshared_key endpoint allowed_ips persistent_keepalive : PeerKey

unfoldable pub interface_key : Text → Option InterfaceKey
interface_key key =
    let k = to_ascii_lowercase key in
    if k == codes "privatekey"
    then some InterfaceKey.private_key
    else if k == codes "listenport"
    then some InterfaceKey.listen_port
    else if k == codes "address"
    then some InterfaceKey.address
    else if k == codes "dns"
    then some InterfaceKey.dns
    else if k == codes "mtu"
    then some InterfaceKey.mtu
    else if k == codes "fwmark"
    then some InterfaceKey.fwmark
    else if k == codes "preup"
    then some InterfaceKey.pre_up
    else if k == codes "postup"
    then some InterfaceKey.post_up
    else if k == codes "predown"
    then some InterfaceKey.pre_down
    else if k == codes "postdown"
    then some InterfaceKey.post_down
    else none

unfoldable pub peer_key : Text → Option PeerKey
peer_key key =
    let k = to_ascii_lowercase key in
    if k == codes "publickey"
    then some PeerKey.public_key
    else if k == codes "presharedkey"
    then some PeerKey.preshared_key
    else if k == codes "endpoint"
    then some PeerKey.endpoint
    else if k == codes "allowedips"
    then some PeerKey.allowed_ips
    else if k == codes "persistentkeepalive"
    then some PeerKey.persistent_keepalive
    else none

-- `value.parse().map_err(..)?`
unfoldable pub int_at : ℕ → String → ℕ → Text → Result ℕ ConfigError
int_at n name max value = map_err (λ e. wg_quick_parse n (bad_int name e)) (parse_uint max value)

module _ (ext : External) where
  -- One token of a `DNS` line: an address, or else a search domain.
  unfoldable pub add_token : Text → InterfaceBuilder → InterfaceBuilder
  add_token t b = if is_empty t then b else elim (ext.parse_ip t) [
    | some ip ↦ record b { dns = b.dns ++ ip ∷ [] }
    | none ↦ record b { dns_search = b.dns_search ++ t ∷ [] }
  ]

  unfoldable pub add_dns : List Text → InterfaceBuilder → InterfaceBuilder
  unfolding add_token
  add_dns [] b = b
  add_dns (t ∷ ts) b = add_dns ts (add_token (trim t) b)

  unfoldable pub set_interface :
      InterfaceKey → Text → ℕ → InterfaceBuilder → Result InterfaceBuilder ConfigError
  set_interface InterfaceKey.private_key v n b = do
    key ← map_err (λ e. wg_quick_parse n (bad_key "PrivateKey" e)) (private_from_base64 ext v)
    ok (record b { private_key = some key })
  set_interface InterfaceKey.listen_port v n b = do
    port ← int_at n "ListenPort" u16_max v
    ok (record b { listen_port = port })
  set_interface InterfaceKey.address v n b =
      ok (record b { addresses = b.addresses ++ map trim (split b',' v) })
  set_interface InterfaceKey.dns v n b = ok (add_dns (split b',' v) b)
  set_interface InterfaceKey.mtu v n b = do
    size ← int_at n "MTU" u16_max v
    ok (record b { mtu = size })
  set_interface InterfaceKey.fwmark v n b = do
    mark ← int_at n "FwMark" u32_max v
    ok (record b { fwmark = mark })
  set_interface InterfaceKey.pre_up v n b = ok (record b { pre_up = b.pre_up ++ v ∷ [] })
  set_interface InterfaceKey.post_up v n b = ok (record b { post_up = b.post_up ++ v ∷ [] })
  set_interface InterfaceKey.pre_down v n b = ok (record b { pre_down = b.pre_down ++ v ∷ [] })
  set_interface InterfaceKey.post_down v n b = ok (record b { post_down = b.post_down ++ v ∷ [] })

  unfoldable pub set_peer : PeerKey → Text → ℕ → PeerBuilder → Result PeerBuilder ConfigError
  set_peer PeerKey.public_key v n b = do
    key ← map_err (λ e. wg_quick_parse n (bad_key "PublicKey" e)) (public_from_base64 ext v)
    ok (record b { public_key = some key })
  set_peer PeerKey.preshared_key v n b = do
    key ← map_err (λ e. wg_quick_parse n (bad_key "PresharedKey" e)) (preshared_from_base64 ext v)
    ok (record b { preshared_key = some key })
  set_peer PeerKey.endpoint v n b = ok (record b { endpoint = some v })
  set_peer PeerKey.allowed_ips v n b =
      ok (record b { allowed_ips = b.allowed_ips ++ map trim (split b',' v) })
  set_peer PeerKey.persistent_keepalive v n b = do
    seconds ← int_at n "PersistentKeepalive" u16_max v
    ok (record b { persistent_keepalive = seconds })

  unfoldable pub parse_interface_kv :
      InterfaceBuilder → Text → Text → ℕ → Result InterfaceBuilder ConfigError
  parse_interface_kv b key v n = do
    k ← ok_or (interface_key key) (wg_quick_parse n (unknown_key "Interface" key))
    set_interface k v n b

  unfoldable pub parse_peer_kv : PeerBuilder → Text → Text → ℕ → Result PeerBuilder ConfigError
  parse_peer_kv b key v n = do
    k ← ok_or (peer_key key) (wg_quick_parse n (unknown_key "Peer" key))
    set_peer k v n b
