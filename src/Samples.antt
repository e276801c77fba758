-- ===== src/Samples.antt =====
-- Test data: small stand-ins for the third-party functions, and configurations to run on.
use ferro_wg.Prelude.{
  String, ◌||◌, ◌&&◌, [], ◌∷◌, Text, Option, none, some, ok, codes, leb, ◌==◌, text_eq,
  if◌then◌else◌, replicate,
}
use ferro_wg.Text.Trim.{to_ascii_lowercase}
use ferro_wg.External.{External, IpAddr, v4}
use ferro_wg.Core.Config.{InterfaceConfig, PeerConfig, WgConfig, AppConfig, default_log_display}
use ferro_wg.Core.Toml.{Printer}
use ferro_wg.Tui.State.Types.{Clock}

-- Two addresses are enough here.
abbrev pub sample_parse_ip : Text → Option IpAddr
sample_parse_ip s =
    if s == codes "10.0.0.1"
    then some (v4 0x0a000001)
    else if s == codes "10.0.0.2"
    then some (v4 0x0a000002)
    else none

abbrev pub sample_ext : External
sample_ext = record {
  base64_encode = λ bytes. bytes;
  base64_decode = λ s. ok s;
  parse_ip = sample_parse_ip;
  show_ip = λ ip. codes "10.0.0.1";
  is_alphanumeric = λ c. leb b'0' c && leb c b'9' || leb b'a' c && leb c b'z';
  to_lowercase = to_ascii_lowercase;
}

abbrev pub sample_toml : Text
sample_toml = codes "[interface]\nlisten_port = 51820\n"

abbrev pub sample_printer : Printer WgConfig
sample_printer c = ok sample_toml

abbrev pub sample_interface : InterfaceConfig
sample_interface = record {
  private_key = record { bytes = replicate 32 7 };
  listen_port = 51820;
  addresses = codes "10.0.0.1/24" ∷ [];
  dns = [];
  dns_search = [];
  mtu = 1420;
  fwmark = 0;
  pre_up = [];
  post_up = [];
  pre_down = [];
  post_down = [];
}

abbrev pub sample_peer : String → String → PeerConfig
sample_peer name ip = record {
  name = codes name;
  public_key = record { bytes = replicate 32 9 };
  preshared_key = none;
  endpoint = none;
  allowed_ips = codes ip ∷ [];
  persistent_keepalive = 25;
}

abbrev pub sample_config : WgConfig
sample_config = record {
  interface = sample_interface;
  peers = sample_peer "hub" "10.0.0.1/32" ∷ sample_peer "edge" "10.0.0.2/32" ∷ [];
}

abbrev pub sample_app : AppConfig
sample_app = record {
  connections = (codes "lab", sample_config) ∷ (codes "mia", sample_config) ∷ [];
  log_display = default_log_display;
}

abbrev pub sample_clock : Clock
sample_clock = record { now = 5000000000; unix_ms = 1700000000000 }
