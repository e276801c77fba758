-- ===== src/Core/Error.antt =====
-- ferro-wg-core/src/error.rs. An error's message is kept as a value that has the message's parts:
-- `Reason` has a constructor for each text that the code formats.
use ferro_wg.Prelude.{ℕ, String, Text}
use ferro_wg.Text.Number.{ParseIntError}

pub data KeyError : Type 0 where
  invalid_base64 : Text → KeyError
  -- expected, actual
  invalid_length : ℕ → ℕ → KeyError

mutual
  pub data ConfigError : Type 0 where
    missing_field : String → ConfigError
    -- field, reason
    invalid_value : String → Reason → ConfigError
    addr_parse : Text → ConfigError
    toml_parse : Text → ConfigError
    -- line, counted from 1, and reason
    wg_quick_parse : ℕ → Reason → ConfigError

  pub data Reason : Type 0 where
    name_empty : Reason
    name_too_long : Text → Reason
    name_bad_char : Text → ℕ → Reason
    of_peer : ℕ → ConfigError → Reason
    peer_no_allowed_ips : ℕ → Reason
    of_connection : Text → ConfigError → Reason
    expected_key_value : Text → Reason
    outside_section : Reason
    -- the key that was being read, and what its value's parser says
    bad_key : String → KeyError → Reason
    bad_int : String → ParseIntError → Reason
    -- section, key
    unknown_key : String → Text → Reason

pub data BackendKind : Type 0 where
  boringtun neptun gotatun : BackendKind

pub data DetectionReason : Type 0 where
  default_route_failed service_order_failed : Text → DetectionReason
  no_default_interface : DetectionReason
  interface_not_listed : Text → DetectionReason

-- `DnsError` of ferro-wg-core/src/tunnel/dns.rs
pub data DnsError : Type 0 where
  io network_setup resolvectl : Text → DnsError
  -- the option that `networksetup` was asked for
  network_setup_get : String → Text → DnsError
  service_detection : DetectionReason → DnsError

-- The texts of `WgError::Tunnel`.
pub data TunnelReason : Type 0 where
  already_up not_in_config no_peers no_endpoint not_up : Text → TunnelReason
  -- the program
  exec_failed : String → Text → TunnelReason
  -- interface, address, what the program wrote
  ifconfig_failed : Text → Text → Text → TunnelReason
  -- network, interface, what the program wrote
  route_add_failed : Text → Text → Text → TunnelReason
  route_delete_failed : Text → Text → TunnelReason
  tun_create_failed tun_name_failed bad_bind_address : Text → TunnelReason
  resolve_failed : Text → Text → TunnelReason
  no_addresses : Text → TunnelReason
  bind_failed : ℕ → Text → TunnelReason
  of_dns : DnsError → TunnelReason
  of_backend : Text → TunnelReason

pub data WgError : Type 0 where
  config_error : ConfigError → WgError
  key_error : KeyError → WgError
  tunnel_error : TunnelReason → WgError
  backend_unavailable : BackendKind → WgError
