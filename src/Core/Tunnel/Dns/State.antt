-- ===== src/Core/Tunnel/Dns/State.antt =====
-- ferro-wg-core/src/tunnel/dns.rs: what `apply` keeps, so that `revert` can undo it.
use ferro_wg.Prelude.{List, Text, Option}
use ferro_wg.External.{IpAddr}

-- A field is `some` when the setting was changed.
pub record OriginalDnsConfig : Type 0 where
  pub dns : Option (List IpAddr)
  pub search : Option (List Text)

pub data DnsState : Type 0 where
  -- the network service
  on_macos : Text → OriginalDnsConfig → DnsState
  -- the interface
  resolved : Text → DnsState
  -- the contents of /etc/resolv.conf
  resolv_conf : Text → DnsState
