-- ===== src/Core/Tunnel/Dns.antt =====
-- ferro-wg-core/src/tunnel/dns.rs: DNS servers and search domains while a tunnel is up. The source
-- has one `imp` module for each platform; here they are Dns/Macos and Dns/Linux, and the state has
-- a constructor for each.
pub mod State
pub mod Macos
pub mod Linux
use ferro_wg.Prelude.{List, Bool, ◌&&◌, Text, Option, none, some, is_empty, if◌then◌else◌}
use ferro_wg.Prelude.Effect.{Eff, ◌>>=◌, pure}
use ferro_wg.External.{External, IpAddr}
use ferro_wg.Core.Error.{DnsError}
use ferro_wg.Core.Os.{Os, Platform, macos, linux, other_os}
use ferro_wg.Core.Tunnel.Dns.Macos
use ferro_wg.Core.Tunnel.Dns.Linux
use ferro_wg.Core.Tunnel.Dns.State.{DnsState, on_macos, resolved, resolv_conf}

module _ (os : Os) (ext : External) where
  unfoldable pub apply_imp :
      Platform → Text → List IpAddr → List Text → Eff os.World DnsError (Option DnsState)
  apply_imp macos iface servers domains = do
    state ← Macos.apply os ext servers domains
    pure (some state)
  apply_imp linux iface servers domains = do
    state ← Linux.apply os ext iface servers domains
    pure (some state)
  apply_imp other_os iface servers domains = pure none

  unfoldable pub apply_dns :
      Text → List IpAddr → List Text → Eff os.World DnsError (Option DnsState)
  apply_dns iface servers domains =
      if is_empty servers && is_empty domains
      then pure none
      else apply_imp os.platform iface servers domains

  unfoldable pub remove_dns : DnsState → Eff os.World DnsError (Unit {0})
  remove_dns (on_macos service_name original) = Macos.revert os ext service_name original
  remove_dns (resolved iface) = Linux.revert_resolved os iface
  remove_dns (resolv_conf backup) = Linux.write_resolv_conf os backup
