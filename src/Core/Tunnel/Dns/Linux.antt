-- ===== src/Core/Tunnel/Dns/Linux.antt =====
-- ferro-wg-core/src/tunnel/dns.rs, `imp` on Linux: `resolvectl`, else /etc/resolv.conf.
use ferro_wg.Prelude.{
  Bool, false, not, ◌||◌, List, [], ◌∷◌, ◌++◌, map, flat_map, Text, Result, ok, err, codes,
  is_empty, if◌then◌else◌,
}
use ferro_wg.Prelude.Effect.{Eff, ◌>>=◌, ◌>>◌, pure, lift, gets, with_err, attempt}
use ferro_wg.Text.Split.{join}
use ferro_wg.External.{External, IpAddr}
use ferro_wg.Core.Error.{DnsError, io, resolvectl}
use ferro_wg.Core.Os.{Os, Output}
use ferro_wg.Core.Tunnel.Dns.State.{DnsState, resolved, resolv_conf}

abbrev pub resolvectl_path : Text
resolvectl_path = codes "/usr/bin/resolvectl"

abbrev pub resolv_conf_path : Text
resolv_conf_path = codes "/etc/resolv.conf"

abbrev pub tmp_path : Text
tmp_path = codes "/etc/resolv.conf.ferro-wg.tmp"

unfoldable pub resolvectl_outcome : Output → Result (Unit {0}) DnsError
resolvectl_outcome out = if out.success then ok tt else err (resolvectl out.stderr)

unfoldable pub succeeded : Result Output Text → Bool
succeeded (ok out) = out.success
succeeded (err _) = false

unfoldable pub dns_args : External → Text → List IpAddr → List Text
dns_args ext iface servers = codes "dns" ∷ iface ∷ map ext.show_ip servers

unfoldable pub domain_args : Text → List IpAddr → List Text → List Text
domain_args iface servers domains =
    let root = if is_empty servers then [] else codes "~." ∷ [] in
    codes "domain" ∷ iface ∷ (root ++ domains)

-- The lines that are put before what /etc/resolv.conf has.
unfoldable pub prepend_text : External → List IpAddr → List Text → Text
prepend_text ext servers domains =
    flat_map (λ ip. codes "nameserver " ++ (ext.show_ip ip ++ codes "\n")) servers
    ++ (if is_empty domains
        then []
        else codes "search " ++ (join (codes " ") domains ++ codes "\n"))

module _ (os : Os) where
  unfoldable pub run_resolvectl : List Text → Eff os.World DnsError (Unit {0})
  run_resolvectl args = do
    out ← with_err io (os.run_command resolvectl_path args)
    lift (resolvectl_outcome out)

  unfoldable pub resolvectl_available : Eff os.World DnsError Bool
  resolvectl_available = do
    out ← attempt (os.run_command resolvectl_path (codes "--version" ∷ []))
    pure (succeeded out)

  unfoldable pub is_regular : Result Bool Text → Bool
  is_regular (ok symlink) = not symlink
  is_regular (err _) = not false

  unfoldable pub write_resolv_conf : Text → Eff os.World DnsError (Unit {0})
  write_resolv_conf contents = do
    regular ← gets (λ w. is_regular (os.is_symlink resolv_conf_path w))
    if regular
        then with_err io (os.write_file tmp_path contents)
          >> with_err io (os.rename tmp_path resolv_conf_path)
        else with_err io (os.write_file resolv_conf_path contents)

  unfoldable pub revert_resolved : Text → Eff os.World DnsError (Unit {0})
  revert_resolved iface = run_resolvectl (codes "revert" ∷ iface ∷ [])

module _ (os : Os) (ext : External) where
  unfoldable pub apply_resolvectl :
      Text → List IpAddr → List Text → Eff os.World DnsError (Unit {0})
  apply_resolvectl iface servers domains = do
    if is_empty servers then pure tt else run_resolvectl os (dns_args ext iface servers)
    if not (is_empty servers) || not (is_empty domains)
        then run_resolvectl os (domain_args iface servers domains)
        else pure tt

  unfoldable pub apply_resolv_conf : List IpAddr → List Text → Eff os.World DnsError Text
  apply_resolv_conf servers domains = do
    backup ← with_err io (λ w. (os.read_to_string resolv_conf_path w, w))
    write_resolv_conf os (prepend_text ext servers domains ++ backup)
    pure backup

  -- What `apply` does after `resolvectl` was tried.
  unfoldable pub fall_back :
      Text → List IpAddr → List Text → Result (Unit {0}) DnsError → Eff os.World DnsError DnsState
  fall_back iface servers domains (ok _) = pure (resolved iface)
  fall_back iface servers domains (err _) = do
    backup ← apply_resolv_conf servers domains
    pure (resolv_conf backup)

  unfoldable pub apply : Text → List IpAddr → List Text → Eff os.World DnsError DnsState
  apply iface servers domains = do
    available ← resolvectl_available os
    tried ←
        if available
        then attempt (apply_resolvectl iface servers domains)
        else pure (err (resolvectl []))
    fall_back iface servers domains tried
