-- ===== src/Core/Tunnel/Opening.antt =====
-- ferro-wg-core/src/tunnel/mod.rs, `up` from the endpoint's resolution to the spawned packet loop. What
-- an early return drops (a device, a socket) the operating system closes; that is not followed.
use ferro_wg.Prelude.{ℕ, Text, Option, none, some, Result, ok, err, ◌==◌, nat_eq, if◌then◌else◌}
use ferro_wg.Prelude.Effect.{Eff, ◌>>=◌, ◌>>◌, pure, attempt, for_each}
use ferro_wg.External.{External}
use ferro_wg.Core.Error.{WgError, DnsError, BackendKind}
use ferro_wg.Core.Backend.{TunnelConfig}
use ferro_wg.Core.Os.{Os, SocketAddr}
use ferro_wg.Core.Tunnel.Manager.{ActiveConnection}
use ferro_wg.Core.Tunnel.Target.{Target}
use ferro_wg.Core.Tunnel.Route.{set_interface_addr, add_route}
use ferro_wg.Core.Tunnel.Socket.{
  resolve_endpoint, create_udp_socket, create_tun, get_tun_name, create_backend,
}
use ferro_wg.Core.Tunnel.Dns.{apply_dns}
use ferro_wg.Core.Tunnel.Dns.State.{DnsState}

unfoldable pub tunnel_config : Target → TunnelConfig
tunnel_config target =
    let peer = target.peer_config in
    record {
      private_key = target.wg_config.interface.private_key;
      peer_public_key = peer.public_key;
      preshared_key = peer.preshared_key;
      persistent_keepalive =
          (if peer.persistent_keepalive == 0 then none else some peer.persistent_keepalive);
      index = 0;
    }

-- A failure to apply DNS is logged only.
unfoldable pub dns_or_none : Result (Option DnsState) DnsError → Option DnsState
dns_or_none (ok state) = state
dns_or_none (err _) = none

module _ (os : Os) where
  unfoldable pub spawn : ℕ → ℕ → ℕ → SocketAddr → Eff os.World WgError ℕ
  spawn tun socket backend endpoint w =
      let spawned = os.spawn_loop tun socket backend endpoint w in (ok spawned.0, spawned.1)

  -- The interface address and the routes.
  unfoldable pub configure : Text → Target → Eff os.World WgError (Unit {0})
  configure tun_name target = do
    for_each (λ addr. set_interface_addr os tun_name addr) target.wg_config.interface.addresses
    for_each (λ cidr. add_route os cidr tun_name) target.peer_config.allowed_ips

module _ (os : Os) (ext : External) where
  unfoldable pub open_tunnel : BackendKind → Target → Eff os.World WgError ActiveConnection
  open_tunnel kind target =
      let interface = target.wg_config.interface in
      do
        endpoint ← resolve_endpoint os target.endpoint
        tun ← create_tun os
        tun_name ← get_tun_name os tun
        configure os tun_name target
        applied ← attempt (apply_dns os ext tun_name interface.dns interface.dns_search)
        udp_socket ← create_udp_socket os interface.listen_port
        backend ← create_backend os kind (tunnel_config target)
        packet_loop ← spawn os tun udp_socket backend endpoint
        pure (record {
          packet_loop = packet_loop;
          backend_kind = kind;
          tun_name = tun_name;
          endpoint = target.peer_config.endpoint;
          dns_state = dns_or_none applied;
        })
