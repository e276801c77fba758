-- ===== src/Core/Tunnel/Socket.antt =====
-- ferro-wg-core/src/tunnel/udp.rs, tun_device.rs and `create_backend` of backend/mod.rs: the parts
-- a packet loop is made of.
use ferro_wg.Prelude.{ℕ, List, [], ◌∷◌, ◌++◌, Text, Result, ok, err, map_err, codes, if◌then◌else◌}
use ferro_wg.Prelude.Effect.{Eff, ◌>>=◌, lift, with_err}
use ferro_wg.Text.Number.{show_nat}
use ferro_wg.Core.Error.{
  WgError, tunnel_error, backend_unavailable, BackendKind, resolve_failed, no_addresses,
  bad_bind_address, bind_failed, tun_create_failed, tun_name_failed,
}
use ferro_wg.Core.Backend.{TunnelConfig}
use ferro_wg.Core.Os.{Os, SocketAddr}

unfoldable pub first_address : Text → List SocketAddr → Result SocketAddr WgError
first_address endpoint [] = err (tunnel_error (no_addresses endpoint))
first_address endpoint (addr ∷ _) = ok addr

module _ (os : Os) where
  unfoldable pub resolve_endpoint : Text → Eff os.World WgError SocketAddr
  resolve_endpoint endpoint = do
    addrs ← with_err (λ e. tunnel_error (resolve_failed endpoint e)) (os.lookup_host endpoint)
    lift (first_address endpoint addrs)

  unfoldable pub create_udp_socket : ℕ → Eff os.World WgError ℕ
  create_udp_socket port = do
    bind_addr ← lift (
        map_err (λ e. tunnel_error (bad_bind_address e))
          (os.parse_socket_addr (codes "0.0.0.0:" ++ show_nat port)))
    with_err (λ e. tunnel_error (bind_failed port e)) (os.bind_udp bind_addr)

  unfoldable pub create_tun : Eff os.World WgError ℕ
  create_tun = with_err (λ e. tunnel_error (tun_create_failed e)) os.create_as_async

  unfoldable pub get_tun_name : ℕ → Eff os.World WgError Text
  get_tun_name device w =
      (map_err (λ e. tunnel_error (tun_name_failed e)) (os.tun_name device w), w)

  unfoldable pub create_backend : BackendKind → TunnelConfig → Eff os.World WgError ℕ
  create_backend kind config =
      if os.has_feature kind
      then os.new_backend kind config
      else lift (err (backend_unavailable kind))
