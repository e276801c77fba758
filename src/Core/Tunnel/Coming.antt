-- ===== src/Core/Tunnel/Coming.antt =====
-- Bringing a connection up: `up` of ferro-wg-core/src/tunnel/mod.rs adds that connection and no
-- other, or leaves the manager as it was.
use ferro_wg.Prelude.{◌≡◌, refl, Text, Result, ok, err, map_insert, text_eq}
use ferro_wg.Prelude.Effect.{Eff, Ends, bind-Ends_all, bind-Ends_lift, ◌>>=◌, gets, bind_result}
use ferro_wg.External.{External}
use ferro_wg.Core.Error.{WgError, BackendKind}
use ferro_wg.Core.Os.{Os}
use ferro_wg.Core.Tunnel.Manager.{ActiveConnection}
use ferro_wg.Core.Tunnel.Target.{Target, find_target}
use ferro_wg.Core.Tunnel.Opening.{open_tunnel, spawn, configure, tunnel_config}
use ferro_wg.Core.Tunnel.Socket.{
  resolve_endpoint, create_udp_socket, create_tun, get_tun_name, create_backend,
}
use ferro_wg.Core.Tunnel.Dns.{apply_dns}
use ferro_wg.Core.Tunnel.Updown.{Sys, on_world, set_connections, up}
use ferro_wg.Core.Tunnel.View.{with_connection}

-- A connection that runs on the asked-for backend, to the configured endpoint.
abbrev pub IsOpened : BackendKind → Target → ActiveConnection → Type 0
IsOpened kind target c = (c.backend_kind ≡ kind) × (c.endpoint ≡ target.peer_config.endpoint)

module _ (os : Os) (ext : External) where
  opening_step :
      {A : Type 0} (kind : BackendKind) (target : Target) (r : Result A WgError × os.World)
      (f : A → Eff os.World WgError ActiveConnection)
      → ((a : A) (w : os.World) → Ends (λ c _. IsOpened kind target c) (λ _ _. Unit {0}) (f a w))
      → Ends (λ c _. IsOpened kind target c) (λ _ _. Unit {0}) (bind_result r f)
  opening_step kind target r f h = bind-Ends_all _ _ r f h (λ _ _. tt)

  open_tunnel-IsOpened :
      (kind : BackendKind) (target : Target) (w : os.World)
      → Ends (λ c _. IsOpened kind target c) (λ _ _. Unit {0}) (open_tunnel os ext kind target w)
  unfolding open_tunnel spawn
  open_tunnel-IsOpened kind target w =
      let same : (kind ≡ kind) × (target.peer_config.endpoint ≡ target.peer_config.endpoint) =
        (refl, refl) in
      let interface = target.wg_config.interface in
      opening_step kind target (resolve_endpoint os target.endpoint w) _ (λ endpoint w1.
        opening_step kind target (create_tun os w1) _ (λ tun w2.
          opening_step kind target (get_tun_name os tun w2) _ (λ name w3.
            opening_step kind target (configure os name target w3) _ (λ _ w4.
              let w5 = (apply_dns os ext name interface.dns interface.dns_search w4).1 in
              opening_step kind target (create_udp_socket os interface.listen_port w5) _
                (λ socket w6.
                  opening_step kind target (create_backend os kind (tunnel_config target) w6) _
                    (λ backend w7. same))))))

  -- What holds after `up`.
  abbrev pub IsUp : Text → BackendKind → Sys os → Sys os → Type 0
  IsUp name kind s t =
      (target : Target) × (find_target s.manager name ≡ ok target)
      × (c : ActiveConnection) × IsOpened kind target c
      × (t.manager ≡ with_connection name c s.manager)

  opened :
      (name : Text) (kind : BackendKind) (s : Sys os) (target : Target)
      (r : Result ActiveConnection WgError × os.World)
      → find_target s.manager name ≡ ok target
      → Ends (λ c _. IsOpened kind target c) (λ _ _. Unit) r
      → Ends
          (λ _ t. IsUp name kind s t)
          (λ _ t. t.manager ≡ s.manager)
          (bind_result
            (r.0, record s { world = r.1 })
            (λ conn. gets (λ t. t.manager.connections) >>= λ conns.
              set_connections os (map_insert name conn conns)))
  unfolding set_connections
  opened name kind s target (ok c, w) found h = (target, found, c, h, refl)
  opened name kind s target (err e, w) found h = refl

  -- `up` adds one connection, on the asked-for backend and with the configured endpoint, when
  -- `find_target` finds the configuration with a peer and an endpoint; or it fails and leaves the
  -- manager as it was.
  pub up-Ends :
      (name : Text) (kind : BackendKind) (s : Sys os)
      → Ends (λ _ t. IsUp name kind s t) (λ _ t. t.manager ≡ s.manager) (up os ext name kind s)
  unfolding up on_world set_connections
  up-Ends name kind s =
      bind-Ends_lift _ _ (find_target s.manager name) _ s
        (λ target found.
          opened name kind s target (open_tunnel os ext kind target s.world) found
            (open_tunnel-IsOpened kind target s.world))
        (λ _ _. refl)
