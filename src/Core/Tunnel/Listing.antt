-- ===== src/Core/Tunnel/Listing.antt =====
-- `status` of ferro-wg-core/src/tunnel/mod.rs: the configured connections, each with whether it is up.
use ferro_wg.Prelude.{
  List, [], ◌∷◌, map, ◌≡◌, refl, ap, Text, Option, none, some, lookup, All, text_eq, arith,
}
use ferro_wg.Core.Error.{BackendKind}
use ferro_wg.Core.Config.{WgConfig, connection_names}
use ferro_wg.Core.Ipc.{PeerStatus}
use ferro_wg.Core.Os.{Os}
use ferro_wg.Core.Tunnel.Manager.{ActiveConnection, TunnelManager, is_active}
use ferro_wg.Core.Tunnel.Updown.{Sys}
use ferro_wg.Core.Tunnel.Status.{peer_status, status}
use ferro_wg.Core.Tunnel.View.{backend_of}

-- A status that says of its connection what the manager knows.
abbrev pub Tells : TunnelManager → PeerStatus → Type 0
Tells m p =
    (p.connected ≡ is_active p.name m.connections)
    × ((k : BackendKind) → backend_of p.name m ≡ some k → p.backend ≡ k)

module _ (os : Os) where
  peer_status-name :
      (w : os.World) (name : Text) (c : WgConfig) (o : Option ActiveConnection)
      → (peer_status os w name c o).name ≡ name
  unfolding peer_status
  peer_status-name w name c none = refl
  peer_status-name w name c (some a) = refl

  peer_status-Tells :
      (m : TunnelManager) (w : os.World) (name : Text) (c : WgConfig) (o : Option ActiveConnection)
      → lookup name m.connections ≡ o
      → Tells m (peer_status os w name c o)
  unfolding peer_status is_active backend_of
  peer_status-Tells m w name c none e = (ground (arith, e), λ k h. ground (arith, e, h))
  peer_status-Tells m w name c (some a) e = (ground (arith, e), λ k h. ground (arith, e, h))

  each_status :
      (m : TunnelManager) (w : os.World) (conns : List (Text × WgConfig))
      → (map
            (λ p. p.name)
            (map
              (λ (c : Text × WgConfig). peer_status os w c.0 c.1 (lookup c.0 m.connections))
              conns)
          ≡ map (λ c. c.0) conns)
        × All (Tells m) (
            map
              (λ (c : Text × WgConfig). peer_status os w c.0 c.1 (lookup c.0 m.connections))
              conns)
  each_status m w [] = (refl, tt)
  each_status m w ((name, c) ∷ conns) =
      let rest = each_status m w conns in
      (
        rw (peer_status-name w name c (lookup name m.connections)) (ap (λ ns. name ∷ ns) rest.0),
        (peer_status-Tells m w name c (lookup name m.connections) refl, rest.1),
      )

  -- The status lists the configured connections in order, each connected exactly when it is up, and
  -- then with the backend that it runs on.
  pub status_lem :
      (s : Sys os)
      → (map (λ p. p.name) (status os s) ≡ connection_names s.manager.config)
        × All (Tells s.manager) (status os s)
  unfolding status connection_names
  status_lem s = each_status s.manager s.world s.manager.config.connections
