-- ===== src/Core/Tunnel/Updown.antt =====
-- ferro-wg-core/src/tunnel/mod.rs: `up`, `down`, `up_all`, `down_all` and `status`. The state is the
-- manager and the system that it works on.
use ferro_wg.Prelude.{
  Bool, true, false, ◌||◌, List, [], ◌∷◌, map, Text, Option, none, some, ok, ok_or, if◌then◌else◌,
  lookup, map_insert, text_eq,
}
use ferro_wg.Prelude.Effect.{Eff, ◌>>=◌, ◌>>◌, pure, lift, gets, ignore, for_each}
use ferro_wg.External.{External}
use ferro_wg.Core.Error.{WgError, BackendKind, tunnel_error, not_up}
use ferro_wg.Core.Config.{PeerConfig, WgConfig, get, connection_names}
use ferro_wg.Core.Os.{Os}
use ferro_wg.Core.Tunnel.Manager.{ActiveConnection, TunnelManager, remove_entry, is_active}
use ferro_wg.Core.Tunnel.Target.{find_target}
use ferro_wg.Core.Tunnel.Opening.{open_tunnel}
use ferro_wg.Core.Tunnel.Route.{remove_route}
use ferro_wg.Core.Tunnel.Dns.{remove_dns}
use ferro_wg.Core.Tunnel.Dns.State.{DnsState}

pub record Sys (os : Os) : Type 0 where
  pub manager : TunnelManager
  pub world : os.World

unfoldable pub has_dns : List (Text × ActiveConnection) → Bool
has_dns [] = false
has_dns ((_, c) ∷ conns) = (elim c.dns_state [ none ↦ false | some _ ↦ true ]) || has_dns conns

-- A call of the system leaves the manager.
module _ (os : Os) where
  unfoldable pub on_world : {E : Type 0} {A : Type 0} → Eff os.World E A → Eff (Sys os) E A
  on_world m s = let r = m s.world in (r.0, record s { world = r.1 })

  unfoldable pub set_connections : List (Text × ActiveConnection) → Eff (Sys os) WgError (Unit {0})
  set_connections conns s = (ok tt, record s { manager = record s.manager { connections = conns } })

  unfoldable pub remove_peer_routes : PeerConfig → Eff os.World WgError (Unit {0})
  remove_peer_routes peer = for_each (λ cidr. ignore (remove_route os cidr)) peer.allowed_ips

  -- The connection's routes, when the configuration still has it.
  unfoldable pub remove_routes : Option WgConfig → Eff os.World WgError (Unit {0})
  remove_routes none = pure tt
  remove_routes (some wg_config) = for_each remove_peer_routes wg_config.peers

  unfoldable pub signal_shutdown : ActiveConnection → Eff os.World WgError (Unit {0})
  signal_shutdown conn w = (ok tt, os.send_shutdown conn.packet_loop w)

module _ (os : Os) (ext : External) where
  -- `others` are the connections that stay up.
  unfoldable pub revert_dns :
      List (Text × ActiveConnection) → Option DnsState → Eff os.World WgError (Unit {0})
  revert_dns others none = pure tt
  revert_dns others (some state) =
      if has_dns others then pure tt else ignore (remove_dns os ext state)

  unfoldable pub up : Text → BackendKind → Eff (Sys os) WgError (Unit {0})
  up conn_name kind = do
    found ← gets (λ s. find_target s.manager conn_name)
    target ← lift found
    conn ← on_world os (open_tunnel os ext kind target)
    connections ← gets (λ s. s.manager.connections)
    set_connections os (map_insert conn_name conn connections)

  unfoldable pub down : Text → Eff (Sys os) WgError (Unit {0})
  down conn_name = do
    connections ← gets (λ s. s.manager.connections)
    conn ← lift (ok_or (lookup conn_name connections) (tunnel_error (not_up conn_name)))
    set_connections os (remove_entry conn_name connections)
    on_world os (signal_shutdown os conn)
    wg_config ← gets (λ s. get s.manager.config conn_name)
    on_world os (remove_routes os wg_config)
    on_world os (revert_dns (remove_entry conn_name connections) conn.dns_state)

  unfoldable pub up_missing : BackendKind → Text → Eff (Sys os) WgError (Unit {0})
  up_missing kind name = do
    active ← gets (λ s. is_active name s.manager.connections)
    if active then pure tt else up name kind

  unfoldable pub up_all : BackendKind → Eff (Sys os) WgError (Unit {0})
  up_all kind = do
    names ← gets (λ s. connection_names s.manager.config)
    for_each (up_missing kind) names

  unfoldable pub down_all : Eff (Sys os) WgError (Unit {0})
  down_all = do
    names ← gets (λ s. map (λ c. c.0) s.manager.connections)
    for_each (λ name. ignore (down name)) names
