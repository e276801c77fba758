-- ===== src/Core/Tunnel/Status.antt =====
-- ferro-wg-core/src/tunnel/mod.rs: `status`.
use ferro_wg.Prelude.{List, map, Text, Option, none, some, true, false, lookup, text_eq}
use ferro_wg.Core.Error.{boringtun}
use ferro_wg.Core.Config.{PeerConfig, WgConfig}
use ferro_wg.Core.Stats.{default_stats}
use ferro_wg.Core.Ipc.{PeerStatus}
use ferro_wg.Core.Os.{Os}
use ferro_wg.Core.Tunnel.Manager.{ActiveConnection, first_peer}
use ferro_wg.Core.Tunnel.Updown.{Sys}

-- The configured endpoint, of a connection that is down or has none of its own.
unfoldable pub configured_endpoint : Option PeerConfig → Option Text
configured_endpoint none = none
configured_endpoint (some p) = p.endpoint

unfoldable pub endpoint_or : Option Text → Option Text → Option Text
endpoint_or (some e) other = some e
endpoint_or none other = other

module _ (os : Os) where
  unfoldable pub peer_status : os.World → Text → WgConfig → Option ActiveConnection → PeerStatus
  peer_status w name wg_config none = record {
    name = name;
    connected = false;
    backend = boringtun;
    stats = default_stats;
    endpoint = configured_endpoint (first_peer wg_config.peers);
    interface = none;
  }
  peer_status w name wg_config (some c) = record {
    name = name;
    connected = true;
    backend = c.backend_kind;
    stats = os.borrow_stats c.packet_loop w;
    endpoint = endpoint_or c.endpoint (configured_endpoint (first_peer wg_config.peers));
    interface = some c.tun_name;
  }

  unfoldable pub status : Sys os → List PeerStatus
  status s =
      map (λ (c : Text × WgConfig). peer_status s.world c.0 c.1 (lookup c.0 s.manager.connections))
        s.manager.config.connections
