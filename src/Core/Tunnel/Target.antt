-- ===== src/Core/Tunnel/Target.antt =====
-- ferro-wg-core/src/tunnel/mod.rs: what `up` looks up before it touches the system.
use ferro_wg.Prelude.{Text, Result, ok, err, ◌>>=◌, ◌>>◌, ok_or, if◌then◌else◌}
use ferro_wg.Core.Error.{WgError, tunnel_error, already_up, not_in_config, no_peers, no_endpoint}
use ferro_wg.Core.Config.{PeerConfig, WgConfig, get}
use ferro_wg.Core.Tunnel.Manager.{TunnelManager, is_active, first_peer}

-- What `up` looks up before it touches the system.
pub record Target : Type 0 where
  pub wg_config : WgConfig
  pub peer_config : PeerConfig
  pub endpoint : Text

check_free : TunnelManager → Text → Result (Unit {0}) WgError
check_free m name =
    if is_active name m.connections then err (tunnel_error (already_up name)) else ok tt

unfoldable pub find_target : TunnelManager → Text → Result Target WgError
unfolding check_free
find_target m name = do
  check_free m name
  wg_config ← ok_or (get m.config name) (tunnel_error (not_in_config name))
  peer_config ← ok_or (first_peer wg_config.peers) (tunnel_error (no_peers name))
  endpoint ← ok_or peer_config.endpoint (tunnel_error (no_endpoint name))
  ok (record { wg_config = wg_config; peer_config = peer_config; endpoint = endpoint })
