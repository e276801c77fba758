-- ===== src/Core/Daemon/Command.antt =====
-- ferro-wg-core/src/daemon.rs: a command's handling. The state is the tunnel manager with the
-- system; `parser` is the toml crate's.
use ferro_wg.Prelude.{Bool, true, false, Text, none, some, Result, ok, err, map_err}
use ferro_wg.Prelude.{◌>>=◌}
use ferro_wg.External.{External}
use ferro_wg.Core.Error.{WgError, ConfigError, toml_parse}
use ferro_wg.Core.Config.{AppConfig}
use ferro_wg.Core.Toml.{Parser, load_app_config_str}
use ferro_wg.Core.Os.{Os}
use ferro_wg.Core.Ipc.{
  DaemonCommand, up, down, status, switch_backend, shutdown, stream_logs, benchmark, DaemonResponse,
  done, failed, statuses, of_wg, benchmark_not_implemented, stream_logs_not_supported,
}
use ferro_wg.Core.Tunnel.Manager
use ferro_wg.Core.Tunnel.Updown
use ferro_wg.Core.Tunnel.Updown.{Sys}
use ferro_wg.Core.Tunnel.Status

unfoldable pub needs_config_reload : DaemonCommand → Bool
needs_config_reload (up _ _) = true
needs_config_reload status = true
needs_config_reload _ = false

unfoldable pub response_of : Result (Unit {0}) WgError → DaemonResponse
response_of (ok _) = done
response_of (err e) = failed (of_wg e)

module _ (os : Os) where
  abbrev pub respond : Result (Unit {0}) WgError × Sys os → DaemonResponse × Sys os
  respond (r, s) = (response_of r, s)

  unfoldable pub load_app_config : Parser AppConfig → Text → os.World → Result AppConfig ConfigError
  load_app_config parser path w =
      map_err toml_parse (os.read_to_string path w) >>= load_app_config_str parser

  -- A configuration that cannot be read leaves the one before.
  keep_or_load : Result AppConfig ConfigError → Sys os → Sys os
  keep_or_load (ok config) s = record s { manager = Manager.reload_config config s.manager }
  keep_or_load (err _) s = s

  unfoldable pub reload_config : Parser AppConfig → Text → Sys os → Sys os
  unfolding keep_or_load
  reload_config parser path s = keep_or_load (load_app_config parser path s.world) s

module _ (os : Os) (ext : External) where
  unfoldable pub handle_command : DaemonCommand → Sys os → DaemonResponse × Sys os
  handle_command (up (some name) backend) s = respond os (Updown.up os ext name backend s)
  handle_command (up none backend) s = respond os (Updown.up_all os ext backend s)
  handle_command (down (some name)) s = respond os (Updown.down os ext name s)
  handle_command (down none) s = (done, (Updown.down_all os ext s).1)
  handle_command status s = (statuses (Status.status os s), s)
  handle_command (switch_backend name backend) s =
      respond os (Updown.up os ext name backend (Updown.down os ext name s).1)
  handle_command shutdown s = (done, s)
  handle_command (benchmark _ _) s = (failed benchmark_not_implemented, s)
  handle_command stream_logs s = (failed stream_logs_not_supported, s)
