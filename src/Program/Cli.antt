-- ===== src/Program/Cli.antt =====
-- ferro-wg/src/cli.rs and what `main` of ferro-wg/src/main.rs makes of the arguments. The parser is
-- clap's; what a subcommand prints is a list of lines.
use ferro_wg.Prelude.{
  ℕ, suc, Bool, false, not, ◌&&◌, List, [], ◌∷◌, ◌++◌, Text, Option, none, some, codes, replicate,
  if◌then◌else◌, max, zero,
}
use ferro_wg.Core.Error.{ConfigError}
use ferro_wg.Core.Ipc.{LogLevel, ResponseError}
use ferro_wg.Core.Client.{DaemonClientError}
use ferro_wg.Core.WgQuick.Parse.{Stop}

pub data Command : Type 0 where
  tui genkey routes status : Command
  up down : Option Text → Command
  -- daemonize, stop
  daemon : Bool → Bool → Command
  import_file : Text → Command
  -- level, connection, search, lines, watch
  logs : LogLevel → Option Text → Text → Option ℕ → Bool → Command

pub record Cli : Type 0 where
  pub config : Option Text
  pub verbose : ℕ
  pub command : Option Command

-- Why a subcommand fails.
pub data ProgramError : Type 0 where
  daemon_not_running unexpected_response unexpected_log_entry : ProgramError
  of_client : DaemonClientError → ProgramError
  of_daemon : ResponseError → ProgramError
  config_not_found : Text → ProgramError
  of_config : ConfigError → ProgramError
  of_file : Stop → ProgramError
  of_io : Text → ProgramError

-- The subscriber's filter.
unfoldable pub level_filter : ℕ → Text
level_filter zero = codes "warn"
level_filter (suc zero) = codes "info"
level_filter (suc (suc zero)) = codes "debug"
level_filter (suc (suc (suc n))) = codes "trace"

unfoldable pub is_foreground_command : Command → Bool
is_foreground_command (daemon daemonize stop) = not daemonize && not stop
is_foreground_command _ = false

-- The daemon in the foreground sets up its own subscriber.
unfoldable pub is_daemon_foreground : Option Command → Bool
is_daemon_foreground none = false
is_daemon_foreground (some c) = is_foreground_command c

-- What `cmd_daemon` does.
pub data DaemonMode : Type 0 where
  stopping in_background in_foreground : DaemonMode

unfoldable pub daemon_mode : Bool → Bool → DaemonMode
daemon_mode daemonize stop =
    if stop then stopping else if daemonize then in_background else in_foreground

unfoldable pub forwarded_verbosity : ℕ → ℕ
forwarded_verbosity verbose = max verbose 1

-- The arguments of `sudo` in `cmd_daemon_background`.
unfoldable pub background_args : Text → ℕ → Text → List Text
background_args exe verbose config_path =
    exe
    ∷ (codes "-" ++ replicate (forwarded_verbosity verbose) b'v')
    ∷ codes "daemon"
    ∷ codes "-c"
    ∷ config_path
    ∷ []
