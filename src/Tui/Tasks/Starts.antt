-- ===== src/Tui/Tasks/Starts.antt =====
-- `spawn_daemon_start` and `spawn_status_poll` of ferro-wg-tui/src/lib.rs.
use ferro_wg.Prelude.{
  ℕ, suc, zero, Bool, true, false, List, [], ◌∷◌, Text, Result, ok, err, codes, if◌then◌else◌,
}
use ferro_wg.Prelude.Effect.{Eff}
use ferro_wg.Core.Ipc.{DaemonResponse}
use ferro_wg.Core.Client.{DaemonClientError}
use ferro_wg.Tui.Error.{executable_not_found, daemon_start_failed, generic, literal}
use ferro_wg.Tui.Keys.Commands.{DaemonMessage, command_ok, command_error}

-- What the task calls: the client's `Status` command, `current_exe`, a detached process and a sleep.
pub record Host : Type 1 where
  pub World : Type 0
  pub send_status : Eff World DaemonClientError DaemonResponse
  pub current_exe : World → Result Text Text
  pub spawn : Text → List Text → Eff World Text (Unit {0})
  pub sleep_millis : ℕ → World → World

abbrev pub reached : {A E : Type 0} → Result A E → Bool
reached (ok _) = true
reached (err _) = false

abbrev pub start_attempts : ℕ
start_attempts = 6

module _ (host : Host) where
  -- The polls, one half second apart.
  unfoldable pub await_daemon : ℕ → host.World → Bool × host.World
  await_daemon zero w = (false, w)
  await_daemon (suc n) w =
      let (r, next) = host.send_status (host.sleep_millis 500 w) in
      elim r [ ok _ ↦ (true, next) | err _ ↦ await_daemon n next ]

  unfoldable pub daemon_args : Text → Text → List Text
  daemon_args exe config_path =
      exe ∷ codes "daemon" ∷ codes "--daemonize" ∷ codes "-c" ∷ config_path ∷ []

  unfoldable pub spawned_message : Bool × host.World → DaemonMessage × host.World
  spawned_message (true, w) = (command_ok (codes "Daemon started"), w)
  spawned_message (false, w) = (
    command_error
        (generic (literal "Daemon started but not yet reachable — try again in a moment")),
    w,
  )

  unfoldable pub after_spawn : Result (Unit {0}) Text × host.World → DaemonMessage × host.World
  after_spawn (err e, w) = (command_error (daemon_start_failed e), w)
  after_spawn (ok _, w) = spawned_message (await_daemon start_attempts w)

  unfoldable pub start_with : Text → Result Text Text → host.World → DaemonMessage × host.World
  start_with config_path (err e) w = (command_error (executable_not_found e), w)
  start_with config_path (ok exe) w =
      after_spawn (host.spawn (codes "sudo") (daemon_args exe config_path) w)

  unfoldable pub start_unless :
      Text → Result DaemonResponse DaemonClientError × host.World → DaemonMessage × host.World
  start_unless config_path (ok _, w) =
      (command_error (generic (literal "Daemon is already running")), w)
  start_unless config_path (err _, w) = start_with config_path (host.current_exe w) w

  unfoldable pub start_daemon : Text → host.World → DaemonMessage × host.World
  start_daemon config_path w = start_unless config_path (host.send_status w)

-- The polls of the daemon's status: the flag that they share, and how many are under way.
pub record Polls : Type 0 where
  pub in_flight : Bool
  pub tasks : ℕ

-- A tick of the clock: the flag is swapped for `true`, and a poll starts unless it was set.
unfoldable pub spawn_status_poll : Polls → Polls
spawn_status_poll p = if p.in_flight then p else record { in_flight = true; tasks = suc p.tasks }

pub data PollStep : Polls → Polls → Type 0 where
  tick : {p : Polls} → PollStep p (spawn_status_poll p)
  -- a poll ends, on either of its two ways out
  finish :
      {b : Bool} {n : ℕ}
      → PollStep (record { in_flight = b; tasks = suc n }) (record { in_flight = false; tasks = n })
