-- ===== src/Tui/Keys/Commands.antt =====
-- `maybe_spawn_command`, `spawn_switch_backend_task` and `handle_daemon_messages` of
-- ferro-wg-tui/src/lib.rs: what an action asks of the daemon, and what its answers come to.
use ferro_wg.Prelude.{
  Bool, false, List, [], ◌∷◌, ◌++◌, Text, Option, none, some, codes, if◌then◌else◌, ◌==◌, text_eq,
}
use ferro_wg.Text.Order.{min_text?}
use ferro_wg.Core.Error.{BackendKind, boringtun, neptun, gotatun}
use ferro_wg.Core.Config.{AppConfig, WgConfig}
use ferro_wg.Core.Stats.{BenchmarkResult}
use ferro_wg.Core.Ipc.{
  PeerStatus, BenchmarkProgress, DaemonCommand, up, down, switch_backend, shutdown, benchmark,
}
use ferro_wg.Tui.Action.{Action}
use ferro_wg.Tui.Error.{TuiError}
use ferro_wg.Tui.App.{InputMode, importing, exporting}
use ferro_wg.Tui.Benchmark.{BenchmarkRun}
use ferro_wg.Tui.State.Types.{AppState, ConfigDiffPending, reload_from_config}

-- A task: a command with what is shown when it succeeds, the start of the daemon, a message that is
-- sent back at once, or one of the tasks on files.
pub data Spawned : Type 0 where
  send_command : DaemonCommand → Text → Spawned
  start_daemon : Spawned
  unknown_backend no_visible_connection : Text → Spawned
  import_file : Text → Spawned
  export_runs : Text → List BenchmarkRun → Spawned
  save_draft : Text → WgConfig → Bool → Spawned

unfoldable pub backend_named : Text → Option BackendKind
backend_named name =
    if name == codes "boringtun"
    then some boringtun
    else if name == codes "neptun"
    then some neptun
    else if name == codes "gotatun"
    then some gotatun
    else none

unfoldable pub switch_task : Text → Option BackendKind → Option Text → Spawned
switch_task backend none visible = unknown_backend backend
switch_task backend (some kind) none = no_visible_connection backend
switch_task backend (some kind) (some name) =
    send_command (switch_backend name kind) (codes "Switched backend: " ++ backend)

-- A benchmark runs for 10 seconds, on the smallest visible name; its answers are a stream.
unfoldable pub benchmark_task : Option Text → Option Spawned
benchmark_task none = none
benchmark_task (some name) = some (send_command (benchmark name 10) [])

unfoldable pub maybe_spawn_command : Action → AppState → Option Spawned
maybe_spawn_command Action.start_benchmark s = benchmark_task (min_text? s.visible_connections)
maybe_spawn_command (Action.start_benchmark_for_backend _) s =
    benchmark_task (min_text? s.visible_connections)
maybe_spawn_command (Action.switch_benchmark_backend backend) s =
    some (switch_task backend (backend_named backend) (min_text? s.visible_connections))
maybe_spawn_command Action.start_daemon s = some start_daemon
maybe_spawn_command (Action.connect_peer name) s =
    some (send_command (up (some name) boringtun) (codes "Brought up: " ++ name))
maybe_spawn_command (Action.disconnect_peer name) s =
    some (send_command (down (some name)) (codes "Tore down: " ++ name))
maybe_spawn_command (Action.cycle_peer_backend name) s =
    some (send_command (switch_backend name neptun) (codes "Switched backend: " ++ name))
maybe_spawn_command Action.connect_all s =
    some (send_command (up none boringtun) (codes "All connections up"))
maybe_spawn_command Action.disconnect_all s =
    some (send_command (down none) (codes "All connections down"))
maybe_spawn_command Action.stop_daemon s = some (send_command shutdown (codes "Daemon stopped"))
maybe_spawn_command _ s = none

unfoldable pub task_list : Option Spawned → List Spawned
task_list none = []
task_list (some task) = task ∷ []

unfoldable pub import_task : Action → InputMode → Option Spawned
import_task Action.submit_import (importing path) = some (import_file path)
import_task _ _ = none

-- The history is that of the state after the dispatches.
unfoldable pub export_task : Action → InputMode → List BenchmarkRun → Option Spawned
export_task Action.submit_export (exporting path) runs = some (export_runs path runs)
export_task _ _ runs = none

unfoldable pub save_task : Action → Option ConfigDiffPending → Option Spawned
save_task (Action.save_config reconnect) (some p) =
    some (save_draft p.connection_name p.draft reconnect)
save_task _ _ = none

-- `DaemonMessage`
pub data DaemonMessage : Type 0 where
  status_update : List PeerStatus → DaemonMessage
  command_ok : Text → DaemonMessage
  command_error : TuiError → DaemonMessage
  unreachable : DaemonMessage
  reload_config : AppConfig → Text → DaemonMessage
  progress : BenchmarkProgress → DaemonMessage
  complete : BenchmarkResult → DaemonMessage

-- The actions that a message comes to; `to_string` is what thiserror derives for `TuiError`.
unfoldable pub message_actions : (TuiError → Text) → DaemonMessage → List Action
message_actions to_string (reload_config config msg) = Action.daemon_ok msg ∷ []
message_actions to_string (status_update peers) = Action.update_peers peers ∷ []
message_actions to_string (command_ok msg) = Action.daemon_ok msg ∷ []
message_actions to_string (command_error e) = Action.daemon_error (to_string e) ∷ []
message_actions to_string unreachable =
    Action.daemon_connectivity_changed false
    ∷ Action.daemon_error (codes "daemon is not running")
    ∷ []
message_actions to_string (progress p) = Action.benchmark_progress_update p ∷ []
message_actions to_string (complete r) = Action.benchmark_complete r ∷ []

-- What a message changes before its actions are dispatched.
unfoldable pub message_state : DaemonMessage → AppState → AppState
message_state (reload_config config msg) s = reload_from_config config s
message_state _ s = s
