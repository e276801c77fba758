-- ===== src/Tui/Tasks/Answers.antt =====
-- What the tasks of ferro-wg-tui/src/lib.rs make of the daemon's answers.
use ferro_wg.Prelude.{List, [], ◌∷◌, Text, Option, none, some, Result, ok, err, if◌then◌else◌}
use ferro_wg.Core.Ipc.{DaemonResponse, done, statuses, failed, benchmark_progress, benchmark_result}
use ferro_wg.Core.Client.{DaemonClientError, is_not_running}
use ferro_wg.Tui.Error.{
  TuiError, daemon_client, daemon_response, of_daemon, no_visible_connections, stream_closed,
}
use ferro_wg.Tui.Keys.Commands.{
  Spawned, no_visible_connection, DaemonMessage, status_update, command_ok, command_error,
  unreachable, progress, complete,
}

unfoldable pub error_to_message : DaemonClientError → DaemonMessage
error_to_message e = if is_not_running e then unreachable else command_error (daemon_client e)

-- The tasks of `maybe_spawn_command` and `spawn_switch_backend_task`; `description` is what is shown.
-- An answer of another kind has no message.
unfoldable pub answer_message :
    Text → Result DaemonResponse DaemonClientError → Option DaemonMessage
answer_message description (ok done) = some (command_ok description)
answer_message description (ok (failed e)) = some (command_error (daemon_response (of_daemon e)))
answer_message description (err e) = some (error_to_message e)
answer_message description _ = none

unfoldable pub poll_message : Result DaemonResponse DaemonClientError → Option DaemonMessage
poll_message (ok (statuses peers)) = some (status_update peers)
poll_message (err e) = some (error_to_message e)
poll_message (ok _) = none

-- The messages of a benchmark's stream; the task stops at a result or an error.
unfoldable pub stream_messages : List DaemonResponse → List DaemonMessage
stream_messages [] = command_error stream_closed ∷ []
stream_messages (benchmark_progress p ∷ rest) = progress p ∷ stream_messages rest
stream_messages (benchmark_result r ∷ rest) = complete r ∷ []
stream_messages (failed e ∷ rest) = command_error (daemon_response (of_daemon e)) ∷ []
stream_messages (_ ∷ rest) = stream_messages rest

-- `spawn_benchmark_task`, from what `send_streaming_command` returns.
unfoldable pub benchmark_messages :
    Result (List DaemonResponse) DaemonClientError → List DaemonMessage
benchmark_messages (ok stream) = stream_messages stream
benchmark_messages (err e) = error_to_message e ∷ []

-- The tasks of `spawn_switch_backend_task` that send nothing to the daemon.
unfoldable pub refusal_message : Spawned → Option DaemonMessage
refusal_message (Spawned.unknown_backend backend) =
    some (command_error (TuiError.unknown_backend backend))
refusal_message (no_visible_connection backend) =
    some (command_error (daemon_response no_visible_connections))
refusal_message _ = none
