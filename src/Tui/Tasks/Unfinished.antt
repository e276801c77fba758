-- ===== src/Tui/Tasks/Unfinished.antt =====
-- A benchmark from ferro-wg-tui/src/lib.rs to ferro-wg-core/src/daemon.rs and back.
use ferro_wg.Prelude.{
  ℕ, true, List, [], ◌∷◌, ◌++◌, map, ◌≡◌, refl, Text, Result, ok, err, All, Bool-cases, inl, inr,
}
use ferro_wg.External.{External}
use ferro_wg.Core.Config.{WgConfig, AppConfig}
use ferro_wg.Core.Toml.{Printer, Parser}
use ferro_wg.Core.Os.{Os}
use ferro_wg.Core.Ipc.{DaemonResponse, benchmark}
use ferro_wg.Core.Tunnel.Updown.{Sys}
use ferro_wg.Core.Daemon.Command.{needs_config_reload, handle_command}
use ferro_wg.Core.Daemon.Serve.{route_command, process_command}
use ferro_wg.Core.Client.{DaemonClientError, is_not_running}
use ferro_wg.Tui.Action.{Action}
use ferro_wg.Tui.Error.{TuiError}
use ferro_wg.Tui.Keys.Commands.{DaemonMessage, message_actions}
use ferro_wg.Tui.State.Types.{Clock, AppState}
use ferro_wg.Tui.State.Dispatch.{run}
use ferro_wg.Tui.State.Keeps.{Ensures}
use ferro_wg.Tui.State.Waiting.{NoCompletion, Waits, run-Waits}
use ferro_wg.Tui.Tasks.Answers.{error_to_message, stream_messages, benchmark_messages}

-- `handle_daemon_messages`: what the messages come to, in their order.
unfoldable pub actions_of : (TuiError → Text) → List DaemonMessage → List Action
actions_of to_string [] = []
actions_of to_string (m ∷ rest) = message_actions to_string m ++ actions_of to_string rest

-- The actions, with the clock of each dispatch.
abbrev pub at_clock : Clock → List Action → List (Clock × Action)
at_clock clock actions = map (λ a. (clock, a)) actions

abbrev pub Uncompleted : List (Clock × Action) → Type 0
Uncompleted steps = All (λ (step : Clock × Action). NoCompletion step.1) steps

module _ (os : Os) (ext : External) (parser : Parser AppConfig) (path : Text) where
  -- What a client of the daemon gets for a benchmark: an error of its own, or the daemon's answers.
  abbrev pub BenchmarkAnswer :
      Text → ℕ → Sys os → Result (List DaemonResponse) DaemonClientError → Type 0
  BenchmarkAnswer name secs sys (err e) = Unit
  BenchmarkAnswer name secs sys (ok answers) =
      answers ≡ (route_command os ext parser path (benchmark name secs) sys).sent

  answer-Uncompleted :
      (to_string : TuiError → Text) (clock : Clock) (name : Text) (secs : ℕ) (sys : Sys os)
      (answer : Result (List DaemonResponse) DaemonClientError) (later : List (Clock × Action))
      → BenchmarkAnswer name secs sys answer
      → Uncompleted later
      → Uncompleted (at_clock clock (actions_of to_string (benchmark_messages answer)) ++ later)
  unfolding benchmark_messages error_to_message actions_of message_actions stream_messages
      route_command process_command handle_command needs_config_reload
  answer-Uncompleted to_string clock name secs sys (err e) later h u =
      elim (Bool-cases (is_not_running e)) [ inl y ↦ rw y (tt, (tt, u)) | inr n ↦ rw n (tt, u) ]
  answer-Uncompleted to_string clock name secs sys (ok answers) later h u = rw h (tt, u)

  -- However the daemon answers a benchmark, the benchmark is still running when the answer has been
  -- taken, and after whatever other actions: no other benchmark can be started in this run.
  pub run-unfinished :
      (printer : Printer WgConfig) (to_string : TuiError → Text) (clock : Clock) (name : Text)
      (secs : ℕ) (sys : Sys os) (answer : Result (List DaemonResponse) DaemonClientError)
      (later : List (Clock × Action)) (s : AppState)
      → BenchmarkAnswer name secs sys answer
      → Uncompleted later
      → s.benchmark_running ≡ true
      → Ensures (Waits s.benchmark_history) (
          run ext printer
            (at_clock clock (actions_of to_string (benchmark_messages answer)) ++ later)
            s)
  run-unfinished printer to_string clock name secs sys answer later s h u running =
      run-Waits ext printer s.benchmark_history
        (at_clock clock (actions_of to_string (benchmark_messages answer)) ++ later) s
        (answer-Uncompleted to_string clock name secs sys answer later h u) (running, refl)
