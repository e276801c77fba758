-- ===== src/Tests/Client.antt =====
-- The client with the daemon, and the tasks that follow the daemon's answers.
use ferro_wg.Prelude.{
  true, List, [], ◌∷◌, ◌++◌, map, ◌≡◌, ◌≢◌, ap, sym, ◌∙◌, subst, refl, Text, none, Result, ok, err,
  codes, ◌==◌, text_eq, text_beq, if◌then◌else◌, pos, drop, length, ◌||◌, ◌-◌, some, take, flat_map,
  nat_eq, filter,
}
use native.Mathlib.Decide.{ℕ_discrete}
use ferro_wg.Text.Trim.{trim}
use ferro_wg.Text.Split.{Lacks, read_line, read_lines}
use ferro_wg.Core.Config.{AppConfig}
use ferro_wg.Core.Toml.{Parser}
use ferro_wg.Core.Ipc.{
  DaemonCommand, shutdown, DaemonResponse, done, log_entry, LogEntry, LogLevel, ResponseError,
  encode_message,
}
use ferro_wg.Core.Logs.{active_connection, filtered_lines, shows, filtered_lines-filter}
use ferro_wg.Core.Message.{IsReadable, as_read}
use ferro_wg.Core.Tunnel.Updown.{Sys}
use ferro_wg.Core.Daemon.Buffer.{LogBuffer, get_buffer}
use ferro_wg.Core.Daemon.Command.{handle_command}
use ferro_wg.Core.Daemon.Serve.{
  line, handle_connection, Received, received, lagged, live_entries, handle_stream_logs,
}
use ferro_wg.Core.Client.{reply, streamed_logs}
use ferro_wg.Core.Client.Exchange.{
  handled_once, once, CommandLaws, ResponseLaws, exchange_lem, Encoded,
  streamed_logs-handle_stream_logs,
}
use ferro_wg.Tui.State.Keeps.{Ensures}
use ferro_wg.Tui.State.Waiting.{Waits}
use ferro_wg.Tui.State.Dispatch.{run}
use ferro_wg.Tui.State.Types.{AppState, new}
use ferro_wg.Core.Client.{not_running}
use ferro_wg.Tui.Action.{Action}
use ferro_wg.Tui.Tasks.Answers.{benchmark_messages}
use ferro_wg.Tui.Tasks.Unfinished.{actions_of, at_clock, run-unfinished}
use ferro_wg.Tui.Tasks.Starts.{tick, spawn_status_poll}
use ferro_wg.Tui.Tasks.Polling.{start, step, IsSingle, no_polls, Reaches-IsSingle}
use ferro_wg.Program.Logs.{collect_filtered_logs, viewed, collect_filtered_logs-viewed}
use ferro_wg.Samples.{sample_ext, sample_app, sample_clock, sample_printer}
use ferro_wg.Tests.Daemon.{sample_os, idle}

abbrev show_command : DaemonCommand → Result Text Text
show_command shutdown = ok (codes "shutdown")
show_command _ = err []

abbrev parse_command : Text → Result DaemonCommand Text
parse_command text = if text == codes "shutdown" then ok shutdown else err []

abbrev IsPrinted : Text → Type 0
IsPrinted text = Lacks b'\n' text × (trim text ≡ text)

-- What is printed is read again.
abbrev ReadsCommand : DaemonCommand → Result Text Text → Type 0
ReadsCommand c (ok text) = (parse_command text ≡ ok c) × IsPrinted text
ReadsCommand c (err e) = Unit

show_command-ReadsCommand : (c : DaemonCommand) → ReadsCommand c (show_command c)
unfolding text_beq trim
show_command-ReadsCommand shutdown =
    (refl, ((refl, (refl, (refl, (refl, (refl, (refl, (refl, (refl, tt)))))))), refl))
show_command-ReadsCommand _ = tt

command_laws : CommandLaws show_command parse_command
command_laws = record {
  read_printed = λ c text plain e. (subst (ReadsCommand c) e (show_command-ReadsCommand c)).0;
  on_one_line = λ c text e. (subst (ReadsCommand c) e (show_command-ReadsCommand c)).1.0;
  printed_trimmed = λ c text e. (subst (ReadsCommand c) e (show_command-ReadsCommand c)).1.1;
}

abbrev entry_of : Text → LogEntry
entry_of message = record {
  timestamp_ms = pos 7;
  level = LogLevel.info;
  connection_name = none;
  message = message;
}

LogEntry-discrete : Discrete LogEntry
LogEntry-discrete = hlevel (ℕ_discrete)

-- Two entries can be printed.
abbrev print_as : {a b : LogEntry} → Text → Dec (a ≡ b) → Result Text Text → Result Text Text
print_as text (yes _) rest = ok text
print_as text (no _) rest = rest

abbrev show_response : DaemonResponse → Result Text Text
show_response done = ok (codes "done")
show_response (log_entry e) =
    print_as (codes "up") (LogEntry-discrete e (entry_of (codes "up")))
      (print_as (codes "down") (LogEntry-discrete e (entry_of (codes "down"))) (err []))
show_response _ = err []

abbrev read_response : Text → Result DaemonResponse Text
read_response text =
    if text == codes "done"
    then ok done
    else if text == codes "up" || text == codes "down"
    then ok (log_entry (entry_of text))
    else err []

abbrev describe : ResponseError → Text
describe e = codes "error"

abbrev Reads : DaemonResponse → Result Text Text → Type 0
Reads r (ok text) = (read_response text ≡ ok (as_read describe r)) × IsPrinted text
Reads r (err e) = Unit

print_as-Reads :
    (a b : LogEntry) (text : Text) (d : Dec (a ≡ b)) (rest : Result Text Text)
    → (read_response text ≡ ok (log_entry b)) × IsPrinted text
    → Reads (log_entry a) rest
    → Reads (log_entry a) (print_as text d rest)
print_as-Reads a b text (yes p) rest h r = (h.0 ∙ ap (λ x. ok (log_entry x)) (sym p), h.1)
print_as-Reads a b text (no n) rest h r = r

show_response-Reads : (r : DaemonResponse) → Reads r (show_response r)
unfolding text_beq trim
show_response-Reads done = (refl, ((refl, (refl, (refl, (refl, tt)))), refl))
show_response-Reads (log_entry a) =
    print_as-Reads a (entry_of (codes "up")) (codes "up")
      (LogEntry-discrete a (entry_of (codes "up"))) _ (refl, ((refl, (refl, tt)), refl))
      (print_as-Reads a (entry_of (codes "down")) (codes "down")
        (LogEntry-discrete a (entry_of (codes "down"))) _
        (refl, ((refl, (refl, (refl, (refl, tt)))), refl)) tt)
show_response-Reads _ = tt

response_laws : ResponseLaws describe show_response read_response
response_laws = record {
  read_printed = λ r text plain e. (subst (Reads r) e (show_response-Reads r)).0;
  on_one_line = λ r text e. (subst (Reads r) e (show_response-Reads r)).1.0;
  printed_trimmed = λ r text e. (subst (Reads r) e (show_response-Reads r)).1.1;
}

abbrev sample_parser : Parser AppConfig
sample_parser text = ok sample_app

sent : encode_message show_command shutdown ≡ ok (codes "shutdown\n")
unfolding encode_message
sent = refl

abbrev shut : DaemonResponse × Sys sample_os
shut = handled_once sample_os sample_ext sample_parser [] shutdown idle

shut-IsReadable : IsReadable shut.0
unfolding handle_command
shut-IsReadable = tt

got : encode_message show_response shut.0 ≡ ok (codes "done\n")
unfolding encode_message handle_command
got = refl

exchange_lem_example :
    (handle_connection sample_os sample_ext sample_parser [] parse_command
        (line (read_line (codes "shutdown\n")))
        idle
      ≡ once sample_os shutdown shut)
    × (reply read_response (read_line (codes "done\n")) ≡ ok (as_read describe shut.0))
exchange_lem_example =
    exchange_lem describe show_response read_response response_laws sample_os sample_ext
      sample_parser [] show_command parse_command shutdown idle (codes "shutdown\n")
      (codes "done\n") command_laws (λ e. cc e) shut-IsReadable sent got

abbrev two_logs : List LogEntry
two_logs = entry_of (codes "up") ∷ entry_of (codes "down") ∷ []

abbrev two_lines : List Text
two_lines = codes "up\n" ∷ codes "down\n" ∷ []

printed :
    {a b : LogEntry} (text : Text) (d : Dec (a ≡ b)) (rest : Result Text Text)
    → a ≡ b
    → print_as text d rest ≡ ok text
printed text (yes p) rest e = refl
printed text (no n) rest e = absurd (n e)

skipped :
    {a b : LogEntry} (text : Text) (d : Dec (a ≡ b)) (rest : Result Text Text)
    → a ≢ b
    → print_as text d rest ≡ rest
skipped text (yes p) rest ne = absurd (ne p)
skipped text (no n) rest ne = refl

-- One entry stands in the buffer, the other one comes live.
abbrev one_kept : LogBuffer
one_kept = record { entries = entry_of (codes "up") ∷ []; capacity = 2 }

abbrev one_live : List Received
one_live = lagged ∷ received (entry_of (codes "down")) ∷ []

two_logs-Encoded :
    Encoded describe show_response read_response response_laws
      (handle_stream_logs 5 one_kept one_live)
      two_lines
unfolding encode_message handle_stream_logs get_buffer live_entries
two_logs-Encoded = (
  rw
      (printed (codes "up") (LogEntry-discrete (entry_of (codes "up")) (entry_of (codes "up")))
        (print_as (codes "down")
          (LogEntry-discrete (entry_of (codes "up")) (entry_of (codes "down"))) (err []))
        refl)
      refl,
  (
    rw
        (skipped (codes "up") (LogEntry-discrete (entry_of (codes "down")) (entry_of (codes "up")))
          (print_as (codes "down")
            (LogEntry-discrete (entry_of (codes "down")) (entry_of (codes "down"))) (err []))
          (λ p. cc p))
        (rw
          (printed (codes "down")
            (LogEntry-discrete (entry_of (codes "down")) (entry_of (codes "down"))) (err []) refl)
          refl),
    tt,
  ),
)

streamed_logs-handle_stream_logs_example :
    streamed_logs read_response 5 (map ok (read_lines (flat_map (λ t. t) two_lines)))
    ≡ take 5 (take 5 (get_buffer one_kept ++ live_entries one_live))
streamed_logs-handle_stream_logs_example =
    streamed_logs-handle_stream_logs describe show_response read_response response_laws 5 5 one_kept
      one_live two_lines two_logs-Encoded

abbrev waiting : AppState
waiting = record (new sample_app) { benchmark_running = true }

run-unfinished_example : Ensures (Waits waiting.benchmark_history) (
    run sample_ext sample_printer
      (at_clock sample_clock
          (actions_of (λ e. codes "error") (benchmark_messages (err not_running)))
        ++ (sample_clock, Action.start_benchmark) ∷ [])
      waiting)
unfolding new
run-unfinished_example =
    run-unfinished sample_os sample_ext sample_parser [] sample_printer (λ e. codes "error")
      sample_clock (codes "lab") 10 idle (err not_running)
      ((sample_clock, Action.start_benchmark) ∷ []) waiting tt (tt, tt) refl

Reaches-IsSingle_example : IsSingle (spawn_status_poll (spawn_status_poll no_polls))
Reaches-IsSingle_example = Reaches-IsSingle (step (step start tick) tick)

collect_filtered_logs-viewed_example :
    (collect_filtered_logs two_logs LogLevel.info (some (codes "lab")) (codes "UP") none
      ≡ viewed two_logs LogLevel.info (some (codes "lab")) (codes "UP"))
    × (collect_filtered_logs two_logs LogLevel.info (some (codes "lab")) (codes "UP") (some 1)
        ≡ drop
            (length (viewed two_logs LogLevel.info (some (codes "lab")) (codes "UP")) - 1)
            (viewed two_logs LogLevel.info (some (codes "lab")) (codes "UP")))
collect_filtered_logs-viewed_example =
    collect_filtered_logs-viewed two_logs LogLevel.info (some (codes "lab")) (codes "UP") 1

filtered_lines-filter_example :
    filtered_lines two_logs (codes "up") LogLevel.debug active_connection (some (codes "mia"))
    ≡ filter (shows (codes "up") LogLevel.debug active_connection (some (codes "mia"))) two_logs
filtered_lines-filter_example =
    filtered_lines-filter two_logs (codes "up") LogLevel.debug active_connection
      (some (codes "mia"))
