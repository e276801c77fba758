-- ===== src/Core/Daemon/Answers.antt =====
-- How many answers the loop of ferro-wg-core/src/daemon.rs sends.
use ferro_wg.Prelude.{
  ℕ, ◌+◌, List, [], ◌∷◌, ◌≡◌, refl, Text, Result, ok, err, if◌then◌else◌, Bool-cases, inl, inr,
  arith, length, length-append,
}
use ferro_wg.External.{External}
use ferro_wg.Core.Config.{AppConfig}
use ferro_wg.Core.Toml.{Parser}
use ferro_wg.Core.Os.{Os}
use ferro_wg.Core.Ipc.{DaemonCommand, stream_logs, decode_message}
use ferro_wg.Core.Tunnel.Updown.{Sys}
use ferro_wg.Core.Daemon.Serve.{
  Request, closed, line, read_command, command_or_reply, handle_accepted, process_command,
  route_command, handle_connection, serve,
}
use ferro_wg.Core.Daemon.Stops.{asks_shutdown, handle_connection_stop}

-- A log stream is answered by its own task.
abbrev pub answers_to : Result DaemonCommand Text → ℕ
answers_to (ok stream_logs) = 0
answers_to _ = 1

unfoldable pub answers_of : (Text → Result DaemonCommand Text) → Request → ℕ
answers_of from_str closed = 0
answers_of from_str (line text) = answers_to (decode_message from_str text)

-- The answers that a list of connections is due, up to the first that asks for a shutdown.
unfoldable pub answers_due : (Text → Result DaemonCommand Text) → List (Result Request Text) → ℕ
answers_due from_str [] = 0
answers_due from_str (err _ ∷ rest) = 0
answers_due from_str (ok request ∷ rest) =
    let later = answers_due from_str rest in
    answers_of from_str request + (if asks_shutdown from_str request then 0 else later)

module _ (os : Os) (ext : External) (parser : Parser AppConfig) (path : Text) where
  route_command_sent :
      (cmd : DaemonCommand) (s : Sys os)
      → length (route_command os ext parser path cmd s).sent ≡ answers_to (ok cmd)
  unfolding route_command process_command
  route_command_sent stream_logs s = refl
  route_command_sent cmd s = refl

  handle_accepted_sent :
      (decoded : Result DaemonCommand Text) (s : Sys os)
      → length (handle_accepted os ext parser path (command_or_reply decoded) s).sent
        ≡ answers_to decoded
  unfolding handle_accepted command_or_reply
  handle_accepted_sent (ok cmd) s = route_command_sent cmd s
  handle_accepted_sent (err e) s = refl

  handle_connection_sent :
      (from_str : Text → Result DaemonCommand Text) (request : Request) (s : Sys os)
      → length (handle_connection os ext parser path from_str request s).sent
        ≡ answers_of from_str request
  unfolding handle_connection handle_accepted read_command answers_of
  handle_connection_sent from_str closed s = refl
  handle_connection_sent from_str (line text) s =
      handle_accepted_sent (decode_message from_str text) s

  -- Every line that a client sends is answered once, a log stream excepted, until the loop stops:
  -- an unknown command, a failing one and a shutdown included.
  pub serve_answers :
      (from_str : Text → Result DaemonCommand Text) (requests : List (Result Request Text))
      (s : Sys os)
      → length (serve os ext parser path from_str requests s).sent ≡ answers_due from_str requests
  unfolding serve answers_due
  serve_answers from_str [] s = refl
  serve_answers from_str (err e ∷ rest) s = refl
  serve_answers from_str (ok request ∷ rest) s =
      let next = handle_connection os ext parser path from_str request s in
      let later = serve os ext parser path from_str rest next.sys in
      elim (Bool-cases (asks_shutdown from_str request)) [
        | inl stops ↦
            rw (handle_connection_stop os ext parser path from_str request s)
              (rw stops (omega (arith, handle_connection_sent from_str request s)))
        | inr goes ↦ rw (handle_connection_stop os ext parser path from_str request s) (
            rw goes (
              omega (
                arith,
                length-append next.sent later.sent,
                handle_connection_sent from_str request s,
                serve_answers from_str rest next.sys,
              )))
      ]
