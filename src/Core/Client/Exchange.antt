-- ===== src/Core/Client/Exchange.antt =====
-- The client of ferro-wg-core/src/client.rs and the daemon of daemon.rs together: one command and its
-- response, and a log stream. What one side writes is the text that the other reads its lines from.
use ferro_wg.Prelude.{
  ℕ, zero, suc, List, [], ◌∷◌, ◌++◌, map, Text, Result, ok, if◌then◌else◌, ◌≡◌, ◌≢◌, refl, ap, sym,
  ◌∙◌, subst, take, flat_map, append_assoc,
}
use ferro_wg.External.{External}
use ferro_wg.Text.Split.{read_line, read_line-append, read_lines, read_lines-line}
use ferro_wg.Core.Config.{AppConfig}
use ferro_wg.Core.Toml.{Parser}
use ferro_wg.Core.Os.{Os}
use ferro_wg.Core.Ipc.{
  DaemonCommand, stream_logs, DaemonResponse, ResponseError, log_entry, LogEntry, encode_message,
}
use ferro_wg.Core.Message.{
  JsonLaws, IsReadable, as_read, IsSent, encode_message-IsSent, sent-is_empty, decode_message-sent,
}
use ferro_wg.Core.Tunnel.Updown.{Sys}
use ferro_wg.Core.Daemon.Buffer.{LogBuffer, get_buffer}
use ferro_wg.Core.Daemon.Command.{needs_config_reload, reload_config, handle_command}
use ferro_wg.Core.Daemon.Serve.{
  line, read_command, command_or_reply, handle_accepted, route_command, process_command,
  handle_connection, is_shutdown, Handled, Received, live_entries, handle_stream_logs,
}
use ferro_wg.Core.Client.{reply, lines_read, entries_of, keep_entry, streamed_logs}

-- The state in which the daemon handles a command.
abbrev pub reloaded : (os : Os) → Parser AppConfig → Text → DaemonCommand → Sys os → Sys os
reloaded os parser path cmd s =
    if needs_config_reload cmd then reload_config os parser path s else s

-- What the daemon does for a command, handled once: its response, and the state after it.
abbrev pub handled_once :
    (os : Os)
    → External
    → Parser AppConfig
    → Text
    → DaemonCommand
    → Sys os
    → DaemonResponse × Sys os
handled_once os ext parser path cmd s = handle_command os ext cmd (reloaded os parser path cmd s)

abbrev pub once : (os : Os) → DaemonCommand → DaemonResponse × Sys os → Handled os
once os cmd r = record { stop = is_shutdown r.0 cmd; sent = r.0 ∷ []; sys = r.1 }

route_command-once :
    (os : Os) (ext : External) (parser : Parser AppConfig) (path : Text) (cmd : DaemonCommand)
    (s : Sys os)
    → cmd ≢ stream_logs
    → route_command os ext parser path cmd s ≡ once os cmd (handled_once os ext parser path cmd s)
unfolding route_command process_command
route_command-once os ext parser path stream_logs s ne = absurd (ne refl)
route_command-once os ext parser path cmd s ne = refl

abbrev pub CommandLaws :
    (DaemonCommand → Result Text Text) → (Text → Result DaemonCommand Text) → Type 0
CommandLaws to_cmd from_cmd = JsonLaws to_cmd from_cmd (λ _. Unit) (λ c. c)

abbrev pub ResponseLaws :
    (ResponseError → Text)
    → (DaemonResponse → Result Text Text)
    → (Text → Result DaemonResponse Text)
    → Type 0
ResponseLaws describe to_response from_response =
    JsonLaws to_response from_response IsReadable (as_read describe)

module _ (os : Os) (ext : External) (parser : Parser AppConfig) (path : Text)
    (to_cmd : DaemonCommand → Result Text Text) (from_cmd : Text → Result DaemonCommand Text)
    (cmd_laws : CommandLaws to_cmd from_cmd) where
  sent-once :
      (cmd : DaemonCommand) (s : Sys os) (text : Text)
      → cmd ≢ stream_logs
      → IsSent to_cmd cmd text
      → handle_connection os ext parser path from_cmd (line (read_line text)) s
        ≡ once os cmd (handled_once os ext parser path cmd s)
  unfolding handle_connection read_command command_or_reply handle_accepted
  sent-once cmd s text ne sent =
      rw
        (ap read_line sent.line
          ∙ read_line-append sent.json [] (cmd_laws.on_one_line cmd sent.json sent.printed))
        (rw
          (decode_message-sent to_cmd from_cmd (λ _. Unit) (λ c. c) cmd sent.json cmd_laws tt
            sent.printed)
          (route_command-once os ext parser path cmd s ne))

module _ (describe : ResponseError → Text) (to_response : DaemonResponse → Result Text Text)
    (from_response : Text → Result DaemonResponse Text)
    (laws : ResponseLaws describe to_response from_response) where
  reply-sent :
      (r : DaemonResponse) (out : Text)
      → IsReadable r
      → IsSent to_response r out
      → reply from_response (read_line out) ≡ ok (as_read describe r)
  unfolding reply
  reply-sent r out plain sent =
      rw
        (ap read_line sent.line
          ∙ read_line-append sent.json [] (laws.on_one_line r sent.json sent.printed))
        (rw (sent-is_empty sent.json) (
          rw
            (decode_message-sent to_response from_response IsReadable (as_read describe) r sent.json
              laws plain sent.printed)
            refl))

  -- What a client writes for a command that is not a log stream makes the daemon handle that command
  -- once: the state after the connection is the one after this handling, the daemon stops exactly for
  -- a shutdown that succeeded, and the client reads the response of the handling, of an error the text.
  pub exchange_lem :
      (os : Os) (ext : External) (parser : Parser AppConfig) (path : Text)
      (to_cmd : DaemonCommand → Result Text Text) (from_cmd : Text → Result DaemonCommand Text)
      (cmd : DaemonCommand) (s : Sys os) (text out : Text)
      → CommandLaws to_cmd from_cmd
      → cmd ≢ stream_logs
      → IsReadable (handled_once os ext parser path cmd s).0
      → encode_message to_cmd cmd ≡ ok text
      → encode_message to_response (handled_once os ext parser path cmd s).0 ≡ ok out
      → (handle_connection os ext parser path from_cmd (line (read_line text)) s
          ≡ once os cmd (handled_once os ext parser path cmd s))
        × (reply from_response (read_line out)
            ≡ ok (as_read describe (handled_once os ext parser path cmd s).0))
  exchange_lem os ext parser path to_cmd from_cmd cmd s text out cmd_laws ne plain sent got =
      let r = (handled_once os ext parser path cmd s).0 in
      (
        sent-once os ext parser path to_cmd from_cmd cmd_laws cmd s text ne
            (encode_message-IsSent to_cmd cmd text sent),
        reply-sent r out plain (encode_message-IsSent to_response r out got),
      )

  -- The texts that the daemon writes for these responses.
  abbrev pub Encoded : List DaemonResponse → List Text → Type 0
  Encoded [] [] = Unit
  Encoded (r ∷ rs) (t ∷ ts) = (encode_message to_response r ≡ ok t) × Encoded rs ts
  Encoded _ _ = ⊥

  -- Every text is a line of the stream again.
  read_lines-Encoded :
      (rs : List DaemonResponse) (ts : List Text)
      → Encoded rs ts
      → read_lines (flat_map (λ t. t) ts) ≡ ts
  unfolding read_lines
  read_lines-Encoded [] [] h = refl
  read_lines-Encoded (r ∷ rs) (t ∷ ts) h =
      let sent = encode_message-IsSent to_response r t h.0 in
      let rest = flat_map (λ t. t) ts in
      ap (λ x. read_lines (x ++ rest)) sent.line
      ∙ ap read_lines (append_assoc sent.json (b'\n' ∷ []) rest)
      ∙ read_lines-line sent.json rest (laws.on_one_line r sent.json sent.printed)
      ∙ (λ i. sym sent.line i ∷ read_lines-Encoded rs ts h.1 i)
  read_lines-Encoded [] (t ∷ ts) h = elim h [ ]
  read_lines-Encoded (r ∷ rs) [] h = elim h [ ]

  entries_of-Encoded :
      (es : List LogEntry) (ts : List Text)
      → Encoded (map log_entry es) ts
      → entries_of from_response (lines_read (map ok ts)) ≡ es
  unfolding entries_of lines_read keep_entry
  entries_of-Encoded [] [] h = refl
  entries_of-Encoded (e ∷ es) (t ∷ ts) h =
      let sent = encode_message-IsSent to_response (log_entry e) t h.0 in
      rw (sent.line) (
        rw (sent-is_empty sent.json) (
          rw
            (decode_message-sent to_response from_response IsReadable (as_read describe)
              (log_entry e) sent.json laws tt sent.printed)
            (ap (◌∷◌ e) (entries_of-Encoded es ts h.1))))
  entries_of-Encoded [] (t ∷ ts) h = elim h [ ]
  entries_of-Encoded (e ∷ es) [] h = elim h [ ]

  take-map : (n : ℕ) (es : List LogEntry) → take n (map log_entry es) ≡ map log_entry (take n es)
  take-map zero es = refl
  take-map (suc n) [] = refl
  take-map (suc n) (e ∷ es) = ap (◌∷◌ (log_entry e)) (take-map n es)

  -- A client that reads the stream of the daemon's log task gets the entries of the buffer and then the
  -- live ones, in their order: all that the daemon could send, as far as the client's receiver stays.
  pub streamed_logs-handle_stream_logs :
      (sends kept : ℕ) (buffer : LogBuffer) (events : List Received) (ts : List Text)
      → Encoded (handle_stream_logs sends buffer events) ts
      → streamed_logs from_response kept (map ok (read_lines (flat_map (λ t. t) ts)))
        ≡ take kept (take sends (get_buffer buffer ++ live_entries events))
  unfolding streamed_logs handle_stream_logs
  streamed_logs-handle_stream_logs sends kept buffer events ts h =
      let entries = get_buffer buffer ++ live_entries events in
      let written = subst (λ rs. Encoded rs ts) (take-map sends entries) h in
      rw (read_lines-Encoded _ ts written)
        (ap (take kept) (entries_of-Encoded (take sends entries) ts written))
