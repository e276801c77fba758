-- ===== src/Core/Client.antt =====
-- ferro-wg-core/src/client.rs: one connection to the daemon for each command. The socket is a
-- parameter; what the streaming functions read is a list of lines, or of errors.
pub mod Exchange
use ferro_wg.Prelude.{
  ℕ, Bool, true, false, List, [], ◌∷◌, Text, Result, ok, err, map_err, is_empty, if◌then◌else◌,
  take,
}
use ferro_wg.Prelude.Effect.{Eff, lift, with_err, ◌>>=◌, ◌>>◌}
use ferro_wg.Core.Ipc.{
  DaemonCommand, stream_logs, DaemonResponse, log_entry, LogEntry, encode_message, decode_message,
}

pub data DaemonClientError : Type 0 where
  not_running : DaemonClientError
  encode io : Text → DaemonClientError
  no_response : DaemonClientError
  decode : Text → DaemonClientError

unfoldable pub is_not_running : DaemonClientError → Bool
is_not_running not_running = true
is_not_running _ = false

-- The kinds of a connection's error that the client tells apart.
pub data ConnectError : Type 0 where
  not_found connection_refused : ConnectError
  other_error : Text → ConnectError

-- tokio's `UnixStream`. A line that is read keeps its "\n", and is empty at the end.
pub record Socket : Type 1 where
  pub World : Type 0
  pub connect : Text → Eff World ConnectError ℕ
  pub write_all : ℕ → Text → Eff World Text (Unit {0})
  pub flush : ℕ → Eff World Text (Unit {0})
  pub close_writer : ℕ → World → World
  pub read_line : ℕ → Eff World Text Text

unfoldable pub connect_failed : ConnectError → DaemonClientError
connect_failed not_found = not_running
connect_failed connection_refused = not_running
connect_failed (other_error e) = io e

-- What a line that was read comes to.
unfoldable pub reply :
    (Text → Result DaemonResponse Text) → Text → Result DaemonResponse DaemonClientError
reply from_str line =
    if is_empty line then err no_response else map_err decode (decode_message from_str line)

module _ (socket : Socket) (to_string : DaemonCommand → Result Text Text) where
  -- Connects and sends; the daemon then sees the end of what the client writes.
  unfoldable pub open_with : DaemonCommand → Text → Eff socket.World DaemonClientError ℕ
  open_with cmd path = do
    stream ← with_err connect_failed (socket.connect path)
    json ← lift (map_err encode (encode_message to_string cmd))
    with_err io (socket.write_all stream json)
    with_err io (socket.flush stream)
    (λ w. (ok stream, socket.close_writer stream w))

  unfoldable pub send_command_to :
      (Text → Result DaemonResponse Text)
      → DaemonCommand
      → Text
      → Eff socket.World DaemonClientError DaemonResponse
  send_command_to from_str cmd path = do
    stream ← open_with cmd path
    line ← with_err io (socket.read_line stream)
    lift (reply from_str line)

-- The lines up to the end of the stream, or to an error.
unfoldable pub lines_read : List (Result Text Text) → List Text
lines_read [] = []
lines_read (err e ∷ rest) = []
lines_read (ok line ∷ rest) =
    let later = lines_read rest in if is_empty line then [] else line ∷ later

unfoldable pub keep_response :
    Result DaemonResponse Text → List DaemonResponse → List DaemonResponse
keep_response (ok r) rest = r ∷ rest
keep_response (err e) rest = rest

-- Every line that is a response.
unfoldable pub responses_of : (Text → Result DaemonResponse Text) → List Text → List DaemonResponse
responses_of from_str [] = []
responses_of from_str (line ∷ rest) =
    keep_response (decode_message from_str line) (responses_of from_str rest)

unfoldable pub keep_entry : Result DaemonResponse Text → List LogEntry → List LogEntry
keep_entry (ok (log_entry e)) rest = e ∷ rest
keep_entry _ rest = rest

-- Every line that is a log entry; other lines are skipped.
unfoldable pub entries_of : (Text → Result DaemonResponse Text) → List Text → List LogEntry
entries_of from_str [] = []
entries_of from_str (line ∷ rest) =
    keep_entry (decode_message from_str line) (entries_of from_str rest)

-- What the tasks of the two streams send; `sends` is how many sends succeed before the receiver is
-- dropped.
unfoldable pub streamed_logs :
    (Text → Result DaemonResponse Text) → ℕ → List (Result Text Text) → List LogEntry
streamed_logs from_str sends lines = take sends (entries_of from_str (lines_read lines))

unfoldable pub streamed_responses :
    (Text → Result DaemonResponse Text) → ℕ → List (Result Text Text) → List DaemonResponse
streamed_responses from_str sends lines = take sends (responses_of from_str (lines_read lines))
