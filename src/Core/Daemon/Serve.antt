-- ===== src/Core/Daemon/Serve.antt =====
-- ferro-wg-core/src/daemon.rs: the daemon's connections. What clients send is a list: one accepted
-- connection after the other, or an error of `accept`. `from_str` is serde_json's, `parser` the toml
-- crate's. A response that cannot be sent is dropped by the code, so only what is sent is kept.
use ferro_wg.Prelude.{
  ℕ, map, take, Bool, true, false, List, [], ◌∷◌, ◌++◌, Text, Result, ok, err, if◌then◌else◌,
}
use ferro_wg.External.{External}
use ferro_wg.Core.Config.{AppConfig}
use ferro_wg.Core.Toml.{Parser}
use ferro_wg.Core.Os.{Os}
use ferro_wg.Core.Ipc.{
  DaemonCommand, stream_logs, shutdown, DaemonResponse, done, failed, invalid_command, LogEntry,
  log_entry, decode_message,
}
use ferro_wg.Core.Tunnel.Manager.{new_manager}
use ferro_wg.Core.Tunnel.Updown.{Sys, down_all}
use ferro_wg.Core.Daemon.Buffer.{LogBuffer, get_buffer}
use ferro_wg.Core.Daemon.Command.{needs_config_reload, reload_config, handle_command}

-- What a client's connection delivers. An end of file and a read error are treated alike.
pub data Request : Type 0 where
  closed : Request
  line : Text → Request

-- The command, or what is sent for want of one.
unfoldable pub command_or_reply :
    Result DaemonCommand Text → Result DaemonCommand (List DaemonResponse)
command_or_reply (ok cmd) = ok cmd
command_or_reply (err e) = err (failed (invalid_command e) ∷ [])

unfoldable pub read_command :
    (Text → Result DaemonCommand Text) → Request → Result DaemonCommand (List DaemonResponse)
read_command from_str closed = err []
read_command from_str (line text) = command_or_reply (decode_message from_str text)

unfoldable pub is_shutdown : DaemonResponse → DaemonCommand → Bool
is_shutdown done shutdown = true
is_shutdown _ _ = false

pub data Ending : Type 0 where
  -- no more connections came
  waiting shut_down : Ending
  accept_failed : Text → Ending

-- What one connection did: whether the daemon stops, what was sent, and the state.
pub record Handled (os : Os) : Type 0 where
  pub stop : Bool
  pub sent : List DaemonResponse
  pub sys : Sys os

pub record Served (os : Os) : Type 0 where
  pub ending : Ending
  pub sent : List DaemonResponse
  pub sys : Sys os

-- What the log stream's channel delivers.
pub data Received : Type 0 where
  received : LogEntry → Received
  lagged : Received

-- The entries up to the channel's end; a lag is logged only.
unfoldable pub live_entries : List Received → List LogEntry
live_entries [] = []
live_entries (received e ∷ rest) = e ∷ live_entries rest
live_entries (lagged ∷ rest) = live_entries rest

-- `sends` is how many writes succeed before the client is gone; the stream ends with the next one.
unfoldable pub handle_stream_logs : ℕ → LogBuffer → List Received → List DaemonResponse
handle_stream_logs sends buffer events =
    take sends (map log_entry (get_buffer buffer ++ live_entries events))

module _ (os : Os) (ext : External) (parser : Parser AppConfig) (config_path : Text) where
  unfoldable pub process_command : DaemonCommand → Sys os → Handled os
  process_command cmd s =
      let loaded = if needs_config_reload cmd then reload_config os parser config_path s else s in
      let handled = handle_command os ext cmd loaded in
      record { stop = is_shutdown handled.0 cmd; sent = handled.0 ∷ []; sys = handled.1 }

  -- A log stream has a task of its own; the loop goes on at once.
  unfoldable pub route_command : DaemonCommand → Sys os → Handled os
  route_command stream_logs s = record { stop = false; sent = []; sys = s }
  route_command cmd s = process_command cmd s

  unfoldable pub handle_accepted : Result DaemonCommand (List DaemonResponse) → Sys os → Handled os
  handle_accepted (ok cmd) s = route_command cmd s
  handle_accepted (err replies) s = record { stop = false; sent = replies; sys = s }

  unfoldable pub handle_connection :
      (Text → Result DaemonCommand Text) → Request → Sys os → Handled os
  handle_connection from_str request s = handle_accepted (read_command from_str request) s

  -- The manager's `Drop`.
  unfoldable pub drop_manager : Sys os → Sys os
  drop_manager s = (down_all os ext s).1

  unfoldable pub serve :
      (Text → Result DaemonCommand Text) → List (Result Request Text) → Sys os → Served os
  serve from_str [] s = record { ending = waiting; sent = []; sys = s }
  serve from_str (err e ∷ rest) s = record {
    ending = accept_failed e;
    sent = [];
    sys = drop_manager s;
  }
  serve from_str (ok request ∷ rest) s =
      let h = handle_connection from_str request s in
      let later = serve from_str rest h.sys in
      if h.stop
      then record { ending = shut_down; sent = h.sent; sys = drop_manager h.sys }
      else record later { sent = h.sent ++ later.sent }

  -- `run`, once it listens.
  unfoldable pub run :
      (Text → Result DaemonCommand Text)
      → List (Result Request Text)
      → AppConfig
      → os.World
      → Served os
  run from_str requests config w =
      serve from_str requests (record { manager = new_manager config; world = w })
