-- ===== src/Core/Daemon/Stops.antt =====
-- When the loop of ferro-wg-core/src/daemon.rs ends, what it leaves, and how many answers it sends.
use ferro_wg.Prelude.{
  Bool, true, false, ◌||◌, List, [], ◌∷◌, ◌≡◌, ◌↔◌, refl, Text, Result, ok, err, if◌then◌else◌,
  Bool-cases, inl, inr, arith,
}
use ferro_wg.External.{External}
use ferro_wg.Core.Config.{AppConfig}
use ferro_wg.Core.Toml.{Parser}
use ferro_wg.Core.Os.{Os}
use ferro_wg.Core.Ipc.{DaemonCommand, shutdown, stream_logs, DaemonResponse, done, decode_message}
use ferro_wg.Core.Tunnel.Updown.{Sys}
use ferro_wg.Core.Tunnel.Going.{down_all_lem}
use ferro_wg.Core.Daemon.Command.{handle_command, needs_config_reload, reload_config}
use ferro_wg.Core.Daemon.Serve.{
  Request, closed, line, read_command, is_shutdown, Ending, waiting, shut_down, command_or_reply,
  handle_accepted, process_command, route_command, handle_connection, drop_manager, serve,
}

abbrev pub is_shutdown_command : DaemonCommand → Bool
is_shutdown_command shutdown = true
is_shutdown_command _ = false

abbrev pub decodes_to_shutdown : Result DaemonCommand Text → Bool
decodes_to_shutdown (ok cmd) = is_shutdown_command cmd
decodes_to_shutdown (err _) = false

-- A line that asks the daemon to stop.
unfoldable pub asks_shutdown : (Text → Result DaemonCommand Text) → Request → Bool
asks_shutdown from_str closed = false
asks_shutdown from_str (line text) = decodes_to_shutdown (decode_message from_str text)

-- A connection among those before the first failing `accept` asks for it.
unfoldable pub any_shutdown : (Text → Result DaemonCommand Text) → List (Result Request Text) → Bool
any_shutdown from_str [] = false
any_shutdown from_str (err _ ∷ rest) = false
any_shutdown from_str (ok request ∷ rest) =
    asks_shutdown from_str request || any_shutdown from_str rest

-- The loop is over.
abbrev pub IsOver : Ending → Type 0
IsOver waiting = ⊥
IsOver _ = Unit

is_shutdown_lem :
    (r : DaemonResponse) (cmd : DaemonCommand)
    → is_shutdown_command cmd ≡ false
    → is_shutdown r cmd ≡ false
unfolding is_shutdown
is_shutdown_lem done shutdown h = ground (arith, h)
is_shutdown_lem _ _ h = refl

module _ (os : Os) (ext : External) (parser : Parser AppConfig) (path : Text) where
  process_command_stop :
      (cmd : DaemonCommand) (s : Sys os)
      → is_shutdown_command cmd ≡ false
      → (process_command os ext parser path cmd s).stop ≡ false
  unfolding process_command
  process_command_stop cmd s h =
      let loaded = if needs_config_reload cmd then reload_config os parser path s else s in
      is_shutdown_lem (handle_command os ext cmd loaded).0 cmd h

  route_command_stop :
      (cmd : DaemonCommand) (s : Sys os)
      → (route_command os ext parser path cmd s).stop ≡ is_shutdown_command cmd
  unfolding route_command process_command handle_command is_shutdown
  route_command_stop shutdown s = refl
  route_command_stop stream_logs s = refl
  route_command_stop cmd s = process_command_stop cmd s refl

  handle_accepted_stop :
      (decoded : Result DaemonCommand Text) (s : Sys os)
      → (handle_accepted os ext parser path (command_or_reply decoded) s).stop
        ≡ decodes_to_shutdown decoded
  unfolding handle_accepted command_or_reply
  handle_accepted_stop (ok cmd) s = route_command_stop cmd s
  handle_accepted_stop (err e) s = refl

  pub handle_connection_stop :
      (from_str : Text → Result DaemonCommand Text) (request : Request) (s : Sys os)
      → (handle_connection os ext parser path from_str request s).stop
        ≡ asks_shutdown from_str request
  unfolding handle_connection handle_accepted read_command asks_shutdown
  handle_connection_stop from_str closed s = refl
  handle_connection_stop from_str (line text) s =
      handle_accepted_stop (decode_message from_str text) s

  -- The loop ends by a shutdown exactly when a client asks for one, whatever the other commands
  -- are and however they end.
  pub serve_stops_iff :
      (from_str : Text → Result DaemonCommand Text) (requests : List (Result Request Text))
      (s : Sys os)
      → ((serve os ext parser path from_str requests s).ending ≡ shut_down)
        ↔ (any_shutdown from_str requests ≡ true)
  unfolding serve any_shutdown
  serve_stops_iff from_str [] s = ground arith
  serve_stops_iff from_str (err e ∷ rest) s = ground arith
  serve_stops_iff from_str (ok request ∷ rest) s =
      elim (Bool-cases (asks_shutdown from_str request)) [
        | inl stops ↦
            rw (handle_connection_stop from_str request s) (rw stops (λ _. refl, λ _. refl))
        | inr goes ↦ rw (handle_connection_stop from_str request s) (
            rw goes (
              serve_stops_iff from_str rest
                (handle_connection os ext parser path from_str request s).sys))
      ]

  -- Whenever the loop has ended, no connection is up.
  pub serve_leaves_none :
      (from_str : Text → Result DaemonCommand Text) (requests : List (Result Request Text))
      (s : Sys os)
      → IsOver (serve os ext parser path from_str requests s).ending
      → (serve os ext parser path from_str requests s).sys.manager.connections ≡ []
  unfolding serve drop_manager
  serve_leaves_none from_str [] s h = elim h [ ]
  serve_leaves_none from_str (err e ∷ rest) s h = (down_all_lem os ext s).1
  serve_leaves_none from_str (ok request ∷ rest) s h =
      let next = handle_connection os ext parser path from_str request s in
      elim (Bool-cases next.stop) [
        | inl stops ↦ rw stops ((down_all_lem os ext next.sys).1)
        | inr goes ↦ rw goes (serve_leaves_none from_str rest next.sys (rw goes at h))
      ]
