-- ===== src/Program/Commands.antt =====
-- `cmd_up`, `cmd_down`, `cmd_daemon_stop`, `cmd_routes` and `cmd_genkey` of ferro-wg/src/main.rs.
use ferro_wg.Prelude.{
  ℕ, ◌-◌, not, ◌&&◌, List, [], ◌∷◌, ◌++◌, Text, Option, none, some, Result, ok, err, codes,
  if◌then◌else◌, length, last?, replicate, flat_map,
}
use ferro_wg.Prelude.Effect.{Eff, lift, with_err, ◌>>=◌}
use ferro_wg.External.{External}
use ferro_wg.Text.Split.{lines, has_part}
use ferro_wg.Core.Error.{boringtun}
use ferro_wg.Core.Key.{PrivateKey, PublicKey, private_to_base64, public_to_base64}
use ferro_wg.Core.Ipc.{DaemonCommand, DaemonResponse, up, down, shutdown, done, failed}
use ferro_wg.Core.Client.{DaemonClientError, is_not_running}
use ferro_wg.Program.Cli.{
  ProgramError, daemon_not_running, of_client, of_daemon, unexpected_response,
}

unfoldable pub client_error : DaemonClientError → ProgramError
client_error e = if is_not_running e then daemon_not_running else of_client e

-- What is printed when the daemon has done what it was asked for.
unfoldable pub done_or_error : List Text → DaemonResponse → Result (List Text) ProgramError
done_or_error printed done = ok printed
done_or_error printed (failed e) = err (of_daemon e)
done_or_error printed _ = err unexpected_response

unfoldable pub target : Option Text → Text
target none = codes "all connections"
target (some peer) = peer

module _ {W : Type 0} (send_command : DaemonCommand → Eff W DaemonClientError DaemonResponse) where
  unfoldable pub daemon_command : DaemonCommand → Eff W ProgramError DaemonResponse
  daemon_command cmd = with_err client_error (send_command cmd)

  unfoldable pub cmd_up : Option Text → Eff W ProgramError (List Text)
  cmd_up peer = do
    response ← daemon_command (up peer boringtun)
    lift (done_or_error ((codes "Brought up: " ++ target peer) ∷ []) response)

  unfoldable pub cmd_down : Option Text → Eff W ProgramError (List Text)
  cmd_down peer = do
    response ← daemon_command (down peer)
    lift (done_or_error ((codes "Tore down: " ++ target peer) ∷ []) response)

  unfoldable pub cmd_daemon_stop : Eff W ProgramError (List Text)
  cmd_daemon_stop = do
    response ← daemon_command shutdown
    lift (done_or_error (codes "Daemon stopped." ∷ []) response)

-- `{:<width}`
unfoldable pub pad_right : ℕ → Text → Text
pad_right width s = s ++ replicate (width - length s) b' '

unfoldable pub or_dash : Option Text → Text
or_dash none = codes "-"
or_dash (some s) = s

unfoldable pub columns : Text → Text → Text → Text → Text
columns a b c d =
    pad_right 24 a
    ++ (codes " " ++ (pad_right 24 b ++ (codes " " ++ (pad_right 8 c ++ (codes " " ++ d)))))

-- The words of a line of `netstat` that has a tunnel's interface; `split_whitespace` is a parameter.
unfoldable pub route_row : Text → List Text → List Text
route_row line (a ∷ b ∷ c ∷ d ∷ rest) =
    if has_part (codes "utun") line
      && (not (has_part (codes "fe80") line) && not (has_part (codes "ff0") line))
    then columns a b c (or_dash (last? (d ∷ rest))) ∷ []
    else []
route_row line _ = []

unfoldable pub routes_or_none : List Text → List Text
routes_or_none [] = codes "  (no tunnel routes found)" ∷ []
routes_or_none rows = rows

unfoldable pub cmd_routes : (Text → List Text) → Text → List Text
cmd_routes split_whitespace stdout =
    codes "Active tunnel routes:\n"
    ∷ columns (codes "Destination") (codes "Gateway") (codes "Flags") (codes "Interface")
    ∷ replicate 72 b'-'
    ∷ routes_or_none (flat_map (λ l. route_row l (split_whitespace l)) (lines stdout))

-- The key pair is the x25519_dalek crate's.
unfoldable pub cmd_genkey : External → PrivateKey → PublicKey → List Text
cmd_genkey ext private public =
    (codes "private key: " ++ private_to_base64 ext private)
    ∷ (codes "public key:  " ++ public_to_base64 ext public)
    ∷ []
