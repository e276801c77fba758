-- ===== src/Program/Status.antt =====
-- `cmd_status` of ferro-wg/src/main.rs: the lines that it prints. Deriving a public key is the
-- x25519_dalek crate's.
use ferro_wg.Prelude.{
  ℕ, ◌/◌, ◌&&◌, List, [], ◌∷◌, ◌++◌, map, Text, Option, none, some, Result, ok, err, codes,
  if◌then◌else◌, is_empty, ltb, flat_map, ◌==◌, nat_eq,
}
use ferro_wg.Prelude.Effect.{Eff, ◌>>=◌}
use ferro_wg.External.{External}
use ferro_wg.Text.Number.{show_nat}
use ferro_wg.Text.Split.{join}
use ferro_wg.Core.Error.{BackendKind, boringtun, neptun, gotatun}
use ferro_wg.Core.Key.{PrivateKey, PublicKey, public_to_base64}
use ferro_wg.Core.Config.{WgConfig, AppConfig, get}
use ferro_wg.Core.Stats.{TunnelStats}
use ferro_wg.Core.Disk.{Disk}
use ferro_wg.Core.Toml.{Parser}
use ferro_wg.Core.Toml.Files.{load_app_config}
use ferro_wg.Core.Ipc.{
  PeerStatus, DaemonCommand, status, DaemonResponse, failed, statuses, log_entry,
}
use ferro_wg.Core.Client.{DaemonClientError}
use ferro_wg.Program.Cli.{ProgramError, of_daemon, unexpected_response, unexpected_log_entry}
use ferro_wg.Program.Commands.{daemon_command, or_dash}

unfoldable pub backend_name : BackendKind → Text
backend_name boringtun = codes "boringtun"
backend_name neptun = codes "neptun"
backend_name gotatun = codes "gotatun"

unfoldable pub handshake_line : Option ℕ → List Text
handshake_line none = []
handshake_line (some hs) =
    (codes "  last handshake: " ++ (show_nat (hs / 1_000_000_000) ++ codes "s ago")) ∷ []

unfoldable pub one_way_warning : TunnelStats → List Text
one_way_warning stats =
    if stats.rx_bytes == 0 && ltb 0 stats.tx_bytes
    then codes
        "  \u{1b}[33mwarning: sending but not receiving — server may not have this public key\u{1b}[0m"
      ∷ []
    else []

unfoldable pub traffic_lines : PeerStatus → List Text
traffic_lines peer =
    if peer.connected
    then (codes "  tx: " ++ (show_nat peer.stats.tx_bytes ++ codes " bytes"))
      ∷ (codes "  rx: " ++ (show_nat peer.stats.rx_bytes ++ codes " bytes"))
      ∷ (one_way_warning peer.stats ++ handshake_line peer.stats.last_handshake)
    else []

unfoldable pub address_line : List Text → List Text
address_line addresses =
    if is_empty addresses then [] else (codes "  address: " ++ join (codes ", ") addresses) ∷ []

module _ (ext : External) (public_key : PrivateKey → PublicKey) where
  unfoldable pub config_lines : Option WgConfig → List Text
  config_lines none = []
  config_lines (some wg) =
      (codes "  public key: " ++ public_to_base64 ext (public_key wg.interface.private_key))
      ∷ (address_line wg.interface.addresses
          ++ map (λ p. codes "  allowed ips: " ++ join (codes ", ") p.allowed_ips) wg.peers)

  unfoldable pub config_of : Option AppConfig → Text → Option WgConfig
  config_of none name = none
  config_of (some config) name = get config name

  unfoldable pub peer_lines : Option AppConfig → PeerStatus → List Text
  peer_lines config peer =
      (codes "connection: " ++ peer.name)
      ∷ (codes "  status: " ++ (if peer.connected then codes "connected" else codes "disconnected"))
      ∷ (codes "  backend: " ++ backend_name peer.backend)
      ∷ (codes "  endpoint: " ++ or_dash peer.endpoint)
      ∷ (codes "  interface: " ++ or_dash peer.interface)
      ∷ (config_lines (config_of config peer.name) ++ (traffic_lines peer ++ [] ∷ []))

  unfoldable pub status_lines : Option AppConfig → DaemonResponse → Result (List Text) ProgramError
  status_lines config (statuses peers) =
      if is_empty peers
      then ok (codes "No connections configured." ∷ [])
      else ok (flat_map (peer_lines config) peers)
  status_lines config (failed e) = err (of_daemon e)
  status_lines config (log_entry _) = err unexpected_log_entry
  status_lines config _ = err unexpected_response

-- The configuration gives details only; without it, or with one that does not load, there are none.
unfoldable pub details : (disk : Disk) → Parser AppConfig → Text → disk.World → Option AppConfig
details disk parser path w =
    if disk.exists path w
    then (elim (load_app_config disk parser path w) [ ok config ↦ some config | err _ ↦ none ])
    else none

module _ {W : Type 0} (send_command : DaemonCommand → Eff W DaemonClientError DaemonResponse)
    (ext : External) (public_key : PrivateKey → PublicKey) where
  -- The configuration is read when the daemon has answered.
  unfoldable pub cmd_status : (W → Option AppConfig) → Eff W ProgramError (List Text)
  cmd_status config = do
    response ← daemon_command send_command status
    (λ w. (status_lines ext public_key (config w) response, w))
