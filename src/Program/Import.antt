-- ===== src/Program/Import.antt =====
-- `cmd_import` and `load_app_config` of ferro-wg/src/main.rs.
use ferro_wg.Prelude.{
  ℕ, suc, List, [], ◌∷◌, ◌++◌, Text, Option, none, some, Result, ok, err, map_err, codes, is_empty,
  if◌then◌else◌, length, ◌==◌, nat_eq,
}
use ferro_wg.Prelude.Effect.{Eff, lift, pure, with_err, ◌>>=◌, ◌>>◌}
use ferro_wg.External.{External}
use ferro_wg.Text.Number.{show_nat}
use ferro_wg.Core.Config.{PeerConfig, WgConfig, AppConfig, default_log_display, insert}
use ferro_wg.Core.Disk.{Disk}
use ferro_wg.Core.Toml.{Printer, Parser}
use ferro_wg.Core.Toml.Saving.{save_app_config}
use ferro_wg.Core.Toml.Files
use ferro_wg.Core.WgQuick.Files.{load_from_file}
use ferro_wg.Program.Cli.{ProgramError, of_config, of_file, config_not_found}

unfoldable pub name_or_default : Option Text → Text
name_or_default none = codes "default"
name_or_default (some stem) = stem

unfoldable pub peer_name : Text → ℕ → ℕ → Text
peer_name conn peer_count i = if peer_count == 1 then conn else conn ++ (codes "-" ++ show_nat i)

unfoldable pub name_peer : Text → ℕ → ℕ → PeerConfig → PeerConfig
name_peer conn peer_count i peer =
    if is_empty peer.name then record peer { name = peer_name conn peer_count i } else peer

-- The loop over the peers, from the index `i`.
unfoldable pub name_peers : Text → ℕ → ℕ → List PeerConfig → List PeerConfig
name_peers conn peer_count i [] = []
name_peers conn peer_count i (peer ∷ peers) =
    name_peer conn peer_count i peer ∷ name_peers conn peer_count (suc i) peers

unfoldable pub named_config : Text → WgConfig → WgConfig
named_config conn c = record c { peers = name_peers conn (length c.peers) 0 c.peers }

abbrev pub default_app_config : AppConfig
default_app_config = record { connections = []; log_display = default_log_display }

module _ (disk : Disk) (ext : External) (printer : Printer AppConfig)
    (parser : Parser AppConfig) where
  unfoldable pub load_or_create : Text → disk.World → Result AppConfig ProgramError
  load_or_create path w =
      if disk.exists path w
      then map_err of_config (Files.load_app_config disk parser path w)
      else ok default_app_config

  unfoldable pub cmd_import : Text → Text → Eff disk.World ProgramError AppConfig
  cmd_import src_path dst_path w =
      (do
        wg_config ← lift (map_err of_file (load_from_file disk ext src_path w))
        app_config ← lift (load_or_create dst_path w)
        let conn = name_or_default (disk.file_stem src_path)
        let new = insert app_config conn (named_config conn wg_config)
        with_err of_config (save_app_config disk printer new dst_path)
        pure new)
        w

  unfoldable pub load_app_config : Text → disk.World → Result AppConfig ProgramError
  load_app_config path w =
      if disk.exists path w
      then map_err of_config (Files.load_app_config disk parser path w)
      else err (config_not_found path)
