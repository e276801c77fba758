-- ===== src/Tui/Tasks/Saves.antt =====
-- `spawn_save_config_task` of ferro-wg-tui/src/lib.rs.
use ferro_wg.Prelude.{
  Bool, List, [], ◌∷◌, Text, some, Result, ok, err, map_err, codes, if◌then◌else◌,
}
use ferro_wg.Prelude.Effect.{Eff, lift, pure, with_err, ◌>>=◌, ◌>>◌}
use ferro_wg.Core.Error.{boringtun}
use ferro_wg.Core.Config.{WgConfig, AppConfig, insert}
use ferro_wg.Core.Toml.{Printer, Parser}
use ferro_wg.Core.Toml.Files.{load_app_config}
use ferro_wg.Core.Toml.Saving.{save_app_config_string, save_app_config}
use ferro_wg.Core.Ipc.{DaemonCommand, up, down}
use ferro_wg.Core.Disk.{Disk}
use ferro_wg.Tui.Error.{
  SaveError, could_not_load, could_not_serialise, could_not_write, could_not_back_up, of_save,
  generic,
}
use ferro_wg.Tui.Keys.Commands.{DaemonMessage, command_error, reload_config}

unfoldable pub backup_path : Disk → Text → Text
backup_path disk path = disk.with_extension path (codes "toml.bak")

module _ (disk : Disk) (printer : Printer AppConfig) (parser : Parser AppConfig) where
  -- The closure: the old configuration is written to the backup file, then the draft is put in.
  unfoldable pub save_with_backup : Text → WgConfig → Text → Eff disk.World SaveError AppConfig
  save_with_backup connection_name draft config_path w =
      (do
        app_config ← lift (map_err could_not_load (load_app_config disk parser config_path w))
        backup_content ←
            lift (map_err could_not_serialise (save_app_config_string printer app_config))
        with_err could_not_back_up (disk.write_file (backup_path disk config_path) backup_content)
        with_err could_not_write
            (save_app_config disk printer (insert app_config connection_name draft) config_path)
        pure (insert app_config connection_name draft))
        w

unfoldable pub save_message : Result AppConfig SaveError → DaemonMessage
save_message (ok config) = reload_config config (codes "Config saved")
save_message (err e) = command_error (generic (of_save e))

module _ (disk : Disk) (printer : Printer AppConfig) (parser : Parser AppConfig) where
  unfoldable pub try_save_config : Text → WgConfig → Text → disk.World → DaemonMessage × disk.World
  try_save_config connection_name draft config_path w =
      let (r, next) = save_with_backup disk printer parser connection_name draft config_path w in
      (save_message r, next)

-- What the task sends to the daemon afterwards, whatever came of the saving; the answers are dropped.
unfoldable pub reconnect_commands : Text → Bool → List DaemonCommand
reconnect_commands name reconnect =
    if reconnect then down (some name) ∷ up (some name) boringtun ∷ [] else []
