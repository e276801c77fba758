-- ===== src/Tui/Tasks/Import.antt =====
-- `spawn_import_task` of ferro-wg-tui/src/lib.rs.
use ferro_wg.Prelude.{◌++◌, Text, Option, none, some, Result, ok, err, map_err, codes}
use ferro_wg.Prelude.Effect.{Eff, lift, pure, with_err, ◌>>=◌, ◌>>◌}
use ferro_wg.External.{External}
use ferro_wg.Core.Config.{AppConfig, insert}
use ferro_wg.Core.Toml.{Printer, Parser}
use ferro_wg.Core.Toml.Files.{load_app_config}
use ferro_wg.Core.Toml.Saving.{save_app_config}
use ferro_wg.Core.Disk.{Disk}
use ferro_wg.Core.WgQuick.Files.{load_from_file}
use ferro_wg.Tui.Error.{
  ImportError, no_name, import_failed, could_not_load, could_not_save, config_import_failed,
}
use ferro_wg.Tui.Keys.Commands.{DaemonMessage, command_error, reload_config}

unfoldable pub name_or_error : Text → Option Text → Result Text ImportError
name_or_error path none = err (no_name path)
name_or_error path (some name) = ok name

unfoldable pub connection_name_from_path : Disk → Text → Result Text ImportError
connection_name_from_path disk path = name_or_error path (disk.file_stem path)

module _ (disk : Disk) (ext : External) (printer : Printer AppConfig)
    (parser : Parser AppConfig) where
  unfoldable pub try_import : Text → Text → Eff disk.World ImportError (AppConfig × Text)
  try_import import_path config_path w =
      (do
        name ← lift (connection_name_from_path disk import_path)
        wg_config ← lift (map_err import_failed (load_from_file disk ext import_path w))
        app_config ← lift (map_err could_not_load (load_app_config disk parser config_path w))
        with_err could_not_save
            (save_app_config disk printer (insert app_config name wg_config) config_path)
        pure (insert app_config name wg_config, name))
        w

unfoldable pub import_message : Result (AppConfig × Text) ImportError → DaemonMessage
import_message (ok (config, name)) = reload_config config (codes "Imported: " ++ name)
import_message (err e) = command_error (config_import_failed e)

module _ (disk : Disk) (ext : External) (printer : Printer AppConfig)
    (parser : Parser AppConfig) where
  unfoldable pub import_and_persist : Text → Text → disk.World → DaemonMessage × disk.World
  import_and_persist import_path config_path w =
      let (r, next) = try_import disk ext printer parser import_path config_path w in
      (import_message r, next)
