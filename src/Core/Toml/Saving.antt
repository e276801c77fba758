-- ===== src/Core/Toml/Saving.antt =====
-- Writing a file, as ferro-wg-core/src/config/toml.rs does.
use ferro_wg.Prelude.{◌++◌, Text, Option, none, some, Result, map_err, codes}
use ferro_wg.Prelude.Effect.{Eff, pure, lift, with_err, ◌>>=◌, ◌>>◌}
use ferro_wg.Core.Error.{ConfigError, toml_parse}
use ferro_wg.Core.Config.{WgConfig, AppConfig}
use ferro_wg.Core.Disk.{Disk}
use ferro_wg.Core.Toml.{Printer, save_to_string}

unfoldable pub save_app_config_string : Printer AppConfig → AppConfig → Result Text ConfigError
save_app_config_string printer config = map_err toml_parse (printer config)

module _ (disk : Disk) where
  -- The directory of the file; a path with no parent has none to make.
  unfoldable pub create_parent : Option Text → Eff disk.World ConfigError (Unit {0})
  create_parent none = pure tt
  create_parent (some dir) =
      with_err (λ e. toml_parse (codes "create dir: " ++ e)) (disk.create_dir_all dir)

  unfoldable pub write_with_parent : Text → Text → Eff disk.World ConfigError (Unit {0})
  write_with_parent contents path =
      create_parent (disk.parent path) >> with_err toml_parse (disk.write_file path contents)

  unfoldable pub save_to_file :
      Printer WgConfig → WgConfig → Text → Eff disk.World ConfigError (Unit {0})
  save_to_file printer config path = do
    contents ← lift (save_to_string printer config)
    write_with_parent contents path

  unfoldable pub save_app_config :
      Printer AppConfig → AppConfig → Text → Eff disk.World ConfigError (Unit {0})
  save_app_config printer config path = do
    contents ← lift (save_app_config_string printer config)
    write_with_parent contents path
