-- ===== src/Core/Toml/Files.antt =====
-- Reading a file, as ferro-wg-core/src/config/toml.rs does.
use ferro_wg.Prelude.{Text, Result, map_err, ◌>>=◌}
use ferro_wg.Core.Error.{ConfigError, toml_parse}
use ferro_wg.Core.Config.{WgConfig, AppConfig}
use ferro_wg.Core.Disk.{Disk}
use ferro_wg.Core.Toml.{Parser, load_from_str, load_app_config_str}

module _ (disk : Disk) where
  abbrev pub read_toml : Text → disk.World → Result Text ConfigError
  read_toml path w = map_err (λ e. toml_parse e.message) (disk.read_file path w)

  unfoldable pub load_from_file : Parser WgConfig → Text → disk.World → Result WgConfig ConfigError
  load_from_file parser path w = read_toml path w >>= load_from_str parser

  unfoldable pub load_app_config :
      Parser AppConfig → Text → disk.World → Result AppConfig ConfigError
  load_app_config parser path w = read_toml path w >>= load_app_config_str parser
