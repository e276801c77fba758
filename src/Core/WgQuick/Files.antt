-- ===== src/Core/WgQuick/Files.antt =====
-- `load_from_file` of ferro-wg-core/src/config/wg_quick.rs.
use ferro_wg.Prelude.{Text, Result, map_err, ◌>>=◌}
use ferro_wg.External.{External}
use ferro_wg.Core.Error.{toml_parse}
use ferro_wg.Core.Config.{WgConfig}
use ferro_wg.Core.Disk.{Disk}
use ferro_wg.Core.WgQuick.Parse.{Stop, invalid, load_from_str}

unfoldable pub load_from_file : (disk : Disk) → External → Text → disk.World → Result WgConfig Stop
load_from_file disk ext path w = do
  contents ← map_err (λ e. invalid (toml_parse e.message)) (disk.read_file path w)
  load_from_str ext contents
