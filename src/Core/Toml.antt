-- ===== src/Core/Toml.antt =====
-- ferro-wg-core/src/config/toml.rs, without its file access: the toml crate's printer and parser
-- are parameters, whose errors are kept as their messages.
pub mod Files
pub mod Saving
pub mod Saved
pub mod Inserted
use ferro_wg.Prelude.{Text, arith, Result, ok, ◌>>=◌, ◌>>◌, map_err, ◌≡◌, Result-cases, inl, inr}
use ferro_wg.Core.Error.{ConfigError, toml_parse}
use ferro_wg.Core.Config.{WgConfig, AppConfig, validate, validate_app}
use ferro_wg.Core.Config.Valid.{IsValidApp, validate_app_iff}

abbrev pub Printer : Type 0 → Type 0
Printer A = A → Result Text Text

abbrev pub Parser : Type 0 → Type 0
Parser A = Text → Result A Text

unfoldable pub save_to_string : Printer WgConfig → WgConfig → Result Text ConfigError
save_to_string printer config = map_err toml_parse (printer config)

unfoldable pub load_from_str : Parser WgConfig → Text → Result WgConfig ConfigError
load_from_str parser s = do config ← map_err toml_parse (parser s); validate config; ok config

unfoldable pub load_app_config_str : Parser AppConfig → Text → Result AppConfig ConfigError
load_app_config_str parser s = do
  config ← map_err toml_parse (parser s)
  validate_app config
  ok config

-- A configuration file that loads is valid, and is what the toml crate reads.
pub load_app_config_str-IsValidApp :
    (parser : Parser AppConfig) (s : Text) (a : AppConfig)
    → load_app_config_str parser s ≡ ok a
    → (parser s ≡ ok a) × IsValidApp a
unfolding load_app_config_str
load_app_config_str-IsValidApp parser s a h = elim (Result-cases (parser s)) [
  | inr (x, e) ↦ ground (arith, h, e)
  | inl (b, e) ↦ elim (Result-cases (validate_app b)) [
    | inr (x, f) ↦ ground (arith, h, e, f)
    | inl (u, f) ↦ ground (arith, h, e, f, validate_app_iff b)
  ]
]
