-- ===== src/Tests/Config.antt =====
-- Runs of ferro-wg-core/src/config/mod.rs and the pure parts of the interface's state.
use ferro_wg.Prelude.{◌≡◌, refl, Text, ok, codes, ◌↔◌, text_eq, all, true}
use ferro_wg.Core.Config.{validate, validate_name, validate_peers, validate_peer, validate_app}
use ferro_wg.Core.Config.Valid.{IsValidApp, validate_app_iff}
use ferro_wg.Tui.ConfigEdit.Diff.{config_diff, old_side, new_side, config_diff-sides, is_context}
use ferro_wg.Text.Order.{byte_len}
use ferro_wg.Text.Split.{lines}
use ferro_wg.Samples.{sample_config, sample_app}

validate-sample : validate sample_config ≡ ok tt
unfolding validate validate_peers validate_peer validate_name byte_len
validate-sample = refl

validate_app_iff_example : (validate_app sample_app ≡ ok tt) ↔ IsValidApp sample_app
validate_app_iff_example = validate_app_iff sample_app

abbrev old_toml : Text
old_toml = codes "a = 1\nb = 2\n"

abbrev new_toml : Text
new_toml = codes "a = 1\nb = 3\n"

config_diff-sides_example :
    (old_side (config_diff old_toml new_toml) ≡ lines old_toml)
    × (new_side (config_diff old_toml new_toml) ≡ lines new_toml)
    × ((all is_context (config_diff old_toml new_toml) ≡ true) ↔ (lines old_toml ≡ lines new_toml))
config_diff-sides_example = config_diff-sides old_toml new_toml
