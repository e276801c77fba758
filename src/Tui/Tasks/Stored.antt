-- ===== src/Tui/Tasks/Stored.antt =====
-- What the configuration file holds after an import or a save.
use ferro_wg.Prelude.{
  ◌≡◌, ◌↔◌, refl, Text, some, Result, ok, err, Option-cases, Result-cases, inl, inr, sym, ◌∙◌,
}
use ferro_wg.Prelude.Effect.{with_err, Ends, bind_result, map_err_result}
use ferro_wg.External.{External}
use ferro_wg.Core.Error.{ConfigError}
use ferro_wg.Core.Config.{WgConfig, AppConfig, insert}
use ferro_wg.Core.Toml.{Printer, Parser}
use ferro_wg.Core.Toml.Files.{load_app_config}
use ferro_wg.Core.Toml.Saving.{save_app_config}
use ferro_wg.Core.Toml.Saved.{TomlLaws, validated, save_app_config-Loaded}
use ferro_wg.Core.Config.Valid.{IsName, IsValidConfig}
use ferro_wg.Core.Toml.Inserted.{validated-insert, load_app_config-IsValidApp}
use ferro_wg.Core.WgQuick.Sound.{load_from_str-IsValidConfig}
use ferro_wg.Core.Disk.{Disk, DiskLaws}
use ferro_wg.Core.WgQuick.Files.{load_from_file}
use ferro_wg.Tui.Error.{ImportError, could_not_save}
use ferro_wg.Tui.Tasks.Import.{try_import, connection_name_from_path, name_or_error}

load_from_file-IsValidConfig :
    (disk : Disk) (ext : External) (path : Text) (w : disk.World) (c : WgConfig)
    → load_from_file disk ext path w ≡ ok c
    → IsValidConfig c
unfolding load_from_file
load_from_file-IsValidConfig disk ext path w c h = elim (Result-cases (disk.read_file path w)) [
  | inr (e, f) ↦ cc (rw f at h)
  | inl (s, f) ↦ (load_from_str-IsValidConfig ext s c (rw f at h)).0
]

module _ (disk : Disk) (ext : External) (printer : Printer AppConfig)
    (parser : Parser AppConfig) where
  -- A successful import: the name, the configuration of the imported file under it, and when the
  -- configuration file loads again.
  abbrev pub Imported : Text → Text → disk.World → AppConfig × Text → disk.World → Type 0
  Imported import_path config_path w r next =
      (old : AppConfig) × (c : WgConfig) × (disk.file_stem import_path ≡ some (r.1))
      × (load_from_file disk ext import_path w ≡ ok c)
      × (load_app_config disk parser config_path w ≡ ok old)
      × (r.0 ≡ insert old (r.1) c)
      × ((load_app_config disk parser config_path next ≡ ok (r.0)) ↔ IsName (r.1))

  -- Nothing was written before the last step.
  abbrev pub Untouched : disk.World → ImportError → disk.World → Type 0
  Untouched w (could_not_save _) next = Unit
  Untouched w _ next = next ≡ w

  reloads :
      (import_path config_path name : Text) (c : WgConfig) (old : AppConfig) (w next : disk.World)
      → load_from_file disk ext import_path w ≡ ok c
      → load_app_config disk parser config_path w ≡ ok old
      → load_app_config disk parser config_path next ≡ validated (insert old name c)
      → (load_app_config disk parser config_path next ≡ ok (insert old name c)) ↔ IsName name
  reloads import_path config_path name c old w next parsed loaded held =
      let valid = load_from_file-IsValidConfig disk ext import_path w c parsed in
      let rule =
        validated-insert old name c
          (load_app_config-IsValidApp disk parser config_path w old loaded).connections in
      (λ h. (rule.0 (sym held ∙ h)).0, λ n. held ∙ rule.1 (n, valid))

  module _ (laws : DiskLaws disk) (toml : TomlLaws printer parser) where
    saved_import :
        (import_path config_path name : Text) (c : WgConfig) (old : AppConfig) (w : disk.World)
        → disk.file_stem import_path ≡ some name
        → load_from_file disk ext import_path w ≡ ok c
        → load_app_config disk parser config_path w ≡ ok old
        → Ends (Imported import_path config_path w) (Untouched w) (
            bind_result
              (with_err could_not_save
                (save_app_config disk printer (insert old name c) config_path)
                w)
              (λ _ s. (ok (insert old name c, name), s)))
    saved_import import_path config_path name c old w stem parsed loaded =
        ending (save_app_config disk printer (insert old name c) config_path w)
          (save_app_config-Loaded disk laws printer parser toml (insert old name c) config_path w)
      where
        ending :
            (r : Result (Unit {0}) ConfigError × disk.World)
            → Ends
                (λ _ next.
                  load_app_config disk parser config_path next ≡ validated (insert old name c))
                (λ _ _. Unit {0})
                r
            → Ends (Imported import_path config_path w) (Untouched w) (
                bind_result
                  (map_err_result could_not_save r)
                  (λ _ s. (ok (insert old name c, name), s)))
        ending (ok tt, next) h = (
          old,
          c,
          stem,
          parsed,
          loaded,
          refl,
          reloads import_path config_path name c old w next parsed loaded h,
        )
        ending (err e, next) h = tt

    -- After an import that succeeds, the connection that the file describes stands under the file's
    -- stem among the connections that were there, and the configuration file loads again as that
    -- exactly when the stem is a proper name. After one that fails before the saving, nothing has
    -- changed.
    pub try_import-Imported :
        (import_path config_path : Text) (w : disk.World)
        → Ends
            (Imported import_path config_path w)
            (Untouched w)
            (try_import disk ext printer parser import_path config_path w)
    unfolding try_import connection_name_from_path name_or_error
    try_import-Imported import_path config_path w =
        elim (Option-cases (disk.file_stem import_path)) [
          | inl e ↦ rw e refl
          | inr (name, stem) ↦
              rw stem (elim (Result-cases (load_from_file disk ext import_path w)) [
                | inr (m, e) ↦ rw e refl
                | inl (c, parsed) ↦
                    rw parsed (elim (Result-cases (load_app_config disk parser config_path w)) [
                      | inr (m, e) ↦ rw e refl
                      | inl (old, loaded) ↦
                          rw loaded
                            (saved_import import_path config_path name c old w stem parsed loaded)
                    ])
              ])
        ]
