-- ===== src/Tui/Tasks/Backup.antt =====
-- What the configuration file and its backup hold after `try_save_config` of ferro-wg-tui/src/lib.rs.
use ferro_wg.Prelude.{◌≡◌, ◌↔◌, refl, Text, Result, ok, err, Result-cases, inl, inr, sym, ◌∙◌}
use ferro_wg.Prelude.Effect.{with_err, Ends, bind_result, map_err_result}
use ferro_wg.Core.Error.{ConfigError}
use ferro_wg.Core.Config.{WgConfig, AppConfig, insert}
use ferro_wg.Core.Config.Valid.{IsName, IsValidConfig}
use ferro_wg.Core.Disk.{Disk, DiskLaws, IsApart}
use ferro_wg.Core.Toml.{Printer, Parser}
use ferro_wg.Core.Toml.Files.{load_app_config}
use ferro_wg.Core.Toml.Saving.{save_app_config, save_app_config_string}
use ferro_wg.Core.Toml.Saved.{
  TomlLaws, validated, loads_kept, save_app_config-Loaded, save_app_config-kept,
}
use ferro_wg.Core.Toml.Inserted.{validated-insert, validated_iff, load_app_config-IsValidApp}
use ferro_wg.Tui.Error.{SaveError, could_not_write, could_not_back_up}
use ferro_wg.Tui.Tasks.Saves.{backup_path, save_with_backup}

module _ (disk : Disk) (printer : Printer AppConfig) (parser : Parser AppConfig) where
  -- The old configuration was there, and the backup loads as it.
  abbrev pub BackedUp : Text → AppConfig → disk.World → disk.World → Type 0
  BackedUp path old w next =
      (load_app_config disk parser path w ≡ ok old)
      × (load_app_config disk parser (backup_path disk path) next ≡ ok old)

  abbrev pub SavedDraft : Text → WgConfig → Text → disk.World → AppConfig → disk.World → Type 0
  SavedDraft name draft path w new next =
      (old : AppConfig) × BackedUp path old w next
      × (new ≡ insert old name draft)
      × ((load_app_config disk parser path next ≡ ok new) ↔ (IsName name × IsValidConfig draft))

  -- What an error leaves: nothing is written before the backup, and the backup is there when the last
  -- step fails.
  abbrev pub NotSaved : Text → disk.World → SaveError → disk.World → Type 0
  NotSaved path w (could_not_back_up _) next = Unit
  NotSaved path w (could_not_write _) next = (old : AppConfig) × BackedUp path old w next
  NotSaved path w _ next = next ≡ w

  module _ (laws : DiskLaws disk) (toml : TomlLaws printer parser) (path : Text)
      (apart : IsApart disk path (backup_path disk path)) where
    module _ (name : Text) (draft : WgConfig) (old : AppConfig) (text : Text) (w : disk.World)
        (loaded : load_app_config disk parser path w ≡ ok old)
        (printed : printer old ≡ ok text) where
      backup_loads :
          (next : disk.World)
          → disk.read_file (backup_path disk path) next ≡ ok text
          → load_app_config disk parser (backup_path disk path) next ≡ ok old
      backup_loads next held =
          loads_kept disk laws printer parser toml old text (backup_path disk path) next printed
            held
          ∙ (validated_iff old).1 (load_app_config-IsValidApp disk parser path w old loaded)

      written_draft :
          (r : Result (Unit {0}) ConfigError × disk.World)
          → disk.read_file (backup_path disk path) r.1 ≡ ok text
          → Ends
              (λ _ next. load_app_config disk parser path next ≡ validated (insert old name draft))
              (λ _ _. Unit {0})
              r
          → Ends (SavedDraft name draft path w) (NotSaved path w) (
              bind_result
                (map_err_result could_not_write r)
                (λ _ s. (ok (insert old name draft), s)))
      written_draft (err e, next) kept h = (old, (loaded, backup_loads next kept))
      written_draft (ok u, next) kept h =
          let rule =
            validated-insert old name draft
              (load_app_config-IsValidApp disk parser path w old loaded).connections in
          (
            old,
            (loaded, backup_loads next kept),
            refl,
            (λ again. rule.0 (sym h ∙ again), λ new. h ∙ rule.1 new),
          )

      backed_up :
          (r : Result (Unit {0}) Text × disk.World)
          → disk.write_file (backup_path disk path) text w ≡ r
          → Ends (SavedDraft name draft path w) (NotSaved path w) (
              bind_result (map_err_result could_not_back_up r) (λ _ s.
                bind_result
                  (with_err could_not_write
                    (save_app_config disk printer (insert old name draft) path)
                    s)
                  (λ _ s'. (ok (insert old name draft), s'))))
      backed_up (err e, next) h = tt
      backed_up (ok u, next) h =
          let written = laws.read_written (backup_path disk path) text w next h in
          written_draft (save_app_config disk printer (insert old name draft) path next)
            (save_app_config-kept disk apart text printer (insert old name draft) next written)
            (save_app_config-Loaded disk laws printer parser toml (insert old name draft) path next)

    -- After a draft was saved, the backup file loads as the configuration that was there, the new
    -- configuration is the old one with the draft under its name, and the file loads as it exactly
    -- when the name is proper and the draft is valid. When the last step fails, the backup loads as
    -- the configuration that was there; when an earlier one than the backup fails, nothing changes.
    pub save_with_backup-SavedDraft :
        (name : Text) (draft : WgConfig) (w : disk.World)
        → Ends
            (SavedDraft name draft path w)
            (NotSaved path w)
            (save_with_backup disk printer parser name draft path w)
    unfolding save_with_backup save_app_config_string
    save_with_backup-SavedDraft name draft w =
        elim (Result-cases (load_app_config disk parser path w)) [
          | inr (m, e) ↦ rw e refl
          | inl (old, loaded) ↦ rw loaded (elim (Result-cases (printer old)) [
            | inr (m, e) ↦ rw e refl
            | inl (text, printed) ↦ rw printed (
                backed_up name draft old text w loaded printed
                  (disk.write_file (backup_path disk path) text w) refl)
          ])
        ]
