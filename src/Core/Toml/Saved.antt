-- ===== src/Core/Toml/Saved.antt =====
-- What a file holds once ferro-wg-core/src/config/toml.rs has saved a configuration to it.
use ferro_wg.Prelude.{
  codes, ◌++◌, ◌≡◌, refl, Text, Option, none, some, Result, ok, err, Result-cases, inl, inr, ◌>>◌,
}
use ferro_wg.Prelude.Effect.{with_err, Ends, bind-Ends_all, Ends-map, map_err_result, bind_result}
use ferro_wg.Core.Error.{ConfigError, toml_parse}
use ferro_wg.Core.Config.{AppConfig, validate_app}
use ferro_wg.Core.Disk.{Disk, DiskLaws, IsApart}
use ferro_wg.Core.Toml.{Printer, Parser, load_app_config_str}
use ferro_wg.Core.Toml.Files.{load_app_config}
use ferro_wg.Core.Toml.Saving.{
  save_app_config_string, create_parent, write_with_parent, save_app_config,
}

-- The toml crate reads what it prints.
pub record TomlLaws {A : Type 0} (printer : Printer A) (parser : Parser A) : Type 0 where
  pub read_printed : (a : A) (text : Text) → printer a ≡ ok text → parser text ≡ ok a

-- A configuration that is valid, or the error of its validation.
abbrev pub validated : AppConfig → Result AppConfig ConfigError
validated a = elim (validate_app a) [ ok _ ↦ ok a | err e ↦ err e ]

module _ (disk : Disk) (laws : DiskLaws disk) where
  -- What is left after a step that writes, which may fail.
  abbrev pub Leaves : (disk.World → Type 0) → Result (Unit {0}) ConfigError × disk.World → Type 0
  Leaves P = Ends (λ _ next. P next) (λ _ _. Unit)

  abbrev pub Keeps : Text → Text → disk.World → Type 0
  Keeps contents path next = disk.read_file path next ≡ ok contents

  written-Leaves :
      (contents path : Text) (w : disk.World) (r : Result (Unit {0}) Text × disk.World)
      → disk.write_file path contents w ≡ r
      → Leaves (Keeps contents path) (map_err_result toml_parse r)
  written-Leaves contents path w (ok tt, next) e = laws.read_written path contents w next e
  written-Leaves contents path w (err m, next) e = tt

  write_with_parent-Leaves :
      (contents path : Text) (w : disk.World)
      → Leaves (Keeps contents path) (write_with_parent disk contents path w)
  unfolding write_with_parent
  write_with_parent-Leaves contents path w =
      bind-Ends_all (λ (_ : Unit {0}) next. Keeps contents path next)
        (λ (_ : ConfigError) _. Unit {0}) (create_parent disk (disk.parent path) w)
        (λ _. with_err toml_parse (disk.write_file path contents))
        (λ _ s. written-Leaves contents path s (disk.write_file path contents s) refl) (λ _ _. tt)

  module _ (printer : Printer AppConfig) (parser : Parser AppConfig)
      (toml : TomlLaws printer parser) where
    abbrev pub Loaded : AppConfig → Text → disk.World → Type 0
    Loaded config path next = load_app_config disk parser path next ≡ validated config

    pub loads_kept :
        (config : AppConfig) (text path : Text) (next : disk.World)
        → printer config ≡ ok text
        → Keeps text path next
        → Loaded config path next
    unfolding load_app_config load_app_config_str
    loads_kept config text path next printed held =
        rw held (rw (toml.read_printed config text printed) (validation (validate_app config)))
      where
        validation :
            (r : Result (Unit {0}) ConfigError)
            → (do r; ok config) ≡ (elim r [ ok _ ↦ ok config | err e ↦ err e ])
        validation (ok tt) = refl
        validation (err e) = refl

    -- After a configuration was saved to a file, loading it gives the same configuration, or the
    -- error of its validation.
    pub save_app_config-Loaded :
        (config : AppConfig) (path : Text) (w : disk.World)
        → Leaves (Loaded config path) (save_app_config disk printer config path w)
    unfolding save_app_config save_app_config_string
    save_app_config-Loaded config path w = elim (Result-cases (printer config)) [
      | inr (m, e) ↦ rw e tt
      | inl (text, e) ↦ rw e (
          Ends-map (λ (_ : Unit {0}) next. Keeps text path next)
            (λ (_ : Unit {0}) next. Loaded config path next) (λ (_ : ConfigError) _. Unit {0})
            (λ (_ : ConfigError) _. Unit {0}) (write_with_parent disk text path w)
            (λ _ next held. loads_kept config text path next e held) (λ _ _ h. tt)
            (write_with_parent-Leaves text path w))
    ]

map_err-state : {S E F A : Type 0} (f : E → F) (r : Result A E × S) → (map_err_result f r).1 ≡ r.1
map_err-state f (ok a, s) = refl
map_err-state f (err e, s) = refl

module _ (disk : Disk) {path other : Text} (apart : IsApart disk path other) (held : Text) where
  created-kept :
      (dir : Option Text) (w : disk.World)
      → disk.read_file other w ≡ ok held
      → disk.read_file other (create_parent disk dir w).1 ≡ ok held
  unfolding create_parent
  created-kept none w h = h
  created-kept (some dir) w h =
      rw (map_err-state (λ e. toml_parse (codes "create dir: " ++ e)) (disk.create_dir_all dir w))
        (apart.kept_by_create dir held w h)

  -- A file that is not the one that is written to keeps its contents, also when the saving fails.
  pub save_app_config-kept :
      (printer : Printer AppConfig) (config : AppConfig) (w : disk.World)
      → disk.read_file other w ≡ ok held
      → disk.read_file other (save_app_config disk printer config path w).1 ≡ ok held
  unfolding save_app_config save_app_config_string write_with_parent
  save_app_config-kept printer config w h = elim (Result-cases (printer config)) [
    | inr (m, e) ↦ rw e h
    | inl (text, e) ↦ rw e (
        written text (create_parent disk (disk.parent path) w)
          (created-kept (disk.parent path) w h))
  ]
    where
      written :
          (text : Text) (r : Result (Unit {0}) ConfigError × disk.World)
          → disk.read_file other r.1 ≡ ok held
          → disk.read_file other
              (bind_result r (λ _. with_err toml_parse (disk.write_file path text))).1
            ≡ ok held
      written text (err e, s) h = h
      written text (ok u, s) h =
          rw (map_err-state toml_parse (disk.write_file path text s))
            (apart.kept_by_write text held s h)
