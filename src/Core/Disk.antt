-- ===== src/Core/Disk.antt =====
-- The file system as the programs and the tasks use it: `std::fs`, tokio's `fs` and `std::path`. It is
-- a parameter of the model; a path is its text.
use ferro_wg.Prelude.{Bool, Text, Option, Result, ok, ◌≡◌}
use ferro_wg.Prelude.Effect.{Eff}

-- An `io::Error`: whether its kind is `NotFound`, and its text.
pub record IoError : Type 0 where
  pub not_found : Bool
  pub message : Text

pub record Disk : Type 1 where
  pub World : Type 0
  pub read_file : Text → World → Result Text IoError
  pub write_file : Text → Text → Eff World Text (Unit {0})
  pub create_dir_all : Text → Eff World Text (Unit {0})
  pub exists : Text → World → Bool
  -- `Path::parent`, `file_stem` and `extension` as UTF-8 text, `with_extension` and `join`
  pub parent : Text → Option Text
  pub file_stem : Text → Option Text
  pub extension : Text → Option Text
  pub with_extension : Text → Text → Text

-- A file keeps what was written to it last.
pub record DiskLaws (disk : Disk) : Type 0 where
  pub read_written :
      (path text : Text) (w next : disk.World)
      → disk.write_file path text w ≡ (ok tt, next)
      → disk.read_file path next ≡ ok text

-- Two paths that do not lead to one file: no write to the first one changes what the second one
-- holds, and neither does the making of a directory.
pub record IsApart (disk : Disk) (path other : Text) : Type 0 where
  pub kept_by_write :
      (text held : Text) (w : disk.World)
      → disk.read_file other w ≡ ok held
      → disk.read_file other (disk.write_file path text w).1 ≡ ok held
  pub kept_by_create :
      (dir held : Text) (w : disk.World)
      → disk.read_file other w ≡ ok held
      → disk.read_file other (disk.create_dir_all dir w).1 ≡ ok held
