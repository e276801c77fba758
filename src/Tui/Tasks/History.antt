-- ===== src/Tui/Tasks/History.antt =====
-- ferro-wg-tui/src/history.rs and `spawn_export_task`: the files of the benchmark runs. serde_json is a
-- parameter, and so is the display of a path.
use ferro_wg.Prelude.{
  Bool, false, List, [], ◌++◌, Text, Option, none, some, Result, ok, err, map_err, codes, is_empty,
  if◌then◌else◌, ◌==◌, text_eq,
}
use ferro_wg.Prelude.Effect.{Eff, lift, with_err, ◌>>=◌}
use ferro_wg.Text.Trim.{trim}
use ferro_wg.Core.Toml.{Printer, Parser}
use ferro_wg.Core.Disk.{Disk, IoError}
use ferro_wg.Tui.Benchmark.{BenchmarkRun, cap_history, benchmark_history_cap}
use ferro_wg.Tui.Error.{BenchmarkError, io, serialize, history_not_saved, of_export, generic}
use ferro_wg.Tui.Keys.Commands.{DaemonMessage, command_ok, command_error}

-- A first run has no file; a file with nothing in it is an error.
unfoldable pub read_history :
    Parser (List BenchmarkRun) → Result Text IoError → Result (List BenchmarkRun) BenchmarkError
read_history from_str (err e) = if e.not_found then ok [] else err (io e.message)
read_history from_str (ok content) =
    if is_empty (trim content)
    then err (serialize (codes "file is empty"))
    else map_err serialize (from_str content)

module _ (disk : Disk) where
  unfoldable pub load_benchmark_history :
      Parser (List BenchmarkRun) → Text → disk.World → Result (List BenchmarkRun) BenchmarkError
  load_benchmark_history from_str path w = read_history from_str (disk.read_file path w)

  unfoldable pub save_benchmark_history :
      Printer (List BenchmarkRun)
      → Text
      → List BenchmarkRun
      → Eff disk.World BenchmarkError (Unit {0})
  save_benchmark_history to_string path runs = do
    json ← lift (map_err serialize (to_string (cap_history runs benchmark_history_cap)))
    with_err io (disk.write_file path json)

-- At the start an unreadable history leaves the one that the state has.
unfoldable pub loaded_history :
    Result (List BenchmarkRun) BenchmarkError → List BenchmarkRun → List BenchmarkRun
loaded_history (ok history) old = history
loaded_history (err e) old = old

-- The task that saves the history sends a message only when it fails.
unfoldable pub history_message : Result (Unit {0}) BenchmarkError → Option DaemonMessage
history_message (ok _) = none
history_message (err e) = some (command_error (generic (history_not_saved e)))

-- Whether a path's extension asks for CSV.
unfoldable pub is_csv : Option Text → Bool
is_csv none = false
is_csv (some e) = e == codes "csv"

module _ (disk : Disk) (to_csv : List BenchmarkRun → Text)
    (to_string : Printer (List BenchmarkRun)) where
  unfoldable pub export_content : Text → List BenchmarkRun → Result Text BenchmarkError
  export_content path runs =
      if is_csv (disk.extension path) then ok (to_csv runs) else map_err serialize (to_string runs)

  unfoldable pub write_export : Text → List BenchmarkRun → Eff disk.World BenchmarkError (Unit {0})
  write_export path runs = do
    content ← lift (export_content path runs)
    with_err io (disk.write_file path content)

unfoldable pub export_message : Text → Result (Unit {0}) BenchmarkError → DaemonMessage
export_message path (ok _) = command_ok (codes "exported to " ++ path)
export_message path (err e) = command_error (generic (of_export e))
