-- ===== src/Tui/Benchmark.antt =====
-- ferro-wg-tui-core/src/benchmark.rs: the history of benchmark runs and its bound. Formatting
-- floats for display is left out.
use ferro_wg.Prelude.{
  ℕ, suc, zero, ◌-◌, ℤ, List, [], ◌∷◌, ◌++◌, ◌≡◌, refl, arith, Text, length, length-drop, drop, leb,
  if◌then◌else◌, min, take,
}
use ferro_wg.Core.Stats.{BenchmarkResult}

abbrev pub benchmark_progress_history_cap : ℕ
benchmark_progress_history_cap = 60

abbrev pub benchmark_history_cap : ℕ
benchmark_history_cap = 50

abbrev pub BenchmarkResultMap : Type 0
BenchmarkResultMap = List (Text × BenchmarkResult)

pub record BenchmarkRun : Type 0 where
  pub timestamp_ms : ℤ
  pub connection_name : Text
  pub results : BenchmarkResultMap

unfoldable pub cap_history : List BenchmarkRun → ℕ → List BenchmarkRun
cap_history runs cap = let len = length runs in if leb len cap then runs else drop (len - cap) runs

take-append-drop : (n : ℕ) (runs : List BenchmarkRun) → take n runs ++ drop n runs ≡ runs
take-append-drop zero runs = refl
take-append-drop (suc n) [] = refl
take-append-drop (suc n) (r ∷ runs) = rw (take-append-drop n runs)

-- What is kept is the end of the history: some front was cut off, and as many runs stay as the cap
-- and the history allow.
pub cap_history-newest :
    (runs : List BenchmarkRun) (cap : ℕ)
    → (old : List BenchmarkRun) × (old ++ cap_history runs cap ≡ runs)
      × (length (cap_history runs cap) ≡ min cap (length runs))
unfolding cap_history
cap_history-newest runs cap = (
  take (length runs - cap) runs,
  ground (arith, take-append-drop (length runs - cap) runs),
  ground (arith, length-drop (length runs - cap) runs),
)
