-- ===== src/Tui/State/Bounds.antt =====
-- The bounds of the state in ferro-wg-tui-core/src/state.rs: toasts, progress samples and benchmark
-- runs stay under their caps, and the palette is the one of the theme's kind.
use ferro_wg.Prelude.{
  ℕ, ◌≤◌, min, List, [], ◌∷◌, ◌++◌, ◌≡◌, refl, arith, length, length-append, length-drop, drop,
  codes,
}
use ferro_wg.External.{External}
use ferro_wg.Core.Config.{WgConfig, AppConfig}
use ferro_wg.Core.Stats.{BenchmarkResult}
use ferro_wg.Core.Toml.{Printer}
use ferro_wg.Tui.Theme.{into_theme}
use ferro_wg.Tui.Action.{Action}
use ferro_wg.Tui.Benchmark.{
  BenchmarkRun, benchmark_progress_history_cap, benchmark_history_cap, cap_history,
  cap_history-newest,
}
use ferro_wg.Tui.State.Types.{
  error_toast, success_toast, Clock, AppState, Toast, max_visible_toasts, new,
}
use ferro_wg.Tui.State.Simple.{
  handle_tab_actions, handle_search_actions, handle_feedback_actions, handle_import_actions,
  handle_export_actions, handle_benchmark_actions, handle_help_action, push_toast, start_benchmark,
  complete_benchmark, handle_compare_actions, handle_theme_action, apply_peer_updates,
}
use ferro_wg.Tui.State.Config.{
  handle_config_actions, enter_config_edit, enter_named, enter_found, start_edit, edited, keyed,
  preview, preview_edit, added,
}
use ferro_wg.Tui.State.Dispatch.{run}
use ferro_wg.Tui.State.Keeps.{Ensures, Keeps, run-Keeps}

pub record IsBounded (s : AppState) : Type 0 where
  pub toasts : length s.toasts ≤ max_visible_toasts
  pub progress : length s.benchmark_progress_history ≤ benchmark_progress_history_cap
  pub history : length s.benchmark_history ≤ benchmark_history_cap
  pub palette : s.theme ≡ into_theme s.theme_kind

push_toast-IsBounded : (t : Toast) (s : AppState) → IsBounded s → IsBounded (push_toast t s)
unfolding push_toast
push_toast-IsBounded t s h =
    ground (arith, length-append s.toasts (t ∷ []), length-drop 1 (s.toasts ++ t ∷ []))

start_benchmark-IsBounded :
    (clock : Clock) (s : AppState) → IsBounded s → IsBounded (start_benchmark clock s)
unfolding start_benchmark
start_benchmark-IsBounded clock s h =
    ground (arith, push_toast-IsBounded (error_toast clock (codes "benchmark already running")) s h)

length-cap_history :
    (runs : List BenchmarkRun) (cap : ℕ) → length (cap_history runs cap) ≡ min cap (length runs)
length-cap_history runs cap = let (old, split, count) = cap_history-newest runs cap in count

complete_benchmark-IsBounded :
    (clock : Clock) (r : BenchmarkResult) (s : AppState)
    → IsBounded s
    → IsBounded (complete_benchmark clock r s)
unfolding complete_benchmark
complete_benchmark-IsBounded clock r s h = record {
  toasts = h.toasts;
  progress = h.progress;
  history = grind (arith, length-cap_history);
  palette = h.palette;
}

module _ (ext : External) (printer : Printer WgConfig) where
  config-IsBounded :
      (a : Action) (s : AppState)
      → IsBounded s
      → Ensures IsBounded (handle_config_actions ext printer a s)
  unfolding handle_config_actions enter_config_edit enter_named enter_found start_edit edited keyed
      preview preview_edit added
  config-IsBounded Action.config_focus_next s h = ground arith
  config-IsBounded _ s h = ground arith

  benchmark-IsBounded :
      (clock : Clock) (a : Action) (s : AppState)
      → IsBounded s
      → Ensures IsBounded (handle_benchmark_actions clock a s)
  unfolding handle_benchmark_actions
  benchmark-IsBounded clock Action.start_benchmark s h = start_benchmark-IsBounded clock s h
  benchmark-IsBounded clock (Action.start_benchmark_for_backend b) s h =
      start_benchmark-IsBounded clock s h
  benchmark-IsBounded clock (Action.benchmark_progress_update p) s h =
      let old = s.benchmark_progress_history in
      ground
        (arith, length-append old (p ∷ []), length-append (drop 1 old) (p ∷ []), length-drop 1 old)
  benchmark-IsBounded clock (Action.benchmark_complete r) s h =
      ground (arith, complete_benchmark-IsBounded clock r s h)
  benchmark-IsBounded clock _ s h = ground arith

  tab-IsBounded : (a : Action) (s : AppState) → IsBounded s → IsBounded (handle_tab_actions a s)
  unfolding handle_tab_actions
  tab-IsBounded Action.next_tab s h = ground arith
  tab-IsBounded _ s h = ground arith

  search-IsBounded :
      (a : Action) (s : AppState) → IsBounded s → IsBounded (handle_search_actions a s)
  unfolding handle_search_actions
  search-IsBounded Action.enter_search s h = ground arith
  search-IsBounded _ s h = ground arith

  feedback-IsBounded :
      (clock : Clock) (a : Action) (s : AppState)
      → IsBounded s
      → IsBounded (handle_feedback_actions clock a s)
  unfolding handle_feedback_actions
  feedback-IsBounded clock (Action.daemon_ok m) s h =
      push_toast-IsBounded (success_toast clock m) s h
  feedback-IsBounded clock (Action.daemon_error m) s h =
      push_toast-IsBounded (error_toast clock m) s h
  feedback-IsBounded clock _ s h = h

  import-IsBounded :
      (a : Action) (s : AppState) → IsBounded s → IsBounded (handle_import_actions a s)
  unfolding handle_import_actions
  import-IsBounded Action.enter_import s h = ground arith
  import-IsBounded _ s h = ground arith

  export-IsBounded :
      (a : Action) (s : AppState) → IsBounded s → IsBounded (handle_export_actions a s)
  unfolding handle_export_actions
  export-IsBounded Action.enter_export s h = ground arith
  export-IsBounded _ s h = ground arith

  help-IsBounded : (a : Action) (s : AppState) → IsBounded s → IsBounded (handle_help_action a s)
  unfolding handle_help_action
  help-IsBounded Action.show_help s h = ground arith
  help-IsBounded _ s h = ground arith

  Keeps-IsBounded : Keeps ext printer IsBounded
  unfolding handle_compare_actions handle_theme_action apply_peer_updates
  Keeps-IsBounded = record {
    stop = λ s h. ground arith;
    reach = λ b s h. ground arith;
    pend = λ p s h. ground arith;
    tab = tab-IsBounded;
    search = search-IsBounded;
    peers = λ ps s h. ground arith;
    feedback = feedback-IsBounded;
    import_path = import-IsBounded;
    export_path = export-IsBounded;
    benchmark = λ clock a s _. benchmark-IsBounded clock a s;
    compare = λ s h. ground arith;
    theme = λ s h. ground arith;
    help = help-IsBounded;
    config = config-IsBounded;
  }

  -- Whatever the actions, at most 5 toasts, 60 progress samples and 50 benchmark runs are kept, and
  -- the palette stays the one of the theme's kind.
  pub run-IsBounded :
      (steps : List (Clock × Action)) (s : AppState)
      → IsBounded s
      → Ensures IsBounded (run ext printer steps s)
  run-IsBounded = run-Keeps Keeps-IsBounded

pub new-IsBounded : (a : AppConfig) → IsBounded (new a)
unfolding new
new-IsBounded a = record {
  toasts = omega arith;
  progress = omega arith;
  history = omega arith;
  palette = refl;
}
