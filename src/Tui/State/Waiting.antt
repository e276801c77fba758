-- ===== src/Tui/State/Waiting.antt =====
-- A benchmark that is running, in ferro-wg-tui-core/src/state.rs: only its completion ends it.
use ferro_wg.Prelude.{true, List, ◌≡◌, refl, arith, All}
use ferro_wg.External.{External}
use ferro_wg.Core.Config.{WgConfig}
use ferro_wg.Core.Toml.{Printer}
use ferro_wg.Tui.Action.{Action}
use ferro_wg.Tui.Benchmark.{BenchmarkRun}
use ferro_wg.Tui.State.Types.{Clock, AppState}
use ferro_wg.Tui.State.Simple.{
  handle_tab_actions, handle_search_actions, handle_feedback_actions, handle_import_actions,
  handle_export_actions, handle_benchmark_actions, handle_help_action, push_toast,
  handle_compare_actions, handle_theme_action, apply_peer_updates, start_benchmark,
}
use ferro_wg.Tui.State.Config.{
  handle_config_actions, enter_config_edit, enter_named, enter_found, start_edit, edited, keyed,
  preview, preview_edit, added,
}
use ferro_wg.Tui.State.Dispatch.{run}
use ferro_wg.Tui.State.Keeps.{Ensures, KeepsUnder, run-KeepsUnder}

abbrev pub NoCompletion : Action → Type 0
NoCompletion (Action.benchmark_complete _) = ⊥
NoCompletion _ = Unit

-- A benchmark is running, and the history is `runs`.
abbrev pub Waits : List BenchmarkRun → AppState → Type 0
Waits runs s = (s.benchmark_running ≡ true) × (s.benchmark_history ≡ runs)

module _ (ext : External) (printer : Printer WgConfig) (runs : List BenchmarkRun) where
  config-Waits :
      (a : Action) (s : AppState)
      → Waits runs s
      → Ensures (Waits runs) (handle_config_actions ext printer a s)
  unfolding handle_config_actions enter_config_edit enter_named enter_found start_edit edited keyed
      preview preview_edit added
  config-Waits Action.config_focus_next s h = ground arith
  config-Waits _ s h = ground arith

  benchmark-Waits :
      (clock : Clock) (a : Action) (s : AppState)
      → NoCompletion a
      → Waits runs s
      → Ensures (Waits runs) (handle_benchmark_actions clock a s)
  unfolding handle_benchmark_actions start_benchmark push_toast
  benchmark-Waits clock Action.start_benchmark s m h = rw (h.0) (refl, h.1)
  benchmark-Waits clock (Action.start_benchmark_for_backend b) s m h = rw (h.0) (refl, h.1)
  benchmark-Waits clock (Action.benchmark_complete r) s m h = elim m [ ]
  benchmark-Waits clock _ s m h = h

  tab-Waits : (a : Action) (s : AppState) → Waits runs s → Waits runs (handle_tab_actions a s)
  unfolding handle_tab_actions
  tab-Waits Action.next_tab s h = ground arith
  tab-Waits _ s h = ground arith

  search-Waits : (a : Action) (s : AppState) → Waits runs s → Waits runs (handle_search_actions a s)
  unfolding handle_search_actions
  search-Waits Action.enter_search s h = h
  search-Waits _ s h = h

  feedback-Waits :
      (clock : Clock) (a : Action) (s : AppState)
      → Waits runs s
      → Waits runs (handle_feedback_actions clock a s)
  unfolding handle_feedback_actions push_toast
  feedback-Waits clock (Action.daemon_ok m) s h = h
  feedback-Waits clock _ s h = h

  import-Waits : (a : Action) (s : AppState) → Waits runs s → Waits runs (handle_import_actions a s)
  unfolding handle_import_actions
  import-Waits Action.enter_import s h = h
  import-Waits _ s h = h

  export-Waits : (a : Action) (s : AppState) → Waits runs s → Waits runs (handle_export_actions a s)
  unfolding handle_export_actions
  export-Waits Action.enter_export s h = h
  export-Waits _ s h = h

  help-Waits : (a : Action) (s : AppState) → Waits runs s → Waits runs (handle_help_action a s)
  unfolding handle_help_action
  help-Waits Action.show_help s h = h
  help-Waits _ s h = h

  KeepsUnder-Waits : KeepsUnder ext printer NoCompletion (Waits runs)
  unfolding handle_compare_actions handle_theme_action apply_peer_updates
  KeepsUnder-Waits = record {
    stop = λ s h. h;
    reach = λ b s h. h;
    pend = λ p s h. h;
    tab = tab-Waits;
    search = search-Waits;
    peers = λ ps s h. h;
    feedback = feedback-Waits;
    import_path = import-Waits;
    export_path = export-Waits;
    benchmark = benchmark-Waits;
    compare = λ s h. h;
    theme = λ s h. h;
    help = help-Waits;
    config = config-Waits;
  }

  -- While a benchmark is running, no run of actions without a completion ends it or adds to the
  -- history, whatever else the user and the daemon do; an action that starts one does not start it.
  pub run-Waits :
      (steps : List (Clock × Action)) (s : AppState)
      → All (λ (step : Clock × Action). NoCompletion step.1) steps
      → Waits runs s
      → Ensures (Waits runs) (run ext printer steps s)
  run-Waits = run-KeepsUnder KeepsUnder-Waits
