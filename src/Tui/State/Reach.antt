-- ===== src/Tui/State/Reach.antt =====
-- The reachable states of ferro-wg-tui-core/src/state.rs: what holds after `AppState::new` and any
-- steps that the event loop sends.
use ferro_wg.Prelude.{List, ◌≡◌, ◌∙◌, ok, All}
use ferro_wg.External.{External}
use ferro_wg.Core.Config.{WgConfig, AppConfig}
use ferro_wg.Core.Toml.{Printer}
use ferro_wg.Tui.Action.{Action}
use ferro_wg.Tui.State.Types.{Clock, AppState, names_of, new}
use ferro_wg.Tui.State.Dispatch.{run}
use ferro_wg.Tui.State.Stored.{stored, run-stored, stored-views_of}
use ferro_wg.Tui.State.Bounds.{IsBounded, new-IsBounded, run-IsBounded}
use ferro_wg.Tui.State.Marks.{InSession, run-IsMarked}
use ferro_wg.Tui.State.Returns.{IsKnown, IsSent, run-returns}

pub new-IsKnown : (a : AppConfig) → IsKnown (new a)
unfolding new
new-IsKnown a n h = h

stored-new : (a : AppConfig) → stored (new a) ≡ a.connections
unfolding new
stored-new a = stored-views_of a

new-InSession : (a : AppConfig) → InSession (new a).config_edit
unfolding new
new-InSession a = tt

module _ (ext : External) (printer : Printer WgConfig) where
  -- From a fresh state, every run of the steps that the event loop sends returns. In the state it
  -- ends in the toasts, samples and runs are under their caps, the marks of an editing session stand
  -- on peers of its draft, every visible name is a connection, and the connections still hold the
  -- loaded configurations.
  pub run-new :
      (a : AppConfig) (steps : List (Clock × Action))
      → All (λ step. IsSent (names_of (new a).connections) step.0 step.1) steps
      → (s : AppState) × (run ext printer steps (new a) ≡ ok s)
        × IsBounded s
        × InSession s.config_edit
        × IsKnown s
        × (stored s ≡ a.connections)
  run-new a steps sent =
      let (s, e, known) = run-returns ext printer steps (new a) sent (new-IsKnown a) in
      (
        s,
        e,
        rw e at (run-IsBounded ext printer steps (new a) (new-IsBounded a)),
        rw e at (run-IsMarked ext printer steps (new a) (new-InSession a)),
        known,
        (rw e at (run-stored ext printer steps (new a))) ∙ stored-new a,
      )
