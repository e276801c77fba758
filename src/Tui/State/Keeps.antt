-- ===== src/Tui/State/Keeps.antt =====
-- A rule for invariants of the state machine: what every handler keeps, `dispatch` keeps, and every
-- run of actions. `May` says which actions there are.
use ferro_wg.Prelude.{
  Bool, false, All, List, [], ◌∷◌, Option, none, some, Result, ok, err, Result-cases, inl, inr,
}
use ferro_wg.External.{External}
use ferro_wg.Core.Config.{WgConfig}
use ferro_wg.Core.Ipc.{PeerStatus}
use ferro_wg.Core.Toml.{Printer}
use ferro_wg.Tui.Action.{Action, ConfirmAction}
use ferro_wg.Tui.State.Types.{Clock, Panic, AppState, ConfirmPending}
use ferro_wg.Tui.State.Simple.{
  handle_tab_actions, handle_search_actions, apply_peer_updates, handle_feedback_actions,
  handle_import_actions, handle_export_actions, handle_benchmark_actions, handle_compare_actions,
  handle_theme_action, handle_help_action,
}
use ferro_wg.Tui.State.Config.{handle_config_actions}
use ferro_wg.Tui.State.Dispatch.{confirm, confirmed, handle_confirm_actions, dispatch, run}

-- What holds of the state that a handler returns, if it returns.
abbrev pub Ensures : (AppState → Type 0) → Result AppState Panic → Type 0
Ensures P (ok s) = P s
Ensures P (err e) = Unit

-- Every handler keeps `P`; the benchmark's handler keeps it on the actions that there may be.
pub record KeepsUnder (ext : External) (printer : Printer WgConfig) (May : Action → Type 0)
    (P : AppState → Type 0) : Type 0 where
  pub stop : (s : AppState) → P s → P (record s { running = false })
  pub reach : (b : Bool) (s : AppState) → P s → P (record s { daemon_connected = b })
  pub pend : (p : Option ConfirmPending) (s : AppState) → P s → P (record s { pending_confirm = p })
  pub tab : (a : Action) (s : AppState) → P s → P (handle_tab_actions a s)
  pub search : (a : Action) (s : AppState) → P s → P (handle_search_actions a s)
  pub peers : (ps : List PeerStatus) (s : AppState) → P s → P (apply_peer_updates ps s)
  pub feedback :
      (clock : Clock) (a : Action) (s : AppState) → P s → P (handle_feedback_actions clock a s)
  pub import_path : (a : Action) (s : AppState) → P s → P (handle_import_actions a s)
  pub export_path : (a : Action) (s : AppState) → P s → P (handle_export_actions a s)
  pub benchmark :
      (clock : Clock) (a : Action) (s : AppState)
      → May a
      → P s
      → Ensures P (handle_benchmark_actions clock a s)
  pub compare : (s : AppState) → P s → P (handle_compare_actions s)
  pub theme : (s : AppState) → P s → P (handle_theme_action s)
  pub help : (a : Action) (s : AppState) → P s → P (handle_help_action a s)
  pub config : (a : Action) (s : AppState) → P s → Ensures P (handle_config_actions ext printer a s)

abbrev pub Keeps : External → Printer WgConfig → (AppState → Type 0) → Type 0
Keeps ext printer P = KeepsUnder ext printer (λ _. Unit {0}) P

module _ {ext : External} {printer : Printer WgConfig} {May : Action → Type 0}
    {P : AppState → Type 0} (k : KeepsUnder ext printer May P) where
  confirm-Keeps : (a : ConfirmAction) (s : AppState) → P s → Ensures P (confirm ext printer a s)
  unfolding confirm
  confirm-Keeps (ConfirmAction.delete_peer i) s h = k.config (Action.delete_config_peer i) s h
  confirm-Keeps _ s h = h

  confirmed-Keeps :
      (p : Option ConfirmPending) (s : AppState) → P s → Ensures P (confirmed ext printer p s)
  unfolding confirmed
  confirmed-Keeps none s h = h
  confirmed-Keeps (some p) s h = confirm-Keeps p.action s h

  handle_confirm-Keeps :
      (a : Action) (s : AppState) → P s → Ensures P (handle_confirm_actions ext printer a s)
  unfolding handle_confirm_actions
  handle_confirm-Keeps (Action.request_confirm m a) s h =
      k.pend (some (record { message = m; action = a })) s h
  handle_confirm-Keeps Action.confirm_yes s h =
      confirmed-Keeps s.pending_confirm (record s { pending_confirm = none }) (k.pend none s h)
  handle_confirm-Keeps Action.confirm_no s h = k.pend none s h
  handle_confirm-Keeps _ s h = h

  pub dispatch-KeepsUnder :
      (clock : Clock) (a : Action) (s : AppState)
      → May a
      → P s
      → Ensures P (dispatch ext printer clock a s)
  unfolding dispatch
  dispatch-KeepsUnder clock Action.quit s m h = k.stop s h
  dispatch-KeepsUnder clock _ s m h = search (
    k.reach, k.tab, k.search, k.peers, k.feedback, k.import_path, k.export_path, k.benchmark,
    k.compare, k.theme, k.help, handle_confirm-Keeps, k.config,
  )

  pub run-KeepsUnder :
      (steps : List (Clock × Action)) (s : AppState)
      → All (λ (step : Clock × Action). May step.1) steps
      → P s
      → Ensures P (run ext printer steps s)
  unfolding run
  run-KeepsUnder [] s m h = h
  run-KeepsUnder ((clock, a) ∷ rest) s m h = elim (Result-cases (dispatch ext printer clock a s)) [
    | inl (s', e) ↦
        rw e (run-KeepsUnder rest s' m.1 (rw e at (dispatch-KeepsUnder clock a s m.0 h)))
    | inr (p, e) ↦ rw e tt
  ]

any_action : (steps : List (Clock × Action)) → All (λ (step : Clock × Action). Unit {0}) steps
any_action [] = tt
any_action (step ∷ steps) = (tt, any_action steps)

module _ {ext : External} {printer : Printer WgConfig} {P : AppState → Type 0}
    (k : Keeps ext printer P) where
  pub dispatch-Keeps :
      (clock : Clock) (a : Action) (s : AppState) → P s → Ensures P (dispatch ext printer clock a s)
  dispatch-Keeps clock a s h = dispatch-KeepsUnder k clock a s tt h

  pub run-Keeps :
      (steps : List (Clock × Action)) (s : AppState) → P s → Ensures P (run ext printer steps s)
  run-Keeps steps s h = run-KeepsUnder k steps s (any_action steps) h
