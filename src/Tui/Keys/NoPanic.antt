-- ===== src/Tui/Keys/NoPanic.antt =====
-- `handle_key_event` of ferro-wg-tui/src/lib.rs on a whole: where it returns, and the keys that never
-- reach the editor.
use ferro_wg.Prelude.{
  ℕ, true, List, [], ◌∷◌, ◌≡◌, ◌≢◌, refl, sym, subst, Text, Option, none, some, Result, ok, err,
  Bool-cases, Result-cases, inl, inr, arith, if◌then◌else◌, ◌>>=◌, is_empty, nat_eq, ◌==◌,
}
use ferro_wg.External.{External}
use ferro_wg.Core.Config.{WgConfig}
use ferro_wg.Core.Toml.{Printer}
use ferro_wg.Tui.Action.{Action, ConfirmAction, KeyCode}
use ferro_wg.Tui.ConfigEdit.{ConfigSection, interface, peer}
use ferro_wg.Tui.State.Types.{AppState, ConfirmPending, names_of, Panic, Clock}
use ferro_wg.Tui.State.Dispatch.{dispatch, run}
use ferro_wg.Tui.State.Returns.{IsKnown, IsSent, run-returns}
use ferro_wg.Tui.EventLoop.{follow_up, confirmed_action}
use ferro_wg.Tui.Keys.Commands.{Spawned}
use ferro_wg.Tui.Keys.Event.{KeyEvent}
use ferro_wg.Tui.Keys.Focus.{ConfigFocus, after_delete, config_update, next_field, prev_field}
use ferro_wg.Tui.Keys.Resolve.{
  ComponentBundle, KeyEffect, Resolved, resolve_key, update_all, dispatch_all, dispatch_follow,
  dispatch_resolved, handle_key_event,
}
use ferro_wg.Tui.Keys.Pressed.{is_key_action, allows}
use ferro_wg.Tui.Keys.Typing.{Ok, Fits, with_first_visible-Ok, resolve_key-Fits}

-- Both states after an event.
abbrev Held : AppState × ComponentBundle → Type 0
Held r = IsKnown r.0

abbrev HeldEffect : KeyEffect → Type 0
HeldEffect r = Held r.0

Fits-ok :
    (names : List Text) (r : Resolved) (a : Action) (b : ComponentBundle)
    → Ok (Fits names) r
    → r ≡ ok (some a, b)
    → is_key_action names a ≡ true
unfolding allows
Fits-ok names r a b h e = subst (Ok (Fits names)) e h

after_delete-Ok :
    (i : ℕ) (s : AppState) (f : ConfigFocus) (section : ConfigSection)
    → IsKnown s
    → Ok (λ _. Unit) (after_delete i s f section)
unfolding after_delete
after_delete-Ok i s f interface known = tt
after_delete-Ok i s f (peer j) known = elim (Bool-cases (j == i)) [
  | inl e ↦ rw e (
      with_first_visible-Ok (λ _. Unit) s f
        (λ c. if is_empty c.peers then record { section = interface; field_idx = 0 } else f) known
        tt (λ c. tt))
  | inr e ↦ rw e tt
]

config_update-Ok :
    (a : Action) (s : AppState) (f : ConfigFocus) → IsKnown s → Ok (λ _. Unit) (config_update a s f)
unfolding config_update
config_update-Ok Action.config_focus_next s f known =
    with_first_visible-Ok (λ _. Unit) s f (λ _. next_field f) known tt (λ c. tt)
config_update-Ok Action.config_focus_prev s f known =
    with_first_visible-Ok (λ _. Unit) s f (λ _. prev_field f) known tt (λ c. tt)
config_update-Ok (Action.delete_config_peer i) s f known = after_delete-Ok i s f f.section known
config_update-Ok _ s f known = tt

allowed-IsSent :
    (names : List Text) (clock : Clock) (a : Action)
    → is_key_action names a ≡ true
    → IsSent names clock a
unfolding is_key_action
allowed-IsSent names clock (Action.toggle_connection_visibility n) h = h
allowed-IsSent names clock (Action.benchmark_complete r) h = ground (arith, h)
allowed-IsSent names clock _ h = tt

module _ (ext : External) (printer : Printer WgConfig) where
  update_all-Ok :
      (a : Action) (s : AppState) (b : ComponentBundle)
      → IsKnown s
      → Ok (λ _. Unit) (update_all ext a s b)
  unfolding update_all
  update_all-Ok a s b known =
      let h = config_update-Ok a s b.focus known in
      elim (Result-cases (config_update a s b.focus)) [
        | inl (f, e) ↦ rw e tt
        | inr (p, e) ↦ elim (rw e at h) [ ]
      ]

  updated-Held :
      (s : AppState) (r : Result ComponentBundle Panic)
      → IsKnown s
      → Ok (λ _. Unit) r
      → Ok Held (do b ← r; ok (s, b))
  updated-Held s (ok b) known h = known
  updated-Held s (err p) known h = h

  dispatch_all-Held :
      (clock : Clock) (a : Action) (s : AppState) (b : ComponentBundle)
      → IsSent (names_of s.connections) clock a
      → IsKnown s
      → Ok Held (dispatch_all ext printer clock a (s, b))
  unfolding dispatch_all run
  dispatch_all-Held clock a s b sent known =
      let (s', e, after) = run-returns ext printer ((clock, a) ∷ []) s (sent, tt) known in
      elim (Result-cases (dispatch ext printer clock a s)) [
        | inl (s'', e') ↦
            let same : s'' ≡ s' = ground (arith, rw e' at e) in
            rw e' (
              updated-Held s'' (update_all ext a s'' b) (subst IsKnown (sym same) after)
                (update_all-Ok a s'' b (subst IsKnown (sym same) after)))
        | inr (p, e') ↦ ground (arith, rw e' at e)
      ]

  follow-Held :
      (clock : Clock) (a : Action) (p : Option ConfirmPending) (r : AppState × ComponentBundle)
      → IsKnown r.0
      → Ok Held (dispatch_follow ext printer clock (follow_up a p) r)
  unfolding dispatch_follow follow_up confirmed_action
  follow-Held clock Action.confirm_yes none r known = known
  follow-Held clock Action.confirm_yes (some p) (s, b) known =
      dispatch_all-Held clock (confirmed_action p.action) s b (confirmed-IsSent p.action) known
    where
      confirmed-IsSent :
          (c : ConfirmAction) → IsSent (names_of s.connections) clock (confirmed_action c)
      confirmed-IsSent ConfirmAction.disconnect_all = tt
      confirmed-IsSent ConfirmAction.stop_daemon = tt
      confirmed-IsSent (ConfirmAction.delete_peer i) = tt
  follow-Held clock _ p r known = known

  ended-Held :
      (tasks : AppState × ComponentBundle → List Spawned)
      (r : Result (AppState × ComponentBundle) Panic)
      → Ok Held r
      → Ok HeldEffect (do second ← r; ok (second, tasks second))
  ended-Held tasks (ok second) h = h
  ended-Held tasks (err e) h = h

  followed-Held :
      (clock : Clock) (a : Action) (p : Option ConfirmPending)
      (tasks : AppState × ComponentBundle → AppState × ComponentBundle → List Spawned)
      (r : Result (AppState × ComponentBundle) Panic)
      → Ok Held r
      → Ok HeldEffect (do
        first ← r
        second ← dispatch_follow ext printer clock (follow_up a p) first
        ok (second, tasks first second))
  followed-Held clock a p tasks (ok first) h =
      ended-Held (tasks first) (dispatch_follow ext printer clock (follow_up a p) first)
        (follow-Held clock a p first h)
  followed-Held clock a p tasks (err e) h = h

  resolved-Held :
      (clock later : Clock) (s : AppState) (r : Resolved)
      → IsKnown s
      → Ok (Fits (names_of s.connections)) r
      → Ok HeldEffect
          (do resolved ← r; dispatch_resolved ext printer clock later resolved.0 (s, resolved.1))
  unfolding dispatch_resolved allows
  resolved-Held clock later s (ok (none, b)) known h = known
  resolved-Held clock later s (ok (some a, b)) known h =
      followed-Held later a s.pending_confirm _ (dispatch_all ext printer clock a (s, b))
        (dispatch_all-Held clock a s b (allowed-IsSent (names_of s.connections) clock a h) known)
  resolved-Held clock later s (err p) known h = h

  -- While every visible name is a connection, a key event never panics, whatever the key, the mode
  -- and the rows in focus, and every visible name is a connection after it.
  pub handle_key_event-returns :
      (clock later : Clock) (key : KeyEvent) (s : AppState) (b : ComponentBundle)
      → IsKnown s
      → (s' : AppState) × (b' : ComponentBundle) × (tasks : List Spawned) × (handle_key_event ext
            printer clock later key
            (s, b)
          ≡ ok ((s', b'), tasks))
        × IsKnown s'
  unfolding handle_key_event
  handle_key_event-returns clock later key s b known =
      let held =
        resolved-Held clock later s (resolve_key ext key s b) known
          (resolve_key-Fits ext key s b known) in
      returned (handle_key_event ext printer clock later key (s, b)) held
    where
      returned :
          (r : Result KeyEffect Panic)
          → Ok HeldEffect r
          → (s' : AppState) × (b' : ComponentBundle) × (tasks : List Spawned) × (r
              ≡ ok ((s', b'), tasks))
            × IsKnown s'
      returned (ok ((s', b'), tasks)) h = (s', b', tasks, refl, h)
      returned (err p) h = elim h [ ]

-- While every visible name is a connection, no key resolves to a key of the configuration editor,
-- even while a field of it is open.
pub resolve_key-config_edit_key :
    (ext : External) (key : KeyEvent) (s : AppState) (b b' : ComponentBundle) (code : KeyCode)
    → IsKnown s
    → resolve_key ext key s b ≢ ok (some (Action.config_edit_key code), b')
unfolding is_key_action
resolve_key-config_edit_key ext key s b b' code known e = ground (
  arith,
  Fits-ok (names_of s.connections) (resolve_key ext key s b) (Action.config_edit_key code) b'
      (resolve_key-Fits ext key s b known) e,
)
