-- ===== src/Tui/State/Returns.antt =====
-- Where `dispatch` of ferro-wg-tui-core/src/state.rs returns: its two panics are out of reach while
-- every visible name is a connection and the clock is in range.
use ferro_wg.Prelude.{
  ℕ, ◌<◌, ◌^◌, true, List, [], ◌∷◌, ◌≡◌, ◌≢◌, refl, sym, ◌∙◌, arith, Text, Option, none, some,
  Result, ok, err, Result-cases, inl, inr, ◌⊎◌, contains, contains-insert, text_beq_iff,
  Option-cases, contains-remove, text_eq, ◌==◌, All, find?, leb→le,
}
use ferro_wg.External.{External}
use ferro_wg.Text.Order.{min_text?}
use ferro_wg.Core.Config.{WgConfig}
use ferro_wg.Core.Ipc.{PeerStatus}
use ferro_wg.Core.Toml.{Printer}
use ferro_wg.Tui.Action.{Action, ConfirmAction}
use ferro_wg.Tui.ConfigEdit.{ConfigSection}
use ferro_wg.Tui.State.Types.{names_of, Clock, Panic, AppState, ConnectionView, ConfirmPending}
use ferro_wg.Tui.State.Simple.{
  handle_tab_actions, handle_search_actions, handle_feedback_actions, handle_import_actions,
  handle_export_actions, handle_benchmark_actions, handle_help_action, push_toast, start_benchmark,
  complete_benchmark, toggle_visibility, handle_compare_actions, handle_theme_action,
  apply_peer_updates, update_status, update_statuses,
}
use ferro_wg.Tui.State.Config.{
  handle_config_actions, enter_config_edit, enter_named, enter_found, start_edit, edited, keyed,
  preview, preview_edit, added,
}
use ferro_wg.Tui.State.Dispatch.{confirm, confirmed, handle_confirm_actions, dispatch, run}

-- The handler returns, with a state that has the property.
abbrev pub Returns : (AppState → Type 0) → Result AppState Panic → Type 0
Returns P (ok s) = P s
Returns P (err e) = ⊥

-- Every visible name is the name of a connection.
abbrev pub IsKnown : AppState → Type 0
IsKnown s =
    (n : Text)
    → contains s.visible_connections n ≡ true
    → contains (names_of s.connections) n ≡ true

-- The steps that the event loop sends: it shows or hides connections that exist, and the clock's
-- milliseconds fit an `i64`.
abbrev pub IsSent : List Text → Clock → Action → Type 0
IsSent names clock (Action.toggle_connection_visibility n) = contains names n ≡ true
IsSent names clock (Action.benchmark_complete r) = clock.unix_ms < 2 ^ 63
IsSent names clock _ = Unit

pub contains-min_text? :
    (n : Text) (names : List Text) → min_text? names ≡ some n → contains names n ≡ true
unfolding min_text? contains
contains-min_text? n [] h = ground arith
contains-min_text? n (x ∷ xs) h = elim (Option-cases (min_text? xs)) [
  | inl e ↦ ground (arith, text_beq_iff x n)
  | inr (m, e) ↦ ground (arith, text_beq_iff x n, contains-min_text? m xs e)
]

pub find?-contains :
    (n : Text) (cs : List ConnectionView)
    → contains (names_of cs) n ≡ true
    → find? (λ c. c.name == n) cs ≢ none
unfolding contains
find?-contains n [] h = ground arith
find?-contains n (c ∷ cs) h = ground (arith, find?-contains n cs)

update_status-names :
    (p : PeerStatus) (cs : List ConnectionView) → names_of (update_status p cs) ≡ names_of cs
unfolding update_status
update_status-names p [] = refl
update_status-names p (c ∷ cs) = ground (arith, update_status-names p cs)

update_statuses-names :
    (ps : List PeerStatus) (cs : List ConnectionView)
    → names_of (update_statuses ps cs) ≡ names_of cs
unfolding update_statuses
update_statuses-names [] cs = refl
update_statuses-names (p ∷ ps) cs =
    update_statuses-names ps (update_status p cs) ∙ update_status-names p cs

contains-toggle_visibility :
    (n m : Text) (visible : List Text)
    → contains (toggle_visibility n visible) m ≡ true
    → (contains visible m ≡ true) ⊎ (n ≡ m)
unfolding toggle_visibility
contains-toggle_visibility n m visible h =
    ground (arith, contains-insert n m visible, contains-remove n m visible, text_beq_iff n m)

-- Only the connections, and the set of the visible ones, decide whether `dispatch` can return.
module _ (ext : External) (printer : Printer WgConfig) (names : List Text) where
  abbrev IsKept : AppState → Type 0
  IsKept s =
      (names_of s.connections ≡ names)
      × ((n : Text) → contains s.visible_connections n ≡ true → contains names n ≡ true)

  enter_named-Returns :
      (section : ConfigSection) (i : ℕ) (o : Option Text) (s : AppState)
      → ((n : Text) → o ≡ some n → contains s.visible_connections n ≡ true)
      → IsKept s
      → Returns IsKept (enter_named ext section i o s)
  unfolding enter_named enter_found start_edit
  enter_named-Returns section i none s top h = h
  enter_named-Returns section i (some n) s top h =
      ground (arith, find?-contains n s.connections, top n refl, h.1 n)

  enter-Returns :
      (section : ConfigSection) (i : ℕ) (s : AppState)
      → IsKept s
      → Returns IsKept (enter_config_edit ext section i s)
  unfolding enter_config_edit
  enter-Returns section i s h =
      enter_named-Returns section i (min_text? s.visible_connections) s
        (λ n. contains-min_text? n s.visible_connections) h

  config-Returns :
      (a : Action) (s : AppState)
      → IsKept s
      → Returns IsKept (handle_config_actions ext printer a s)
  unfolding handle_config_actions edited keyed preview preview_edit added
  config-Returns (Action.enter_config_edit section i) s h = enter-Returns section i s h
  config-Returns _ s h = ground arith

  confirm-Returns :
      (a : ConfirmAction) (s : AppState) → IsKept s → Returns IsKept (confirm ext printer a s)
  unfolding confirm
  confirm-Returns (ConfirmAction.delete_peer i) s h =
      config-Returns (Action.delete_config_peer i) s h
  confirm-Returns _ s h = h

  confirmed-Returns :
      (p : Option ConfirmPending) (s : AppState)
      → IsKept s
      → Returns IsKept (confirmed ext printer p s)
  unfolding confirmed
  confirmed-Returns none s h = h
  confirmed-Returns (some p) s h = confirm-Returns p.action s h

  handle_confirm-Returns :
      (a : Action) (s : AppState)
      → IsKept s
      → Returns IsKept (handle_confirm_actions ext printer a s)
  unfolding handle_confirm_actions
  handle_confirm-Returns Action.confirm_yes s h = confirmed-Returns s.pending_confirm _ h
  handle_confirm-Returns _ s h = h

  benchmark-Returns :
      (clock : Clock) (a : Action) (s : AppState)
      → IsSent names clock a
      → IsKept s
      → Returns IsKept (handle_benchmark_actions clock a s)
  unfolding handle_benchmark_actions start_benchmark complete_benchmark push_toast
  benchmark-Returns clock (Action.benchmark_complete r) s sent h =
      ground (arith, leb→le (2 ^ 63) clock.unix_ms)
  benchmark-Returns clock _ s sent h = ground arith

  tab-IsKept : (a : Action) (s : AppState) → IsKept s → IsKept (handle_tab_actions a s)
  unfolding handle_tab_actions
  tab-IsKept Action.next_tab s h = ground arith
  tab-IsKept _ s h = ground arith

  help-IsKept :
      (clock : Clock) (a : Action) (s : AppState)
      → IsSent names clock a
      → IsKept s
      → IsKept (handle_help_action a s)
  unfolding handle_help_action
  help-IsKept clock (Action.toggle_connection_visibility n) s sent h = (
    h.0,
    λ m e. elim (contains-toggle_visibility n m s.visible_connections e) [
      | inl old ↦ h.1 m old
      | inr new ↦ rw (sym new) sent
    ],
  )
  help-IsKept clock _ s sent h = h

  dispatch-Returns :
      (clock : Clock) (a : Action) (s : AppState)
      → IsSent names clock a
      → IsKept s
      → Returns IsKept (dispatch ext printer clock a s)
  unfolding dispatch handle_search_actions apply_peer_updates update_statuses
      handle_feedback_actions push_toast handle_import_actions handle_export_actions
      handle_compare_actions handle_theme_action handle_help_action
  dispatch-Returns clock (Action.update_peers ps) s sent h =
      (update_statuses-names ps s.connections ∙ h.0, h.1)
  dispatch-Returns clock Action.next_tab s sent h = tab-IsKept Action.next_tab s h
  dispatch-Returns clock Action.prev_tab s sent h = tab-IsKept Action.prev_tab s h
  dispatch-Returns clock (Action.select_tab t) s sent h = tab-IsKept (Action.select_tab t) s h
  dispatch-Returns clock (Action.toggle_connection_visibility n) s sent h =
      help-IsKept clock (Action.toggle_connection_visibility n) s sent h
  dispatch-Returns clock Action.start_benchmark s sent h =
      benchmark-Returns clock Action.start_benchmark s sent h
  dispatch-Returns clock _ s sent h =
      search (handle_confirm-Returns, benchmark-Returns clock, config-Returns)

  run-Returns :
      (steps : List (Clock × Action)) (s : AppState)
      → All (λ step. IsSent names step.0 step.1) steps
      → IsKept s
      → Returns IsKept (run ext printer steps s)
  unfolding run
  run-Returns [] s sent h = h
  run-Returns ((clock, a) ∷ rest) s sent h =
      let step = dispatch-Returns clock a s (sent.0) h in
      elim (Result-cases (dispatch ext printer clock a s)) [
        | inl (s', e) ↦ rw e (run-Returns rest s' (sent.1) (rw e at step))
        | inr (p, e) ↦ elim (rw e at step) [ ]
      ]

module _ (ext : External) (printer : Printer WgConfig) where
  -- While every visible name is a connection, a run of the steps that the event loop sends never
  -- panics, and at its end every visible name is still one of the same connections.
  pub run-returns :
      (steps : List (Clock × Action)) (s : AppState)
      → All (λ step. IsSent (names_of s.connections) step.0 step.1) steps
      → IsKnown s
      → (s' : AppState) × (run ext printer steps s ≡ ok s') × IsKnown s'
  run-returns steps s sent known =
      let kept = run-Returns ext printer (names_of s.connections) steps s sent (refl, known) in
      elim (Result-cases (run ext printer steps s)) [
        | inl (s', e) ↦ let (same, shown) = rw e at kept in (s', e, λ n v. rw same (shown n v))
        | inr (p, e) ↦ elim (rw e at kept) [ ]
      ]
