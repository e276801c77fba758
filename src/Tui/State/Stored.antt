-- ===== src/Tui/State/Stored.antt =====
-- Drafts never leak: no action changes the configurations that the connections hold.
use ferro_wg.Prelude.{List, [], ◌∷◌, map, ◌≡◌, refl, ap, ◌∙◌, arith, Text}
use ferro_wg.External.{External}
use ferro_wg.Core.Config.{WgConfig, AppConfig}
use ferro_wg.Core.Ipc.{PeerStatus}
use ferro_wg.Core.Toml.{Printer}
use ferro_wg.Tui.Action.{Action}
use ferro_wg.Tui.State.Types.{view_of, views_of, Clock, AppState, ConnectionView}
use ferro_wg.Tui.State.Simple.{
  update_status, update_statuses, handle_tab_actions, handle_search_actions,
  handle_feedback_actions, handle_import_actions, handle_export_actions, handle_benchmark_actions,
  handle_help_action, push_toast, handle_compare_actions, handle_theme_action, apply_peer_updates,
}
use ferro_wg.Tui.State.Config.{
  handle_config_actions, enter_config_edit, enter_named, enter_found, start_edit, edited, keyed,
  preview, preview_edit, added,
}
use ferro_wg.Tui.State.Dispatch.{run}
use ferro_wg.Tui.State.Keeps.{Ensures, Keeps, run-Keeps}

abbrev pub entry_of : ConnectionView → Text × WgConfig
entry_of c = (c.name, c.config)

-- What the connections hold: their names and configurations, in display order.
abbrev pub stored : AppState → List (Text × WgConfig)
stored s = map entry_of s.connections

entries_again : (l : List (Text × WgConfig)) → map entry_of (map view_of l) ≡ l
unfolding view_of
entries_again [] = refl
entries_again (e ∷ l) = ap (λ l'. e ∷ l') (entries_again l)

update_status-stored :
    (p : PeerStatus) (cs : List ConnectionView)
    → map entry_of (update_status p cs) ≡ map entry_of cs
unfolding update_status
update_status-stored p [] = refl
update_status-stored p (c ∷ cs) = ground (arith, update_status-stored p cs)

update_statuses-stored :
    (ps : List PeerStatus) (cs : List ConnectionView)
    → map entry_of (update_statuses ps cs) ≡ map entry_of cs
unfolding update_statuses
update_statuses-stored [] cs = refl
update_statuses-stored (p ∷ ps) cs =
    update_statuses-stored ps (update_status p cs) ∙ update_status-stored p cs

module _ (ext : External) (printer : Printer WgConfig) where
  -- The connections hold `l`.
  abbrev Holds : List (Text × WgConfig) → AppState → Type 0
  Holds l s = stored s ≡ l

  config-Holds :
      (l : List (Text × WgConfig)) (a : Action) (s : AppState)
      → Holds l s
      → Ensures (Holds l) (handle_config_actions ext printer a s)
  unfolding handle_config_actions enter_config_edit enter_named enter_found start_edit edited keyed
      preview preview_edit added
  config-Holds l Action.config_focus_next s h = ground arith
  config-Holds l _ s h = ground arith

  benchmark-Holds :
      (l : List (Text × WgConfig)) (clock : Clock) (a : Action) (s : AppState)
      → Holds l s
      → Ensures (Holds l) (handle_benchmark_actions clock a s)
  unfolding handle_benchmark_actions push_toast
  benchmark-Holds l clock Action.start_benchmark s h = ground arith
  benchmark-Holds l clock _ s h = ground arith

  tab-Holds :
      (l : List (Text × WgConfig)) (a : Action) (s : AppState)
      → Holds l s
      → Holds l (handle_tab_actions a s)
  unfolding handle_tab_actions
  tab-Holds l Action.next_tab s h = ground arith
  tab-Holds l _ s h = ground arith

  search-Holds :
      (l : List (Text × WgConfig)) (a : Action) (s : AppState)
      → Holds l s
      → Holds l (handle_search_actions a s)
  unfolding handle_search_actions
  search-Holds l Action.enter_search s h = h
  search-Holds l _ s h = h

  feedback-Holds :
      (l : List (Text × WgConfig)) (clock : Clock) (a : Action) (s : AppState)
      → Holds l s
      → Holds l (handle_feedback_actions clock a s)
  unfolding handle_feedback_actions push_toast
  feedback-Holds l clock (Action.daemon_ok m) s h = h
  feedback-Holds l clock _ s h = h

  import-Holds :
      (l : List (Text × WgConfig)) (a : Action) (s : AppState)
      → Holds l s
      → Holds l (handle_import_actions a s)
  unfolding handle_import_actions
  import-Holds l Action.enter_import s h = h
  import-Holds l _ s h = h

  export-Holds :
      (l : List (Text × WgConfig)) (a : Action) (s : AppState)
      → Holds l s
      → Holds l (handle_export_actions a s)
  unfolding handle_export_actions
  export-Holds l Action.enter_export s h = h
  export-Holds l _ s h = h

  help-Holds :
      (l : List (Text × WgConfig)) (a : Action) (s : AppState)
      → Holds l s
      → Holds l (handle_help_action a s)
  unfolding handle_help_action
  help-Holds l Action.show_help s h = h
  help-Holds l _ s h = h

  Keeps-Holds : (l : List (Text × WgConfig)) → Keeps ext printer (Holds l)
  unfolding handle_compare_actions handle_theme_action apply_peer_updates
  Keeps-Holds l = record {
    stop = λ s h. h;
    reach = λ b s h. h;
    pend = λ p s h. h;
    tab = tab-Holds l;
    search = search-Holds l;
    peers = λ ps s h. update_statuses-stored ps s.connections ∙ h;
    feedback = feedback-Holds l;
    import_path = import-Holds l;
    export_path = export-Holds l;
    benchmark = λ clock a s _. benchmark-Holds l clock a s;
    compare = λ s h. h;
    theme = λ s h. h;
    help = help-Holds l;
    config = config-Holds l;
  }

  -- Whatever the actions, also those of an editing session, the connections keep their names and
  -- their configurations: the state machine never writes a draft back.
  pub run-stored :
      (steps : List (Clock × Action)) (s : AppState)
      → Ensures (λ s'. stored s' ≡ stored s) (run ext printer steps s)
  run-stored steps s = run-Keeps (Keeps-Holds (stored s)) steps s refl

pub stored-views_of : (a : AppConfig) → map entry_of (views_of a) ≡ a.connections
unfolding views_of
stored-views_of a = entries_again a.connections
