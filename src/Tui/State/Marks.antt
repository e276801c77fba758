-- ===== src/Tui/State/Marks.antt =====
-- The peers without a key, in every run of ferro-wg-tui-core/src/state.rs: each mark stands on a
-- peer of the draft.
use ferro_wg.Prelude.{
  ℕ, List, ◌≡◌, arith, Text, Option, none, some, contains, find?, ◌==◌, text_eq, nat_eq,
}
use ferro_wg.Text.Order.{min_text?}
use ferro_wg.Tui.App.{InputMode, edit_field}
use ferro_wg.External.{External}
use ferro_wg.Core.Config.{WgConfig}
use ferro_wg.Core.Toml.{Printer}
use ferro_wg.Tui.Action.{Action, KeyCode}
use ferro_wg.Tui.ConfigEdit.{ConfigSection, interface, peer}
use ferro_wg.Tui.State.Types.{Clock, AppState, ConnectionView, ConfigEditState}
use ferro_wg.Tui.State.Simple.{
  handle_tab_actions, handle_search_actions, handle_feedback_actions, handle_import_actions,
  handle_export_actions, handle_benchmark_actions, handle_help_action, push_toast, start_benchmark,
  complete_benchmark, handle_compare_actions, handle_theme_action, apply_peer_updates, leave_field,
  close_buffer,
}
use ferro_wg.Tui.State.Editing.{edit_key, focus_next, focus_prev, focus_on}
use ferro_wg.Tui.State.Config.{
  handle_config_actions, enter_config_edit, enter_named, enter_found, start_edit, edited, keyed,
  preview, preview_edit, added, scroll,
}
use ferro_wg.Tui.State.Dispatch.{run}
use ferro_wg.Tui.State.Keeps.{Ensures, Keeps, run-Keeps}
use ferro_wg.Tui.State.Session.{
  IsMarked, add_peer-IsMarked, delete_peer-IsMarked, buffer_key-IsMarked,
}

-- What holds of the editing session, if there is one.
abbrev pub InSession : Option ConfigEditState → Type 0
InSession none = Unit
InSession (some edit) = IsMarked edit

focus_next-IsMarked : (edit : ConfigEditState) → IsMarked edit → IsMarked (focus_next edit)
unfolding focus_next
focus_next-IsMarked edit h = record { within = h.within }

focus_prev-IsMarked : (edit : ConfigEditState) → IsMarked edit → IsMarked (focus_prev edit)
unfolding focus_prev
focus_prev-IsMarked edit h = record { within = h.within }

focus_on-IsMarked :
    (section : ConfigSection) (edit : ConfigEditState)
    → IsMarked edit
    → IsMarked (focus_on section edit)
unfolding focus_on
focus_on-IsMarked section edit h = record { within = h.within }

module _ (ext : External) (printer : Printer WgConfig) where
  edited-IsMarked :
      (f : ConfigEditState → ConfigEditState) (o : Option ConfigEditState) (s : AppState)
      → ((edit : ConfigEditState) → IsMarked edit → IsMarked (f edit))
      → InSession o
      → InSession s.config_edit
      → InSession (edited f o s).config_edit
  unfolding edited
  edited-IsMarked f none s step h old = old
  edited-IsMarked f (some edit) s step h old = step edit h

  added-IsMarked :
      (o : Option ConfigEditState) (s : AppState)
      → InSession o
      → InSession s.config_edit
      → InSession (added o s).config_edit
  unfolding added
  added-IsMarked none s h old = old
  added-IsMarked (some edit) s h old = add_peer-IsMarked edit h

  keyed-IsMarked :
      (key : KeyCode) (o : Option ConfigEditState) (s : AppState)
      → InSession o
      → InSession s.config_edit
      → InSession (keyed ext key o s).config_edit
  unfolding keyed edit_key
  keyed-IsMarked key none s h old = old
  keyed-IsMarked key (some edit) s h old = buffer_key-IsMarked ext key edit.edit_buffer edit h

  preview-IsMarked :
      (o : Option ConfigEditState) (s : AppState)
      → InSession o
      → InSession s.config_edit
      → InSession (preview printer o s).config_edit
  unfolding preview preview_edit
  preview-IsMarked none s h old = old
  preview-IsMarked (some edit) s h old = ground arith

  scroll-same : (f : ℕ → ℕ) (s : AppState) → (scroll f s).config_edit ≡ s.config_edit
  unfolding scroll
  scroll-same f s = ground arith

  enter_found-IsMarked :
      (section : ConfigSection) (i : ℕ) (o : Option ConnectionView) (s : AppState)
      → Ensures (λ s'. InSession s'.config_edit) (enter_found ext section i o s)
  unfolding enter_found start_edit contains
  enter_found-IsMarked section i none s = tt
  enter_found-IsMarked section i (some conn) s = record { within = λ j e. ground arith }

  enter_named-IsMarked :
      (section : ConfigSection) (i : ℕ) (o : Option Text) (s : AppState)
      → InSession s.config_edit
      → Ensures (λ s'. InSession s'.config_edit) (enter_named ext section i o s)
  unfolding enter_named
  enter_named-IsMarked section i none s h = h
  enter_named-IsMarked section i (some n) s h =
      enter_found-IsMarked section i (find? (λ c. c.name == n) s.connections) s

  config-IsMarked :
      (a : Action) (s : AppState)
      → InSession s.config_edit
      → Ensures (λ s'. InSession s'.config_edit) (handle_config_actions ext printer a s)
  unfolding handle_config_actions enter_config_edit enter_named enter_found start_edit
  config-IsMarked (Action.config_edit_key key) s h = keyed-IsMarked key s.config_edit s h h
  config-IsMarked Action.config_focus_next s h =
      edited-IsMarked focus_next s.config_edit s focus_next-IsMarked h h
  config-IsMarked Action.config_focus_prev s h =
      edited-IsMarked focus_prev s.config_edit s focus_prev-IsMarked h h
  config-IsMarked Action.config_focus_interface s h =
      edited-IsMarked (focus_on interface) s.config_edit s (focus_on-IsMarked interface) h h
  config-IsMarked (Action.config_focus_peer i) s h =
      edited-IsMarked (focus_on (peer i)) s.config_edit s (focus_on-IsMarked (peer i)) h h
  config-IsMarked Action.add_config_peer s h = added-IsMarked s.config_edit s h h
  config-IsMarked (Action.delete_config_peer i) s h =
      edited-IsMarked _ s.config_edit s (delete_peer-IsMarked i) h h
  config-IsMarked Action.preview_config s h = preview-IsMarked s.config_edit s h h
  config-IsMarked Action.config_diff_scroll_down s h = rw scroll-same h
  config-IsMarked Action.config_diff_scroll_up s h = rw scroll-same h
  config-IsMarked (Action.enter_config_edit section i) s h =
      enter_named-IsMarked section i (min_text? s.visible_connections) s h
  config-IsMarked (Action.save_config b) s h = tt
  config-IsMarked Action.discard_config_edits s h = tt
  config-IsMarked _ s h = h

  close_buffer-IsMarked : (o : Option ConfigEditState) → InSession o → InSession (close_buffer o)
  unfolding close_buffer
  close_buffer-IsMarked none h = h
  close_buffer-IsMarked (some edit) h = record { within = h.within }

  leave_field-IsMarked :
      (m : InputMode) (s : AppState)
      → InSession s.config_edit
      → InSession (leave_field m s).config_edit
  unfolding leave_field
  leave_field-IsMarked edit_field s h = close_buffer-IsMarked s.config_edit h
  leave_field-IsMarked _ s h = h

  tab-IsMarked :
      (a : Action) (s : AppState)
      → InSession s.config_edit
      → InSession (handle_tab_actions a s).config_edit
  unfolding handle_tab_actions
  tab-IsMarked Action.next_tab s h = leave_field-IsMarked s.input_mode s h
  tab-IsMarked _ s h = leave_field-IsMarked s.input_mode s h

  Keeps-IsMarked : Keeps ext printer (λ s. InSession s.config_edit)
  unfolding handle_search_actions handle_feedback_actions push_toast handle_import_actions
      handle_export_actions handle_compare_actions handle_theme_action apply_peer_updates
      handle_help_action handle_benchmark_actions start_benchmark complete_benchmark
  Keeps-IsMarked = record {
    stop = λ s h. h;
    reach = λ b s h. h;
    pend = λ p s h. h;
    tab = tab-IsMarked;
    search = λ a s h. ground arith;
    peers = λ ps s h. h;
    feedback = λ clock a s h. ground arith;
    import_path = λ a s h. ground arith;
    export_path = λ a s h. ground arith;
    benchmark = λ clock a s m h. ground arith;
    compare = λ s h. h;
    theme = λ s h. h;
    help = λ a s h. ground arith;
    config = config-IsMarked;
  }

  -- Whatever the actions, a peer that is marked as waiting for its key is a peer of the session's
  -- draft.
  pub run-IsMarked :
      (steps : List (Clock × Action)) (s : AppState)
      → InSession s.config_edit
      → Ensures (λ s'. InSession s'.config_edit) (run ext printer steps s)
  run-IsMarked = run-Keeps Keeps-IsMarked
