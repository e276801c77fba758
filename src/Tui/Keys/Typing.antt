-- ===== src/Tui/Keys/Typing.antt =====
-- `handle_key_event` of ferro-wg-tui/src/lib.rs on a whole: what a key comes to is an allowed action.
use ferro_wg.Prelude.{
  Bool, true, false, List, ◌≡◌, ◌≢◌, refl, Text, Option, none, some, Result, ok, err, find?, ◌==◌,
  text_eq, arith, if◌then◌else◌,
}
use ferro_wg.External.{External}
use ferro_wg.Text.Order.{min_text?}
use ferro_wg.Core.Config.{WgConfig}
use ferro_wg.Tui.App.{Tab, overview, status, peers, compare, config, logs}
use ferro_wg.Tui.Action.{Action, KeyCode}
use ferro_wg.Tui.State.Types.{AppState, ConnectionView, names_of, Panic}
use ferro_wg.Tui.State.Returns.{IsKnown, contains-min_text?, find?-contains}
use ferro_wg.Tui.Keys.Event.{KeyEvent, handle_global_key}
use ferro_wg.Tui.Keys.Tables.{connection_bar_key, peers_key}
use ferro_wg.Tui.Keys.Focus.{
  ConfigFocus, config_key, with_first_visible, with_named, with_view, focus_key, takes_keys,
}
use ferro_wg.Tui.Keys.Resolve.{
  ComponentBundle, is_set, is_prompt, or_else, config_resolved, tab_key, or_tab, resolve_key,
}
use ferro_wg.Tui.Keys.Pressed.{
  allows, global-allows, bar-allows, overview-allows, status-allows, row-allows, compare-allows,
  help_overlay-allows, diff_preview-allows, confirm_dialog-allows, status_bar-allows,
  filter_overlay-allows, focus-allows,
}

-- The handler returns.
abbrev pub Ok {ℓ} : {A : Type ℓ} → (A → Type 0) → Result A Panic → Type 0
Ok P (ok a) = P a
Ok P (err e) = ⊥

Ok-if :
    {A : Type 0} (P : A → Type 0) (b : Bool) (x y : Result A Panic)
    → Ok P x
    → Ok P y
    → Ok P (if b then x else y)
Ok-if P true x y h g = h
Ok-if P false x y h g = g

with_view-Ok :
    {A : Type 0} (P : A → Type 0) (f : WgConfig → A) (o : Option ConnectionView)
    → o ≢ none
    → ((c : WgConfig) → P (f c))
    → Ok P (with_view f o)
unfolding with_view
with_view-Ok P f none found h = found refl
with_view-Ok P f (some c) found h = h c.config

with_named-Ok :
    {A : Type 0} (P : A → Type 0) (s : AppState) (idle : A) (f : WgConfig → A) (o : Option Text)
    → min_text? s.visible_connections ≡ o
    → IsKnown s
    → P idle
    → ((c : WgConfig) → P (f c))
    → Ok P (with_named s idle f o)
unfolding with_named
with_named-Ok P s idle f none e known h g = h
with_named-Ok P s idle f (some name) e known h g =
    with_view-Ok P f (find? (λ c. c.name == name) s.connections)
      (find?-contains name s.connections
        (known name (contains-min_text? name s.visible_connections e)))
      g

-- With every visible name a connection, the one of the smallest name is found.
pub with_first_visible-Ok :
    {A : Type 0} (P : A → Type 0) (s : AppState) (idle : A) (f : WgConfig → A)
    → IsKnown s
    → P idle
    → ((c : WgConfig) → P (f c))
    → Ok P (with_first_visible s idle f)
unfolding with_first_visible
with_first_visible-Ok P s idle f = with_named-Ok P s idle f (min_text? s.visible_connections) refl

-- What a key comes to: an action that is allowed, or none.
abbrev pub Fits : List Text → Option Action × ComponentBundle → Type 0
Fits names r = allows names r.0 ≡ true

config_key-Ok :
    (code : KeyCode) (s : AppState) (f : ConfigFocus)
    → IsKnown s
    → Ok (λ r. allows (names_of s.connections) r.0 ≡ true) (config_key code s f)
unfolding config_key allows
config_key-Ok code s f known =
    let names = names_of s.connections in
    with_first_visible-Ok (λ r. allows names r.0 ≡ true) s (none, f)
      (λ c. if takes_keys s.active_tab s.input_mode then focus_key code f c else (none, f)) known
      refl (λ c. ground (arith, focus-allows names code f c))

config_resolved-Fits :
    (names : List Text) (b : ComponentBundle) (r : Result (Option Action × ConfigFocus) Panic)
    → Ok (λ r. allows names r.0 ≡ true) r
    → Ok (Fits names) (config_resolved b r)
unfolding config_resolved
config_resolved-Fits names b (ok (a, f)) h = h
config_resolved-Fits names b (err p) h = h

tab_key-Fits :
    (t : Tab) (code : KeyCode) (s : AppState) (b : ComponentBundle)
    → IsKnown s
    → Ok (Fits (names_of s.connections)) (tab_key t code s b)
unfolding tab_key peers_key allows
tab_key-Fits overview code s b known = overview-allows (names_of s.connections) code s
tab_key-Fits status code s b known = status-allows (names_of s.connections) code s b.status_row
tab_key-Fits peers code s b known = row-allows (names_of s.connections) code
tab_key-Fits compare code s b known = compare-allows (names_of s.connections) code b.compare_rows.0
tab_key-Fits config code s b known =
    config_resolved-Fits (names_of s.connections) b (config_key code s b.focus)
      (config_key-Ok code s b.focus known)
tab_key-Fits logs code s b known = refl

or_tab-Fits :
    (o : Option Action) (code : KeyCode) (s : AppState) (b : ComponentBundle)
    → IsKnown s
    → allows (names_of s.connections) o ≡ true
    → Ok (Fits (names_of s.connections)) (or_tab (or_else o (connection_bar_key code)) code s b)
unfolding or_tab or_else
or_tab-Fits (some a) code s b known h = h
or_tab-Fits none code s b known h = bar_or_tab (connection_bar_key code) (bar-allows _ code)
  where
    bar_or_tab :
        (o : Option Action)
        → allows (names_of s.connections) o ≡ true
        → Ok (Fits (names_of s.connections)) (or_tab (or_else none o) code s b)
    bar_or_tab none h = tab_key-Fits s.active_tab code s b known
    bar_or_tab (some a) h = h

module _ (ext : External) where
  pub resolve_key-Fits :
      (key : KeyEvent) (s : AppState) (b : ComponentBundle)
      → IsKnown s
      → Ok (Fits (names_of s.connections)) (resolve_key ext key s b)
  unfolding resolve_key
  resolve_key-Fits key s b known =
      let names = names_of s.connections in
      Ok-if _ s.show_help _ _ (help_overlay-allows names key.code s) (
        Ok-if _ s.show_connection_filter _ _ (filter_overlay-allows ext key.code s b.filter_row) (
          Ok-if _ (is_set s.config_diff_pending) _ _ (diff_preview-allows names key.code s) (
            Ok-if _ (is_set s.pending_confirm) _ _ (confirm_dialog-allows names key.code s) (
              Ok-if _ (is_prompt s.input_mode) _ _ (status_bar-allows names key.code s.input_mode) (
                or_tab-Fits (handle_global_key key) key.code s b known
                  (global-allows names key))))))
