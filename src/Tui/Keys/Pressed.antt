-- ===== src/Tui/Keys/Pressed.antt =====
-- What `handle_key_event` of ferro-wg-tui/src/lib.rs makes of a key: which actions can come of one,
-- and the lemmas on it.
use ferro_wg.Prelude.{
  ℕ, suc, zero, Bool, true, false, List, [], ◌∷◌, ◌≡◌, refl, Text, Option, none, some, All, filter,
  contains, text_eq, ==_refl, Option-cases, Bool-cases, inl, inr, arith, nat_eq,
}
use ferro_wg.External.{External}
use ferro_wg.Tui.App.{InputMode, normal, search, importing, exporting, edit_field}
use ferro_wg.Tui.Action.{Action, KeyCode}
use ferro_wg.Tui.State.Types.{AppState, ConnectionView, names_of}
use ferro_wg.Core.Config.{WgConfig}
use ferro_wg.Tui.ConfigEdit.{ConfigSection, interface, peer}
use ferro_wg.Tui.Keys.Event.{KeyEvent, handle_global_key, global_char}
use ferro_wg.Tui.Keys.Tables.{
  connection_bar_key, overview_key, overview_char, status_key, status_char, on_name, compare_key,
  compare_char, row_key, selected_connection_name,
}
use ferro_wg.Tui.Keys.Focus.{ConfigFocus, focus_key, config_char, ask_delete}
use ferro_wg.Tui.Keys.Overlays.{
  help_key, diff_key, confirm_key, status_bar_key, search_key, import_prompt_key, export_prompt_key,
  filter_key, toggle_at, while_open, help_overlay_key, diff_preview_key, confirm_dialog_key,
  filter_overlay_key, filtered_connections,
}

-- The actions that a key may come to: not a key for the editor, nothing that the daemon sends, and
-- the visibility only of one of these names.
unfoldable pub is_key_action : List Text → Action → Bool
is_key_action names (Action.config_edit_key _) = false
is_key_action names (Action.benchmark_complete _) = false
is_key_action names (Action.benchmark_progress_update _) = false
is_key_action names (Action.update_peers _) = false
is_key_action names (Action.daemon_ok _) = false
is_key_action names (Action.daemon_error _) = false
is_key_action names (Action.daemon_connectivity_changed _) = false
is_key_action names (Action.toggle_connection_visibility n) = contains names n
is_key_action names _ = true

unfoldable pub allows : List Text → Option Action → Bool
allows names none = true
allows names (some a) = is_key_action names a

pub global-allows :
    (names : List Text) (key : KeyEvent) → allows names (handle_global_key key) ≡ true
unfolding allows is_key_action handle_global_key global_char
global-allows names key = ground arith

pub bar-allows :
    (names : List Text) (code : KeyCode) → allows names (connection_bar_key code) ≡ true
unfolding allows is_key_action connection_bar_key
bar-allows names (KeyCode.char c) = ground arith
bar-allows names _ = refl

pub row-allows : (names : List Text) (code : KeyCode) → allows names (row_key code) ≡ true
unfolding allows is_key_action row_key
row-allows names (KeyCode.char c) = ground arith
row-allows names KeyCode.down = refl
row-allows names KeyCode.up = refl
row-allows names _ = refl

pub overview-allows :
    (names : List Text) (code : KeyCode) (s : AppState) → allows names (overview_key code s) ≡ true
unfolding allows is_key_action overview_key overview_char
overview-allows names KeyCode.enter s = refl
overview-allows names (KeyCode.char c) s = ground (arith, row-allows names (KeyCode.char c))
overview-allows names code s = row-allows names code

pub status-allows :
    (names : List Text) (code : KeyCode) (s : AppState) (row : ℕ)
    → allows names (status_key code s row) ≡ true
unfolding allows is_key_action status_key status_char on_name
status-allows names KeyCode.enter s row =
    ground (arith, Option-cases (selected_connection_name s row))
status-allows names (KeyCode.char c) s row =
    ground (arith, row-allows names (KeyCode.char c), Option-cases (selected_connection_name s row))
status-allows names code s row = row-allows names code

pub compare-allows :
    (names : List Text) (code : KeyCode) (row : ℕ) → allows names (compare_key code row) ≡ true
unfolding allows is_key_action compare_key compare_char
compare-allows names KeyCode.enter row = refl
compare-allows names (KeyCode.char c) row = ground (arith, row-allows names (KeyCode.char c))
compare-allows names code row = row-allows names code

help-allows : (names : List Text) (code : KeyCode) → allows names (help_key code) ≡ true
unfolding allows is_key_action help_key
help-allows names (KeyCode.char c) = ground arith
help-allows names KeyCode.esc = refl
help-allows names _ = refl

diff-allows : (names : List Text) (code : KeyCode) → allows names (diff_key code) ≡ true
unfolding allows is_key_action diff_key
diff-allows names (KeyCode.char c) = ground arith
diff-allows names KeyCode.down = refl
diff-allows names KeyCode.up = refl
diff-allows names KeyCode.esc = refl
diff-allows names _ = refl

confirm-allows : (names : List Text) (code : KeyCode) → allows names (confirm_key code) ≡ true
unfolding allows is_key_action confirm_key
confirm-allows names (KeyCode.char c) = ground arith
confirm-allows names _ = refl

pub status_bar-allows :
    (names : List Text) (code : KeyCode) (mode : InputMode)
    → allows names (status_bar_key code mode) ≡ true
unfolding allows is_key_action status_bar_key search_key import_prompt_key export_prompt_key
status_bar-allows names KeyCode.enter search = refl
status_bar-allows names KeyCode.esc search = refl
status_bar-allows names KeyCode.backspace search = refl
status_bar-allows names (KeyCode.char c) search = refl
status_bar-allows names _ search = refl
status_bar-allows names KeyCode.enter (importing buf) = refl
status_bar-allows names KeyCode.esc (importing buf) = refl
status_bar-allows names _ (importing buf) = refl
status_bar-allows names KeyCode.enter (exporting buf) = refl
status_bar-allows names KeyCode.esc (exporting buf) = refl
status_bar-allows names _ (exporting buf) = refl
status_bar-allows names code normal = refl
status_bar-allows names code edit_field = refl

while_open-allows :
    (names : List Text) (b : Bool) (o : Option Action)
    → allows names o ≡ true
    → allows names (while_open b o) ≡ true
unfolding while_open allows
while_open-allows names true o h = h
while_open-allows names false o h = refl

pub help_overlay-allows :
    (names : List Text) (code : KeyCode) (s : AppState)
    → allows names (help_overlay_key code s) ≡ true
unfolding help_overlay_key
help_overlay-allows names code s =
    while_open-allows names s.show_help (help_key code) (help-allows names code)

pub diff_preview-allows :
    (names : List Text) (code : KeyCode) (s : AppState)
    → allows names (diff_preview_key code s) ≡ true
unfolding diff_preview_key allows
diff_preview-allows names code s =
    ground (arith, Option-cases s.config_diff_pending, diff-allows names code)

pub confirm_dialog-allows :
    (names : List Text) (code : KeyCode) (s : AppState)
    → allows names (confirm_dialog_key code s) ≡ true
unfolding confirm_dialog_key allows
confirm_dialog-allows names code s =
    ground (arith, Option-cases s.pending_confirm, confirm-allows names code)

AllNamed : List Text → List ConnectionView → Type 0
AllNamed names cs = All (λ (c : ConnectionView). contains names c.name ≡ true) cs

AllNamed-names :
    (names : List Text) (cs : List ConnectionView)
    → ((n : Text) → contains (names_of cs) n ≡ true → contains names n ≡ true)
    → AllNamed names cs
unfolding AllNamed contains
AllNamed-names names [] h = tt
AllNamed-names names (c ∷ cs) h = (
  h c.name (ground (arith, ==_refl c.name)),
  AllNamed-names names cs (λ n e. h n (ground (arith, e))),
)

AllNamed-filter :
    (names : List Text) (p : ConnectionView → Bool) (cs : List ConnectionView)
    → AllNamed names cs
    → AllNamed names (filter p cs)
unfolding AllNamed
AllNamed-filter names p [] h = tt
AllNamed-filter names p (c ∷ cs) h = elim (Bool-cases (p c)) [
  | inl kept ↦ rw kept (h.0, AllNamed-filter names p cs h.1)
  | inr dropped ↦ rw dropped (AllNamed-filter names p cs h.1)
]

toggle_at-allows :
    (ext : External) (names : List Text) (cs : List ConnectionView) (row : ℕ)
    → AllNamed names cs
    → allows names (toggle_at ext cs row) ≡ true
unfolding AllNamed allows is_key_action toggle_at
toggle_at-allows ext names [] row h = refl
toggle_at-allows ext names (c ∷ cs) zero h = h.0
toggle_at-allows ext names (c ∷ cs) (suc row) h = toggle_at-allows ext names cs row h.1

filter-allows :
    (ext : External) (code : KeyCode) (s : AppState) (row : ℕ)
    → allows (names_of s.connections) (filter_key ext code s row) ≡ true
unfolding allows is_key_action filter_key filtered_connections
filter-allows ext KeyCode.enter s row =
    toggle_at-allows ext (names_of s.connections) (filtered_connections ext s) row (
      AllNamed-filter (names_of s.connections) _ s.connections
        (AllNamed-names (names_of s.connections) s.connections (λ n e. e)))
filter-allows ext (KeyCode.char c) s row = refl
filter-allows ext KeyCode.esc s row = refl
filter-allows ext KeyCode.backspace s row = refl
filter-allows ext KeyCode.up s row = refl
filter-allows ext KeyCode.down s row = refl
filter-allows ext _ s row = refl

pub filter_overlay-allows :
    (ext : External) (code : KeyCode) (s : AppState) (row : ℕ)
    → allows (names_of s.connections) (filter_overlay_key ext code s row) ≡ true
unfolding filter_overlay_key
filter_overlay-allows ext code s row =
    while_open-allows (names_of s.connections) s.show_connection_filter (filter_key ext code s row)
      (filter-allows ext code s row)

ask-allows :
    (names : List Text) (section : ConfigSection) (c : WgConfig)
    → allows names (ask_delete section c) ≡ true
unfolding allows is_key_action ask_delete
ask-allows names interface c = refl
ask-allows names (peer i) c = ground arith

pub focus-allows :
    (names : List Text) (code : KeyCode) (f : ConfigFocus) (c : WgConfig)
    → allows names (focus_key code f c).0 ≡ true
unfolding allows is_key_action focus_key config_char ask_delete
focus-allows names (KeyCode.char k) f c = ground (arith, ask-allows names f.section c)
focus-allows names KeyCode.down f c = refl
focus-allows names KeyCode.up f c = refl
focus-allows names KeyCode.esc f c = refl
focus-allows names _ f c = refl
