-- ===== src/Tui/Keys/Focus.antt =====
-- ferro-wg-tui-components/src/config.rs: the focus of the configuration tab. A visible name with no
-- connection is a panic.
use ferro_wg.Prelude.{
  ℕ, ◌+◌, ◌-◌, ◌%◌, Bool, true, false, ◌++◌, Text, Option, none, some, Result, ok, err, length,
  get_elem?, find?, is_empty, codes, if◌then◌else◌, ltb, leb, ◌==◌, nat_eq, text_eq,
}
use ferro_wg.Text.Order.{min_text?}
use ferro_wg.Text.Number.{show_nat}
use ferro_wg.Core.Config.{WgConfig}
use ferro_wg.Tui.App.{Tab, config, InputMode, normal}
use ferro_wg.Tui.Action.{Action, ConfirmAction, KeyCode}
use ferro_wg.Tui.ConfigEdit.{
  ConfigSection, interface, peer, EditableField, peer_public_key, fields_for_section,
}
use ferro_wg.Tui.State.Types.{Panic, unwrap_on_none, AppState, ConnectionView}

pub record ConfigFocus : Type 0 where
  pub section : ConfigSection
  pub field_idx : ℕ

unfoldable pub next_field : ConfigFocus → ConfigFocus
next_field f =
    let n = length (fields_for_section f.section false) in
    if n == 0 then f else record f { field_idx = (f.field_idx + 1) % n }

unfoldable pub prev_field : ConfigFocus → ConfigFocus
prev_field f =
    let n = length (fields_for_section f.section false) in
    if n == 0
    then f
    else record f { field_idx = (if f.field_idx == 0 then n - 1 else f.field_idx - 1) }

-- The public key of a peer that the configuration has is read-only.
unfoldable pub is_editable : EditableField → ConfigSection → WgConfig → Bool
is_editable peer_public_key (peer i) c = leb (length c.peers) i
is_editable peer_public_key interface c = false
is_editable _ section c = true

unfoldable pub can_edit_current_field : ConfigFocus → WgConfig → Bool
can_edit_current_field f c = elim (get_elem? (fields_for_section f.section false) f.field_idx) [
  | none ↦ false
  | some field ↦ is_editable field f.section c
]

-- The question that deletes the peer in focus.
unfoldable pub ask_delete : ConfigSection → WgConfig → Option Action
ask_delete interface c = none
ask_delete (peer i) c =
    if ltb i (length c.peers)
    then some (
        Action.request_confirm (codes "Delete peer " ++ (show_nat i ++ codes "?"))
          (ConfirmAction.delete_peer i))
    else none

unfoldable pub config_char : ℕ → ConfigFocus → WgConfig → Option Action × ConfigFocus
config_char c f conf =
    if c == b'j'
    then (none, next_field f)
    else if c == b'k'
    then (none, prev_field f)
    else if c == b'e'
    then (
      (if can_edit_current_field f conf
          then some (Action.enter_config_edit f.section f.field_idx)
          else none),
      f,
    )
    else if c == b'+'
    then (some Action.add_config_peer, f)
    else if c == b'x'
    then (ask_delete f.section conf, f)
    else if c == b'p'
    then (some Action.preview_config, f)
    else (none, f)

unfoldable pub focus_key : KeyCode → ConfigFocus → WgConfig → Option Action × ConfigFocus
focus_key KeyCode.down f conf = (none, next_field f)
focus_key KeyCode.up f conf = (none, prev_field f)
focus_key KeyCode.esc f conf = (some Action.discard_config_edits, f)
focus_key (KeyCode.char c) f conf = config_char c f conf
focus_key _ f conf = (none, f)

-- Only on the tab itself and outside of every input mode.
unfoldable pub takes_keys : Tab → InputMode → Bool
takes_keys config normal = true
takes_keys _ _ = false

unfoldable pub with_view : {A : Type 0} → (WgConfig → A) → Option ConnectionView → Result A Panic
with_view f none = err unwrap_on_none
with_view f (some c) = ok (f c.config)

unfoldable pub with_named :
    {A : Type 0} → AppState → A → (WgConfig → A) → Option Text → Result A Panic
with_named s idle f none = ok idle
with_named s idle f (some name) = with_view f (find? (λ c. c.name == name) s.connections)

-- What needs the connection of the smallest visible name; without one, nothing happens.
unfoldable pub with_first_visible : {A : Type 0} → AppState → A → (WgConfig → A) → Result A Panic
with_first_visible s idle f = with_named s idle f (min_text? s.visible_connections)

unfoldable pub config_key :
    KeyCode → AppState → ConfigFocus → Result (Option Action × ConfigFocus) Panic
config_key code s f =
    with_first_visible s (none, f)
      (λ conf. if takes_keys s.active_tab s.input_mode then focus_key code f conf else (none, f))

-- After a peer was deleted: the focus stays with its peer, and goes to the interface when the
-- connection that is stored has no peers.
unfoldable pub after_delete : ℕ → AppState → ConfigFocus → ConfigSection → Result ConfigFocus Panic
after_delete i s f interface = ok f
after_delete i s f (peer j) =
    if j == i
    then with_first_visible s f
        (λ conf. if is_empty conf.peers then record { section = interface; field_idx = 0 } else f)
    else ok (if ltb i j then record f { section = peer (j - 1) } else f)

unfoldable pub config_update : Action → AppState → ConfigFocus → Result ConfigFocus Panic
config_update Action.config_focus_interface s f = ok (record { section = interface; field_idx = 0 })
config_update (Action.config_focus_peer i) s f = ok (record { section = peer i; field_idx = 0 })
config_update Action.config_focus_next s f = with_first_visible s f (λ _. next_field f)
config_update Action.config_focus_prev s f = with_first_visible s f (λ _. prev_field f)
config_update (Action.delete_config_peer i) s f = after_delete i s f f.section
config_update _ s f = ok f
