-- ===== src/Tui/State/Editing.antt =====
-- The editing session of ferro-wg-tui-core/src/state.rs: what the arms of `handle_config_actions` do
-- to a `ConfigEditState`.
use ferro_wg.Prelude.{
  ℕ, ◌+◌, ◌-◌, ◌%◌, min, Bool, true, false, not, List, [], ◌∷◌, ◌++◌, map, Text, Option, none, some,
  Result, ok, err, is_empty, length, get_elem?, modify, remove_at, filter, ltb, ◌==◌, nat_eq,
  text_eq, contains, set_insert, set_remove, if◌then◌else◌, replicate,
}
use ferro_wg.External.{External}
use ferro_wg.Core.Key.{PublicKey, public_from_base64}
use ferro_wg.Core.Error.{KeyError}
use ferro_wg.Core.Config.{PeerConfig}
use ferro_wg.Tui.ConfigEdit.{
  ConfigSection, interface, peer, EditableField, listen_port, peer_public_key, fields_for_section,
  apply_field,
}
use ferro_wg.Tui.ConfigEdit.Validate.{Checked, validate_field}
use ferro_wg.Tui.Action.{KeyCode}
use ferro_wg.Tui.State.Types.{ConfigEditState}
use ferro_wg.Tui.State.Simple.{type_key}

-- `fields.get(i).copied().unwrap_or(ListenPort)`
unfoldable pub field_at : List EditableField → ℕ → EditableField
field_at fields i = elim (get_elem? fields i) [ some f ↦ f | _ ↦ listen_port ]

-- Whether a section is a peer that was added in this session and has no key yet.
unfoldable pub is_new_peer : ConfigSection → List ℕ → Bool
is_new_peer interface fresh = false
is_new_peer (peer i) fresh = contains fresh i

unfoldable pub section_fields : ConfigEditState → List EditableField
unfolding is_new_peer fields_for_section
section_fields edit =
    fields_for_section edit.focused_section (is_new_peer edit.focused_section edit.new_peer_indices)

unfoldable pub focus_next : ConfigEditState → ConfigEditState
unfolding section_fields
focus_next edit = record edit {
  focused_field_idx = (edit.focused_field_idx + 1) % length (section_fields edit);
}

unfoldable pub focus_prev : ConfigEditState → ConfigEditState
unfolding section_fields
focus_prev edit = record edit {
  focused_field_idx =
      if edit.focused_field_idx == 0
      then length (section_fields edit) - 1
      else edit.focused_field_idx - 1;
}

unfoldable pub focus_on : ConfigSection → ConfigEditState → ConfigEditState
focus_on section edit = record edit { focused_section = section; focused_field_idx = 0 }

-- `[0u8; 32]`, until the user gives the real key.
unfoldable pub blank_peer : PeerConfig
blank_peer = record {
  name = [];
  public_key = record { bytes = replicate 32 0 };
  preshared_key = none;
  endpoint = none;
  allowed_ips = [];
  persistent_keepalive = 0;
}

unfoldable pub add_peer : ConfigEditState → ConfigEditState
unfolding blank_peer
add_peer edit =
    let peers = edit.draft.peers ++ blank_peer ∷ [] in
    let idx = length peers - 1 in
    record edit {
      draft = record (edit.draft) { peers = peers };
      new_peer_indices = set_insert idx edit.new_peer_indices;
      focused_section = peer idx;
      focused_field_idx = 0;
      edit_buffer = some [];
      field_error = none;
    }

-- The indices behind a removed one move down.
unfoldable pub shift_indices : ℕ → List ℕ → List ℕ
shift_indices i fresh = map (λ j. if ltb i j then j - 1 else j) (filter (λ j. not (j == i)) fresh)

clamp_section : ℕ → ConfigSection → ConfigSection
clamp_section count interface = interface
clamp_section count (peer j) = peer (min j (count - 1))

unfoldable pub refocus : ConfigEditState → ConfigEditState
unfolding clamp_section section_fields
refocus edit =
    let clamped = record edit {
      focused_section = clamp_section (length edit.draft.peers) edit.focused_section;
    } in
    if is_empty edit.draft.peers
    then record edit { focused_section = interface; focused_field_idx = 0 }
    else record clamped {
      focused_field_idx = min edit.focused_field_idx (length (section_fields clamped) - 1);
    }

-- The draft without the peer at `i`, and the marks moved with their peers.
unfoldable pub removed : ℕ → ConfigEditState → ConfigEditState
removed i edit = record edit {
  draft = record (edit.draft) { peers = remove_at i edit.draft.peers };
  new_peer_indices = shift_indices i edit.new_peer_indices;
}

unfoldable pub delete_peer : ℕ → ConfigEditState → ConfigEditState
delete_peer i edit = if ltb i (length edit.draft.peers) then refocus (removed i edit) else edit

unfoldable pub focused_field : ConfigEditState → EditableField
unfolding section_fields field_at
focused_field edit = field_at (section_fields edit) edit.focused_field_idx

-- A key that decodes is stored in its peer.
unfoldable pub store_key : Result PublicKey KeyError → ℕ → List PeerConfig → List PeerConfig
store_key (ok key) idx peers = modify (λ p. record p { public_key = key }) idx peers
store_key (err e) idx peers = peers

module _ (ext : External) where
  -- The arm for `PeerPublicKey`: the key is written, and the peer is no longer new.
  unfoldable pub write_public_key : Text → ConfigSection → ConfigEditState → ConfigEditState
  unfolding store_key
  write_public_key value interface edit = edit
  write_public_key value (peer idx) edit =
      let fresh = set_remove idx edit.new_peer_indices in
      record edit {
        draft = record (edit.draft) {
          peers = store_key (public_from_base64 ext value) idx edit.draft.peers;
        };
        new_peer_indices = fresh;
        session_error = if is_empty fresh then none else edit.session_error;
      }

  unfoldable pub write_field : EditableField → Text → ConfigEditState → ConfigEditState
  unfolding write_public_key
  write_field peer_public_key value edit = write_public_key value edit.focused_section edit
  write_field field value edit = record edit {
    draft = apply_field ext field value edit.draft edit.focused_section;
  }

  -- The field's validator has answered. The flag says whether the session leaves the field.
  unfoldable pub settle : Checked → EditableField → Text → ConfigEditState → ConfigEditState × Bool
  settle (ok _) field value edit =
      (record (write_field field value edit) { edit_buffer = none; field_error = none }, true)
  settle (err e) field value edit = (record edit { field_error = some e }, false)

  -- Enter on an open buffer.
  unfoldable pub commit : Text → ConfigEditState → ConfigEditState × Bool
  commit value edit =
      settle (validate_field ext (focused_field edit) value edit.draft edit.focused_section)
        (focused_field edit) value edit

  unfoldable pub cancel : ConfigEditState → ConfigEditState × Bool
  cancel edit = (record edit { edit_buffer = none; field_error = none }, true)

  -- With no open buffer nothing happens.
  unfoldable pub buffer_key : KeyCode → Option Text → ConfigEditState → ConfigEditState × Bool
  buffer_key key none edit = (edit, false)
  buffer_key KeyCode.enter (some value) edit = commit value edit
  buffer_key KeyCode.esc (some value) edit = cancel edit
  buffer_key key (some value) edit =
      (record edit { edit_buffer = some (type_key key value) }, false)

  unfoldable pub edit_key : KeyCode → ConfigEditState → ConfigEditState × Bool
  edit_key key edit = buffer_key key edit.edit_buffer edit
