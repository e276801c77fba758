-- ===== src/Tui/State/Drafts.antt =====
-- The draft of an editing session of ferro-wg-tui-core/src/state.rs: its numbers, and the focus.
use ferro_wg.Prelude.{
  ℕ, ◌+◌, ◌-◌, ◌%◌, ◌<◌, ◌≡◌, refl, sym, arith, Text, Option, none, some, Result, ok, err, inl, inr,
  length, Bool-cases, ltb, ltb→lt, lt→ltb, ap, ◌==◌, nat_eq, if◌then◌else◌,
}
use native.Mathlib.Nat.{mod-eq_of_lt, mod_self}
use ferro_wg.External.{External}
use ferro_wg.Core.Config.{WgConfig}
use ferro_wg.Core.Error.{KeyError}
use ferro_wg.Core.Key.{PublicKey, public_from_base64}
use ferro_wg.Tui.Action.{KeyCode}
use ferro_wg.Tui.ConfigEdit.{ConfigSection, interface, peer, EditableField, peer_public_key}
use ferro_wg.Tui.ConfigEdit.Validate.{Checked, validate_field}
use ferro_wg.Tui.ConfigEdit.Ranges.{IsSound, apply_field-IsSound, modify-IsRanged}
use ferro_wg.Tui.State.Types.{ConfigEditState}
use ferro_wg.Tui.State.Editing.{
  section_fields, focus_next, focus_prev, store_key, write_public_key, write_field, settle, commit,
  cancel, buffer_key, focused_field,
}

store_key-IsSound :
    (r : Result PublicKey KeyError) (i : ℕ) (c : WgConfig)
    → IsSound c
    → IsSound (record c { peers = store_key r i c.peers })
unfolding store_key
store_key-IsSound (ok key) i c h = record {
  ranged = modify-IsRanged _ i c (λ p b. b) h.ranged;
  mtu = h.mtu;
}
store_key-IsSound (err e) i c h = h

module _ (ext : External) where
  write_public_key-IsSound :
      (v : Text) (s : ConfigSection) (edit : ConfigEditState)
      → IsSound edit.draft
      → IsSound (write_public_key ext v s edit).draft
  unfolding write_public_key
  write_public_key-IsSound v interface edit h = h
  write_public_key-IsSound v (peer i) edit h =
      store_key-IsSound (public_from_base64 ext v) i edit.draft h

  write_field-IsSound :
      (f : EditableField) (v : Text) (edit : ConfigEditState)
      → validate_field ext f v edit.draft edit.focused_section ≡ ok tt
      → IsSound edit.draft
      → IsSound (write_field ext f v edit).draft
  unfolding write_field
  write_field-IsSound peer_public_key v edit valid h =
      write_public_key-IsSound v edit.focused_section edit h
  write_field-IsSound f v edit valid h =
      apply_field-IsSound ext f v edit.draft edit.focused_section valid h

  settle-IsSound :
      (r : Checked) (f : EditableField) (v : Text) (edit : ConfigEditState)
      → r ≡ validate_field ext f v edit.draft edit.focused_section
      → IsSound edit.draft
      → IsSound (settle ext r f v edit).0.draft
  unfolding settle
  settle-IsSound (ok u) f v edit e h = write_field-IsSound f v edit (sym e) h
  settle-IsSound (err x) f v edit e h = h

  -- From a draft whose numbers are in their widths and whose MTU is 0 or from 576 to 9000, no key
  -- pressed in a field leads to another kind of draft.
  pub buffer_key-IsSound :
      (key : KeyCode) (o : Option Text) (edit : ConfigEditState)
      → IsSound edit.draft
      → IsSound (buffer_key ext key o edit).0.draft
  unfolding buffer_key commit cancel
  buffer_key-IsSound key none edit h = h
  buffer_key-IsSound KeyCode.enter (some v) edit h =
      settle-IsSound (validate_field ext (focused_field edit) v edit.draft edit.focused_section)
        (focused_field edit) v edit refl h
  buffer_key-IsSound _ (some v) edit h = h

-- One step forward and back in a row of `n` fields.
wrap :
    (i n : ℕ)
    → i < n
    → ((if (i + 1) % n == 0 then n - 1 else (i + 1) % n - 1) ≡ i) × ((i + 1) % n < n)
wrap i n h = elim (Bool-cases (ltb (i + 1) n)) [
  | inl inside ↦ ground (arith, mod-eq_of_lt (ltb→lt (i + 1) n inside))
  | inr last ↦ ground (arith, ltb→lt (i + 1) n, lt→ltb (i + 1) n, mod_self n)
]

-- The focus on a field of its section stays on one, and moving forward and back ends where it
-- started, around the ends of the form too.
pub focus_prev-focus_next :
    (edit : ConfigEditState)
    → edit.focused_field_idx < length (section_fields edit)
    → (focus_prev (focus_next edit) ≡ edit)
      × ((focus_next edit).focused_field_idx < length (section_fields edit))
unfolding focus_prev focus_next section_fields
focus_prev-focus_next edit h =
    let (back, inside) = wrap edit.focused_field_idx (length (section_fields edit)) h in
    (ap (λ i. record edit { focused_field_idx = i }) back, inside)
