-- ===== src/Tui/State/Session.antt =====
-- The editing session of ferro-wg-tui-core/src/state.rs: the peers that have no key yet stay
-- peers of the draft, and the focus stays in its section.
use ferro_wg.Prelude.{
  ℕ, zero, suc, ◌+◌, ◌-◌, ◌<◌, true, false, List, [], ◌∷◌, ◌++◌, ◌≡◌, refl, arith, Text, Option,
  none, some, Result, ok, err, length, length-append, length-modify, length-remove_at, get_elem?,
  remove_at, ltb, nat_eq, contains, contains-insert, contains-remove, lt→ltb, ltb→lt, if◌then◌else◌,
  Bool-cases, inl, inr,
}
use ferro_wg.External.{External}
use ferro_wg.Core.Error.{KeyError}
use ferro_wg.Core.Key.{PublicKey, public_from_base64}
use ferro_wg.Core.Config.{WgConfig, PeerConfig}
use ferro_wg.Tui.Action.{KeyCode}
use ferro_wg.Tui.ConfigEdit.{
  ConfigSection, interface, peer, EditableField, peer_public_key, apply_field,
}
use ferro_wg.Tui.ConfigEdit.Validate.{Checked, validate_field}
use ferro_wg.Tui.State.Types.{ConfigEditState}
use ferro_wg.Tui.State.Editing.{
  add_peer, shift_indices, refocus, removed, blank_peer, delete_peer, commit, cancel, buffer_key,
  focused_field, write_field, write_public_key, store_key, settle,
}

-- The index that a peer had before the peer at `i` was removed.
abbrev pub before_removal : ℕ → ℕ → ℕ
before_removal i j = if ltb j i then j else j + 1

get_elem?-remove_at {ℓ} :
    {A : Type ℓ} (i j : ℕ) (xs : List A)
    → i < length xs
    → get_elem? (remove_at i xs) j ≡ get_elem? xs (before_removal i j)
get_elem?-remove_at i j [] h = elim h [ ]
get_elem?-remove_at zero j (x ∷ xs) h = ground arith
get_elem?-remove_at (suc i) zero (x ∷ xs) h = ground arith
get_elem?-remove_at (suc i) (suc j) (x ∷ xs) h = ground (arith, get_elem?-remove_at i j xs)

contains-shift_indices :
    (i j : ℕ) (fresh : List ℕ)
    → contains (shift_indices i fresh) j ≡ contains fresh (before_removal i j)
unfolding shift_indices contains
contains-shift_indices i j [] = refl
contains-shift_indices i j (x ∷ fresh) = ground (arith, contains-shift_indices i j fresh)

refocus_keeps :
    (edit : ConfigEditState)
    → ((refocus edit).draft ≡ edit.draft)
      × ((refocus edit).new_peer_indices ≡ edit.new_peer_indices)
unfolding refocus
refocus_keeps edit = ground arith

-- Deleting a peer of the draft takes out that peer alone, and the marks of peers without a key
-- move with their peers. Out of range nothing happens.
pub delete_peer_lem :
    (i j : ℕ) (edit : ConfigEditState)
    → i < length edit.draft.peers
    → (get_elem? (delete_peer i edit).draft.peers j
        ≡ get_elem? edit.draft.peers (before_removal i j))
      × (contains (delete_peer i edit).new_peer_indices j
          ≡ contains edit.new_peer_indices (before_removal i j))
      × ((delete_peer i edit).draft.interface ≡ edit.draft.interface)
unfolding delete_peer removed
delete_peer_lem i j edit h = ground (
  arith,
  refocus_keeps (removed i edit),
  lt→ltb i (length edit.draft.peers) h,
  get_elem?-remove_at i j edit.draft.peers h,
  contains-shift_indices i j edit.new_peer_indices,
)

-- Every mark of a peer without a key is on a peer of the draft.
pub record IsMarked (edit : ConfigEditState) : Type 0 where
  pub within : (j : ℕ) → contains edit.new_peer_indices j ≡ true → j < length edit.draft.peers

pub add_peer-IsMarked : (edit : ConfigEditState) → IsMarked edit → IsMarked (add_peer edit)
unfolding add_peer
add_peer-IsMarked edit h = record {
  within = λ j e. ground (
    arith,
    h.within j,
    length-append edit.draft.peers (blank_peer ∷ []),
    contains-insert (length (edit.draft.peers ++ blank_peer ∷ []) - 1) j edit.new_peer_indices,
  );
}

pub length-delete_peer :
    (i : ℕ) (edit : ConfigEditState)
    → i < length edit.draft.peers
    → length (delete_peer i edit).draft.peers + 1 ≡ length edit.draft.peers
unfolding delete_peer removed
length-delete_peer i edit h = ground (
  arith,
  refocus_keeps (removed i edit),
  lt→ltb i (length edit.draft.peers) h,
  length-remove_at i edit.draft.peers h,
)

delete_peer-out :
    (i : ℕ) (edit : ConfigEditState)
    → ltb i (length edit.draft.peers) ≡ false
    → delete_peer i edit ≡ edit
unfolding delete_peer
delete_peer-out i edit h = rw h

pub delete_peer-IsMarked :
    (i : ℕ) (edit : ConfigEditState) → IsMarked edit → IsMarked (delete_peer i edit)
delete_peer-IsMarked i edit h = elim (Bool-cases (ltb i (length edit.draft.peers))) [
  | inr out ↦ rw (delete_peer-out i edit out) h
  | inl inside ↦ record {
    within = λ j e. ground (
      arith,
      length-delete_peer i edit,
      delete_peer_lem i j edit,
      ltb→lt i (length edit.draft.peers) inside,
      h.within (before_removal i j),
    );
  }
]

length-store_key :
    (r : Result PublicKey KeyError) (i : ℕ) (peers : List PeerConfig)
    → length (store_key r i peers) ≡ length peers
unfolding store_key
length-store_key (ok key) i peers = length-modify _ i peers
length-store_key (err e) i peers = refl

module _ (ext : External) where
  length-apply_field :
      (f : EditableField) (v : Text) (draft : WgConfig) (s : ConfigSection)
      → length (apply_field ext f v draft s).peers ≡ length draft.peers
  unfolding apply_field
  length-apply_field EditableField.peer_name v draft (peer i) = length-modify _ i draft.peers
  length-apply_field EditableField.peer_endpoint v draft (peer i) = length-modify _ i draft.peers
  length-apply_field EditableField.peer_allowed_ips v draft (peer i) = length-modify _ i draft.peers
  length-apply_field EditableField.peer_persistent_keepalive v draft (peer i) =
      length-modify _ i draft.peers
  length-apply_field _ v draft s = refl

  write_public_key-IsMarked :
      (v : Text) (s : ConfigSection) (edit : ConfigEditState)
      → IsMarked edit
      → IsMarked (write_public_key ext v s edit)
  unfolding write_public_key
  write_public_key-IsMarked v interface edit h = h
  write_public_key-IsMarked v (peer i) edit h = record {
    within = λ j e. ground (
      arith,
      length-store_key (public_from_base64 ext v) i edit.draft.peers,
      h.within j,
      contains-remove i j edit.new_peer_indices,
    );
  }

  write_field-IsMarked :
      (f : EditableField) (v : Text) (edit : ConfigEditState)
      → IsMarked edit
      → IsMarked (write_field ext f v edit)
  unfolding write_field
  write_field-IsMarked peer_public_key v edit h =
      write_public_key-IsMarked v edit.focused_section edit h
  write_field-IsMarked f v edit h = record { within = λ j e. rw length-apply_field (h.within j e) }

  settle-IsMarked :
      (r : Checked) (f : EditableField) (v : Text) (edit : ConfigEditState)
      → IsMarked edit
      → IsMarked (settle ext r f v edit).0
  unfolding settle
  settle-IsMarked (ok u) f v edit h = record { within = (write_field-IsMarked f v edit h).within }
  settle-IsMarked (err e) f v edit h = record { within = h.within }

  pub buffer_key-IsMarked :
      (key : KeyCode) (o : Option Text) (edit : ConfigEditState)
      → IsMarked edit
      → IsMarked (buffer_key ext key o edit).0
  unfolding buffer_key commit cancel
  buffer_key-IsMarked key none edit h = h
  buffer_key-IsMarked KeyCode.enter (some v) edit h =
      settle-IsMarked (validate_field ext (focused_field edit) v edit.draft edit.focused_section)
        (focused_field edit) v edit h
  buffer_key-IsMarked _ (some v) edit h = record { within = h.within }
