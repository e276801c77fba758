-- ===== src/Tui/State/Queue.antt =====
-- The log queue in ferro-wg-tui-core/src/state.rs.
use ferro_wg.Prelude.{
  ◌+◌, ◌≤◌, min, true, false, List, [], ◌∷◌, ◌++◌, ◌≡◌, refl, arith, inl, inr, length,
  length-append, length-drop, drop, take, ◌==◌, nat_eq, text_eq, nat_beq_iff, Bool-cases,
}
use ferro_wg.Core.Ipc.{LogEntry}
use ferro_wg.Tui.State.Types.{AppState, LogQueue}
use ferro_wg.Tui.State.Simple.{append_log, push_entry}

take-drop-append :
    (xs : List LogEntry) (entry : LogEntry)
    → 1 ≤ length xs
    → take 1 xs ++ (drop 1 xs ++ entry ∷ []) ≡ xs ++ entry ∷ []
take-drop-append [] entry h = ground arith
take-drop-append (x ∷ xs) entry h = refl

push_full :
    (entry : LogEntry) (q : LogQueue)
    → q.poisoned ≡ false
    → 1 ≤ q.capacity
    → (length q.entries == q.capacity) ≡ true
    → (old : List LogEntry) × (old ++ (push_entry entry q).entries ≡ q.entries ++ entry ∷ [])
      × (length (push_entry entry q).entries ≡ min q.capacity (length q.entries + 1))
unfolding push_entry
push_full entry q sound low full = (
  take 1 q.entries,
  rw (sound, full)
      (take-drop-append q.entries entry
        (ground (arith, nat_beq_iff (length q.entries) q.capacity))),
  ground (
    arith,
    nat_beq_iff (length q.entries) q.capacity,
    length-append (drop 1 q.entries) (entry ∷ []),
    length-drop 1 q.entries,
  ),
)

push_free :
    (entry : LogEntry) (q : LogQueue)
    → q.poisoned ≡ false
    → length q.entries ≤ q.capacity
    → (length q.entries == q.capacity) ≡ false
    → (old : List LogEntry) × (old ++ (push_entry entry q).entries ≡ q.entries ++ entry ∷ [])
      × (length (push_entry entry q).entries ≡ min q.capacity (length q.entries + 1))
unfolding push_entry
push_free entry q sound high free = (
  [],
  rw (sound, free) refl,
  ground (arith, nat_beq_iff (length q.entries) q.capacity, length-append q.entries (entry ∷ [])),
)

-- A queue that is not poisoned, has room for an entry and is in its capacity keeps the newest entries
-- in their order, the new one last, and stays in its capacity.
pub append_log_lem :
    (entry : LogEntry) (s : AppState)
    → s.log_entries.poisoned ≡ false
    → 1 ≤ s.log_entries.capacity
    → length s.log_entries.entries ≤ s.log_entries.capacity
    → (old : List LogEntry) × (old ++ (append_log entry s).log_entries.entries
        ≡ s.log_entries.entries ++ entry ∷ [])
      × (length (append_log entry s).log_entries.entries
          ≡ min s.log_entries.capacity (length s.log_entries.entries + 1))
unfolding append_log push_entry
append_log_lem entry s sound low high =
    let entries = s.log_entries.entries in
    elim (Bool-cases (length entries == s.log_entries.capacity)) [
      | inl full ↦ push_full entry s.log_entries sound low full
      | inr free ↦ push_free entry s.log_entries sound high free
    ]
