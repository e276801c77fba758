-- ===== src/Tui/State/Details.antt =====
-- What single handlers of ferro-wg-tui-core/src/state.rs do, on all their branches.
use ferro_wg.Prelude.{
  IsDistinct, ◌≤◌, Bool, false, not, List, [], ◌∷◌, map, ◌≡◌, refl, sym, ap, ◌∙◌, arith, Text,
  Option, none, some, contains, contains-insert, contains-remove, text_eq, ◌==◌, text_beq_iff, All,
  Bool-cases, Option-cases, map-id, map-map, fun_ext, inl, inr, if◌then◌else◌, leb→le, le→leb,
  filter,
}
use ferro_wg.Core.Ipc.{PeerStatus}
use ferro_wg.Tui.State.Types.{names_of, Clock, ConnectionView, Toast, is_expired}
use ferro_wg.Tui.State.Simple.{
  toggle_visibility, drop_expired, status_of, update_status, update_statuses,
}

-- Toggling a connection flips whether that name is visible, and leaves every other name as it was.
pub toggle_visibility_lem :
    (name other : Text) (visible : List Text)
    → contains (toggle_visibility name visible) other
      ≡ (if name == other then not (contains visible name) else contains visible other)
unfolding toggle_visibility
toggle_visibility_lem name other visible = ground (
  arith,
  contains-insert name other visible,
  contains-remove name other visible,
  text_beq_iff name other,
)

-- Toasts are shown oldest first.
abbrev pub IsByAge : List Toast → Type 0
IsByAge [] = Unit
IsByAge (t ∷ ts) = All (λ u. t.expires_at ≤ u.expires_at) ts × IsByAge ts

pub fresh : Clock → Toast → Bool
fresh clock t = not (is_expired clock t)

filter-fresh :
    (clock : Clock) (t : Toast) (ts : List Toast)
    → is_expired clock t ≡ false
    → All (λ u. t.expires_at ≤ u.expires_at) ts
    → filter (fresh clock) ts ≡ ts
unfolding fresh is_expired
filter-fresh clock t [] e h = refl
filter-fresh clock t (u ∷ ts) e h = ground (
  arith,
  filter-fresh clock t ts e (h.1),
  leb→le u.expires_at clock.now,
  le→leb t.expires_at clock.now,
)

-- With the toasts in the order of their expiry, exactly the expired ones are dropped.
pub drop_expired-filter :
    (clock : Clock) (ts : List Toast) → IsByAge ts → drop_expired clock ts ≡ filter (fresh clock) ts
unfolding drop_expired fresh
drop_expired-filter clock [] h = refl
drop_expired-filter clock (t ∷ ts) h = elim (Bool-cases (is_expired clock t)) [
  | inl e ↦ rw e (drop_expired-filter clock ts (h.1))
  | inr e ↦ ground (arith, filter-fresh clock t ts e (h.0))
]

-- The last line of a poll that is about a name.
pub last_line : Text → List PeerStatus → Option PeerStatus
last_line name [] = none
last_line name (p ∷ ps) = elim (last_line name ps) [
  | some q ↦ some q
  | none ↦ if name == p.name then some p else none
]

-- A connection with the status that a line gives it.
pub refreshed : Option PeerStatus → ConnectionView → ConnectionView
refreshed none c = c
refreshed (some p) c = record c { status = some (status_of p) }

line_for : Text → PeerStatus → Option PeerStatus
line_for name p = if name == p.name then some p else none

refresh-others :
    (p : PeerStatus) (cs : List ConnectionView)
    → contains (names_of cs) p.name ≡ false
    → map (λ c. refreshed (line_for c.name p) c) cs ≡ cs
unfolding contains line_for refreshed
refresh-others p [] h = refl
refresh-others p (c ∷ cs) h = ground (arith, refresh-others p cs)

update_status-map :
    (p : PeerStatus) (cs : List ConnectionView)
    → IsDistinct (names_of cs)
    → update_status p cs ≡ map (λ c. refreshed (line_for c.name p) c) cs
unfolding update_status line_for refreshed
update_status-map p [] h = refl
update_status-map p (c ∷ cs) h =
    ground (arith, text_beq_iff c.name p.name, refresh-others p cs, update_status-map p cs (h.1))

update_status-names :
    (p : PeerStatus) (cs : List ConnectionView) → names_of (update_status p cs) ≡ names_of cs
unfolding update_status
update_status-names p [] = refl
update_status-names p (c ∷ cs) = ground (arith, update_status-names p cs)

refresh-twice :
    (p : PeerStatus) (ps : List PeerStatus) (c : ConnectionView)
    → refreshed
        (last_line (refreshed (line_for c.name p) c).name ps)
        (refreshed (line_for c.name p) c)
      ≡ refreshed (last_line c.name (p ∷ ps)) c
unfolding last_line refreshed line_for
refresh-twice p ps c = elim (Option-cases (last_line c.name ps)) [
  | inl e ↦ ground (arith, e)
  | inr (q, e) ↦ ground (arith, e)
]

-- A poll gives every connection the status of the last line about it, and leaves the others as they
-- were, when no two connections have one name. The order of the lines matters for no other.
pub update_statuses-map :
    (ps : List PeerStatus) (cs : List ConnectionView)
    → IsDistinct (names_of cs)
    → update_statuses ps cs ≡ map (λ c. refreshed (last_line c.name ps) c) cs
unfolding update_statuses last_line refreshed
update_statuses-map [] cs h = sym (map-id cs)
update_statuses-map (p ∷ ps) cs h =
    update_statuses-map ps (update_status p cs) (rw (update_status-names p cs) h)
    ∙ ap (map (λ c. refreshed (last_line c.name ps) c)) (update_status-map p cs h)
    ∙ map-map _ _ cs
    ∙ ap (λ f. map f cs) (fun_ext (refresh-twice p ps))
