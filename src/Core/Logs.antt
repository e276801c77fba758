-- ===== src/Core/Logs.antt =====
-- ferro-wg-core/src/logs.rs: the filters of the log view.
use ferro_wg.Prelude.{
  ℕ, Bool, true, false, ◌&&◌, ◌||◌, List, [], ◌∷◌, ◌≡◌, refl, sym, arith, Bool-cases, inl, inr,
  Text, Option, none, some, is_empty, leb, filter, text_beq_iff, ◌==◌, text_eq, nat_eq,
  if◌then◌else◌,
}
use ferro_wg.Text.Trim.{to_ascii_lowercase}
use ferro_wg.Text.Split.{has_part}
use ferro_wg.Core.Ipc.{LogEntry, LogLevel, trace, debug, info, warn, error}

pub data ConnectionFilter : Type 0 where
  all_connections active_connection : ConnectionFilter

unfoldable pub flip : ConnectionFilter → ConnectionFilter
flip all_connections = active_connection
flip active_connection = all_connections

unfoldable pub line_matches_search : Text → Text → Bool
line_matches_search line query = is_empty query || has_part query (to_ascii_lowercase line)

-- The derived order of the levels.
abbrev pub level_rank : LogLevel → ℕ
level_rank trace = 0
level_rank debug = 1
level_rank info = 2
level_rank warn = 3
level_rank error = 4

-- `option == Some(name)`
is_name_of : Text → Option Text → Bool
is_name_of name none = false
is_name_of name (some n) = n == name

is_selected : Option Text → Option Text → Bool
unfolding is_name_of
is_selected none connection = false
is_selected (some name) connection = is_name_of name connection

connection_ok : ConnectionFilter → Option Text → Option Text → Bool
unfolding is_selected
connection_ok all_connections active connection = true
connection_ok active_connection active none = true
connection_ok active_connection active (some n) = is_selected active (some n)

unfoldable pub entry_passes_filter : LogEntry → LogLevel → ConnectionFilter → Option Text → Bool
unfolding connection_ok
entry_passes_filter entry min_level connections active =
    (level_rank entry.level == 0 || leb (level_rank min_level) (level_rank entry.level))
    && connection_ok connections active entry.connection_name

-- The test of the fast path.
is_unfiltered : Text → LogLevel → ConnectionFilter → Bool
is_unfiltered search debug all_connections = is_empty search
is_unfiltered search _ _ = false

unfoldable pub filtered_lines :
    List LogEntry → Text → LogLevel → ConnectionFilter → Option Text → List LogEntry
unfolding is_unfiltered
filtered_lines buf search min_level connections active =
    if is_unfiltered search min_level connections
    then buf
    else filter
        (λ e.
          entry_passes_filter e min_level connections active
          && line_matches_search e.message search)
        buf

-- What the slow path keeps.
unfoldable pub shows : Text → LogLevel → ConnectionFilter → Option Text → LogEntry → Bool
shows search min_level connections active e =
    entry_passes_filter e min_level connections active && line_matches_search e.message search

shows_all :
    (search : Text) (active : Option Text) (e : LogEntry)
    → is_empty search ≡ true
    → shows search debug all_connections active e ≡ true
unfolding shows entry_passes_filter line_matches_search
shows_all search active e h = ground arith

filter_all :
    (search : Text) (active : Option Text) (buf : List LogEntry)
    → is_empty search ≡ true
    → filter (shows search debug all_connections active) buf ≡ buf
filter_all search active [] h = refl
filter_all search active (e ∷ buf) h =
    rw (shows_all search active e h, filter_all search active buf h) refl

-- The fast path changes nothing: in every case the lines shown are those that pass the filters.
pub filtered_lines-filter :
    (buf : List LogEntry) (search : Text) (min_level : LogLevel) (connections : ConnectionFilter)
    (active : Option Text)
    → filtered_lines buf search min_level connections active
      ≡ filter (shows search min_level connections active) buf
unfolding filtered_lines shows
filtered_lines-filter buf search debug all_connections active =
    elim (Bool-cases (is_empty search)) [
      | inl e ↦ rw e (sym (filter_all search active buf e))
      | inr e ↦ rw e refl
    ]
filtered_lines-filter buf search _ _ active = refl

-- The entries of one connection, and those of none.
unfoldable pub is_of : Text → Option Text → Bool
is_of active none = true
is_of active (some name) = active == name

active_ok :
    (active : Text) (n : Option Text)
    → connection_ok active_connection (some active) n ≡ is_of active n
unfolding connection_ok is_selected is_name_of is_of
active_ok active none = refl
active_ok active (some name) = ground (arith, text_beq_iff active name, text_beq_iff name active)

-- The filter on one connection, behind that on the level and the search.
pub shows-active_connection :
    (search : Text) (min_level : LogLevel) (active : Text) (e : LogEntry)
    → shows search min_level active_connection (some active) e
      ≡ (shows search min_level all_connections none e && is_of active e.connection_name)
unfolding shows entry_passes_filter connection_ok
shows-active_connection search min_level active e = rw (active_ok active e.connection_name) (
    moved (level_rank e.level == 0 || leb (level_rank min_level) (level_rank e.level))
      (is_of active e.connection_name) (line_matches_search e.message search))
  where
    moved : (a b m : Bool) → (a && b && m) ≡ (a && true && m && b)
    moved a b m = ground arith
