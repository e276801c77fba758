-- ===== src/Program/Logs.antt =====
-- ferro-wg/src/cmd/logs.rs: the log entries that the `logs` subcommand prints. chrono's time of day is
-- a parameter.
use ferro_wg.Prelude.{
  ℕ, zero, suc, ◌-◌, ◌≤◌, ◌≡◌, refl, sym, ap, ◌∙◌, Bool, true, false, ◌&&◌, List, [], ◌∷◌, ◌++◌,
  map, Text, Option, none, some, codes, filter, take, drop, length, ℤ, length-append, arith,
  append-nil, append_assoc, contains, text_eq,
}
use native.Mathlib.Decide.{dec_le}
use ferro_wg.Text.Trim.{to_ascii_lowercase}
use ferro_wg.Core.Ipc.{LogEntry, LogLevel, badge}
use ferro_wg.Core.Logs.{
  ConnectionFilter, all_connections, active_connection, entry_passes_filter, line_matches_search,
  shows, filtered_lines-filter, is_of, shows-active_connection,
}
use ferro_wg.Tui.Keys.LogsView.{LogsView, new_logs_view, is_of_visible, get_filtered_entries}

unfoldable pub connection_filter : Option Text → ConnectionFilter
connection_filter none = all_connections
connection_filter (some _) = active_connection

-- The test of both modes.
unfoldable pub prints : LogLevel → Option Text → Text → LogEntry → Bool
prints level connection search e =
    entry_passes_filter e level (connection_filter connection) connection
    && line_matches_search e.message (to_ascii_lowercase search)

unfoldable pub reversed {ℓ} : {A : Type ℓ} → List A → List A
reversed [] = []
reversed (x ∷ xs) = reversed xs ++ x ∷ []

-- `--lines`: `rev().take(n).rev()`
unfoldable pub last_lines : Option ℕ → List LogEntry → List LogEntry
last_lines none es = es
last_lines (some n) es = reversed (take n (reversed es))

-- `buffer` is what came in 200 ms.
unfoldable pub collect_filtered_logs :
    List LogEntry → LogLevel → Option Text → Text → Option ℕ → List LogEntry
collect_filtered_logs buffer level connection search lines =
    last_lines lines (filter (prints level connection search) buffer)

unfoldable pub name_or_global : Option Text → Text
name_or_global none = codes "(global)"
name_or_global (some n) = n

unfoldable pub format_entry : (ℤ → Text) → LogEntry → Text
format_entry time_of_day entry =
    codes "["
    ++ (time_of_day entry.timestamp_ms
        ++ (codes "] ["
            ++ (badge entry.level
                ++ (codes "] ("
                    ++ (name_or_global entry.connection_name ++ (codes ") " ++ entry.message))))))

-- With `--watch` the entries are printed as they come, until the stream or the user ends it.
unfoldable pub cmd_logs :
    (ℤ → Text) → LogLevel → Option Text → Text → Option ℕ → Bool → List LogEntry → List Text
cmd_logs time_of_day level connection search lines true entries =
    map (format_entry time_of_day) (filter (prints level connection search) entries)
cmd_logs time_of_day level connection search lines false entries =
    map (format_entry time_of_day) (collect_filtered_logs entries level connection search lines)

reversed-append {ℓ} :
    {A : Type ℓ} (xs ys : List A) → reversed (xs ++ ys) ≡ reversed ys ++ reversed xs
unfolding reversed
reversed-append [] ys = sym (append-nil (reversed ys))
reversed-append (x ∷ xs) ys =
    rw (reversed-append xs ys) (append_assoc (reversed ys) (reversed xs) (x ∷ []))

reversed-reversed {ℓ} : {A : Type ℓ} (xs : List A) → reversed (reversed xs) ≡ xs
unfolding reversed
reversed-reversed [] = refl
reversed-reversed (x ∷ xs) =
    reversed-append (reversed xs) (x ∷ []) ∙ ap (◌∷◌ x) (reversed-reversed xs)

take-append_within {ℓ} :
    {A : Type ℓ} (n : ℕ) (xs ys : List A) → n ≤ length xs → take n (xs ++ ys) ≡ take n xs
take-append_within zero xs ys h = refl
take-append_within (suc n) [] ys h = ground (arith, h)
take-append_within (suc n) (x ∷ xs) ys h = ap (◌∷◌ x) (take-append_within n xs ys (omega arith))

take-beyond {ℓ} : {A : Type ℓ} (n : ℕ) (xs : List A) → length xs ≤ n → take n xs ≡ xs
take-beyond zero [] h = refl
take-beyond zero (x ∷ xs) h = ground (arith, h)
take-beyond (suc n) [] h = refl
take-beyond (suc n) (x ∷ xs) h = ap (◌∷◌ x) (take-beyond n xs (omega arith))

drop-nil {ℓ} : {A : Type ℓ} (n : ℕ) → drop {A = A} n [] ≡ []
drop-nil zero = refl
drop-nil (suc n) = refl

length-reversed {ℓ} : {A : Type ℓ} (xs : List A) → length (reversed xs) ≡ length xs
unfolding reversed
length-reversed [] = refl
length-reversed (x ∷ xs) = grind (arith, length-append, length-reversed xs)

reversed-take {ℓ} :
    {A : Type ℓ} (n : ℕ) (xs : List A) → reversed (take n (reversed xs)) ≡ drop (length xs - n) xs
unfolding reversed
reversed-take zero [] = sym (drop-nil (0 - zero))
reversed-take (suc n) [] = sym (drop-nil (0 - suc n))
reversed-take n (x ∷ xs) = elim (dec_le n (length xs)) [
  | yes within ↦
      rw (take-append_within n (reversed xs) (x ∷ []) (omega (arith, length-reversed xs)))
        (rw (show_suc n (length xs) within) (reversed-take n xs))
  | no beyond ↦
      rw
        (take-beyond n (reversed xs ++ x ∷ [])
          (omega (arith, length-reversed xs, length-append (reversed xs) (x ∷ []), beyond)))
        (rw (show_zero n (length xs) beyond) (reversed-reversed (x ∷ xs)))
]
  where
    show_suc : (n k : ℕ) → n ≤ k → suc k - n ≡ suc (k - n)
    show_suc n k h = omega (arith, h)

    show_zero : (n k : ℕ) → ¬ (n ≤ k) → suc k - n ≡ 0
    show_zero n k h = omega (arith, h)

filter-filter {ℓ} :
    {A : Type ℓ} (p q r : A → Bool) (xs : List A)
    → ((x : A) → r x ≡ (q x && p x))
    → filter p (filter q xs) ≡ filter r xs
filter-filter p q r [] h = refl
filter-filter p q r (x ∷ xs) h = ground (arith, h x, filter-filter p q r xs h)

-- The log view, set to a level, and to the visible connections when one is asked for.
abbrev pub view_of : LogLevel → Option Text → LogsView
view_of level connection = record new_logs_view {
  min_level = level;
  connection_filter = connection_filter connection;
}

-- The asked-for connection is the only visible one.
abbrev pub visible_of : Option Text → List Text
visible_of none = []
visible_of (some name) = name ∷ []

-- What the log view of the terminal interface then shows.
abbrev pub viewed : List LogEntry → LogLevel → Option Text → Text → List LogEntry
viewed buffer level connection search =
    get_filtered_entries (view_of level connection) buffer (to_ascii_lowercase search)
      (visible_of connection)

is_of_visible-alone :
    (name : Text) (e : LogEntry) → is_of_visible (name ∷ []) e ≡ is_of name e.connection_name
unfolding is_of_visible is_of contains
is_of_visible-alone name e = alone e.connection_name
  where
    alone :
        (n : Option Text)
        → (elim n [ none ↦ true | some other ↦ contains (name ∷ []) other ]) ≡ is_of name n
    alone none = refl
    alone (some other) = ground arith

filter-viewed :
    (buffer : List LogEntry) (level : LogLevel) (connection : Option Text) (search : Text)
    → filter (prints level connection search) buffer ≡ viewed buffer level connection search
unfolding get_filtered_entries prints shows connection_filter new_logs_view
filter-viewed buffer level none search =
    sym (filtered_lines-filter buffer (to_ascii_lowercase search) level all_connections none)
filter-viewed buffer level (some name) search =
    let query = to_ascii_lowercase search in
    sym (
      ap (filter (is_of_visible (name ∷ [])))
        (filtered_lines-filter buffer query level all_connections none)
      ∙ filter-filter (is_of_visible (name ∷ [])) (shows query level all_connections none)
          (shows query level active_connection (some name)) buffer
          (λ e.
            shows-active_connection query level name e
            ∙ ap (λ b. shows query level all_connections none e && b)
                (sym (is_of_visible-alone name e))))

-- Without `--watch` the subcommand shows the entries that the log view of the terminal interface shows
-- for the same level and search, with all connections, or with its filter on and the asked-for
-- connection as the only visible one; and of these the newest `n` with `--lines n`.
pub collect_filtered_logs-viewed :
    (buffer : List LogEntry) (level : LogLevel) (connection : Option Text) (search : Text) (n : ℕ)
    → (collect_filtered_logs buffer level connection search none
        ≡ viewed buffer level connection search)
      × (collect_filtered_logs buffer level connection search (some n)
          ≡ drop
              (length (viewed buffer level connection search) - n)
              (viewed buffer level connection search))
unfolding collect_filtered_logs last_lines
collect_filtered_logs-viewed buffer level connection search n =
    let seen = filter-viewed buffer level connection search in
    (
      seen,
      reversed-take n (filter (prints level connection search) buffer)
          ∙ ap (λ es. drop (length es - n) es) seen,
    )
