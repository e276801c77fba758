-- ===== src/Core/Daemon/Buffer.antt =====
-- ferro-wg-core/src/daemon.rs: `LogBuffer`, a queue that forgets its oldest entry. A `VecDeque` may
-- hold more than it was asked to: `granted` is the capacity that it gets, when it is made and when it
-- has to grow. A poisoned lock is not followed: no code panics while it holds it.
use ferro_wg.Prelude.{ℕ, suc, List, [], ◌∷◌, ◌++◌, length, drop, ◌==◌, nat_eq, if◌then◌else◌}
use ferro_wg.Core.Ipc.{LogEntry, LogLevel, trace, debug, info, warn, error}

pub record LogBuffer : Type 0 where
  pub entries : List LogEntry
  pub capacity : ℕ

-- `tracing::Level`
pub data Level : Type 0 where
  level_trace level_debug level_info level_warn level_error : Level

unfoldable pub map_tracing_level : Level → LogLevel
map_tracing_level level_trace = trace
map_tracing_level level_debug = debug
map_tracing_level level_info = info
map_tracing_level level_warn = warn
map_tracing_level level_error = error

unfoldable pub get_buffer : LogBuffer → List LogEntry
get_buffer b = b.entries

unfoldable pub drain_logs : LogBuffer → List LogEntry × LogBuffer
drain_logs b = (b.entries, record b { entries = [] })

-- `pop_front` when full.
unfoldable pub make_room : LogBuffer → List LogEntry
make_room b = if length b.entries == b.capacity then drop 1 b.entries else b.entries

module _ (granted : ℕ → ℕ) where
  unfoldable pub new_buffer : ℕ → LogBuffer
  new_buffer capacity = record { entries = []; capacity = granted capacity }

  unfoldable pub push_back : LogEntry → List LogEntry → ℕ → LogBuffer
  push_back entry entries capacity = record {
    entries = entries ++ entry ∷ [];
    capacity = (if length entries == capacity then granted (suc capacity) else capacity);
  }

  unfoldable pub add_entry : LogEntry → LogBuffer → LogBuffer
  add_entry entry b = push_back entry (make_room b) b.capacity

  unfoldable pub add_entries : List LogEntry → LogBuffer → LogBuffer
  add_entries [] b = b
  add_entries (e ∷ es) b = add_entries es (add_entry e b)
