-- ===== src/Core/Daemon/Layer.antt =====
-- ferro-wg-core/src/daemon.rs: `LogLayer`, which turns a tracing event into a log entry. An event is
-- its level, its target and its fields, a value that implements only `Debug` as its text.
use ferro_wg.Prelude.{
  List, [], ◌∷◌, ◌++◌, Text, Option, none, some, ℤ, ℕ, codes, ◌==◌, text_eq, if◌then◌else◌,
}
use ferro_wg.Core.Daemon.Buffer.{LogBuffer, Level, map_tracing_level, add_entry}

pub record LogVisitor : Type 0 where
  pub message : Text
  pub connection : Option Text

unfoldable pub record_field : Text → Text → LogVisitor → LogVisitor
record_field name value v =
    if name == codes "message"
    then record v { message = value }
    else if name == codes "connection"
    then record v { connection = some value }
    else v

unfoldable pub record_fields : List (Text × Text) → LogVisitor → LogVisitor
record_fields [] v = v
record_fields ((name, value) ∷ fields) v = record_fields fields (record_field name value v)

-- `now` is the clock that `LogEntry::now` reads.
unfoldable pub on_event : (ℕ → ℕ) → ℤ → Level → Text → List (Text × Text) → LogBuffer → LogBuffer
on_event granted now level target fields b =
    let visitor = record_fields fields (record { message = []; connection = none }) in
    add_entry granted
      (record {
        timestamp_ms = now;
        level = map_tracing_level level;
        connection_name = visitor.connection;
        message = target ++ codes ": " ++ visitor.message;
      })
      b
