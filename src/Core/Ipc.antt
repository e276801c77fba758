-- ===== src/Core/Ipc.antt =====
-- ferro-wg-core/src/ipc.rs: what the daemon sends to the TUI. The JSON framing is serde's.
use ferro_wg.Prelude.{ℕ, Bool, Text, Option, ℤ, List, ◌++◌, Result, ok, ◌>>=◌, codes}
use ferro_wg.Text.Trim.{trim}
use ferro_wg.Core.Error.{BackendKind, WgError}
use ferro_wg.Core.Stats.{TunnelStats, BenchmarkResult}

pub data LogLevel : Type 0 where
  trace debug info warn error : LogLevel

unfoldable pub cycle : LogLevel → LogLevel
cycle trace = info
cycle debug = info
cycle info = warn
cycle warn = error
cycle error = debug

pub record LogEntry : Type 0 where
  pub timestamp_ms : ℤ
  pub level : LogLevel
  pub connection_name : Option Text
  pub message : Text

pub record PeerStatus : Type 0 where
  pub name : Text
  pub connected : Bool
  pub backend : BackendKind
  pub stats : TunnelStats
  pub endpoint : Option Text
  pub interface : Option Text

pub record BenchmarkProgress : Type 0 where
  pub backend : Text
  pub elapsed_secs : ℕ
  pub total_secs : ℕ
  pub current_throughput_bps : ℕ
  pub packets_processed : ℕ

pub data DaemonCommand : Type 0 where
  -- without a name: every configured connection
  up : Option Text → BackendKind → DaemonCommand
  -- without a name: every active connection
  down : Option Text → DaemonCommand
  status : DaemonCommand
  switch_backend : Text → BackendKind → DaemonCommand
  shutdown stream_logs : DaemonCommand
  -- connection, seconds
  benchmark : Text → ℕ → DaemonCommand

-- The texts of `DaemonResponse::Error`.
pub data ResponseError : Type 0 where
  of_wg : WgError → ResponseError
  benchmark_not_implemented stream_logs_not_supported : ResponseError
  invalid_command : Text → ResponseError
  -- a text of which no more is known: what a client reads
  as_text : Text → ResponseError

pub data DaemonResponse : Type 0 where
  done : DaemonResponse
  failed : ResponseError → DaemonResponse
  statuses : List PeerStatus → DaemonResponse
  log_entry : LogEntry → DaemonResponse
  benchmark_progress : BenchmarkProgress → DaemonResponse
  benchmark_result : BenchmarkResult → DaemonResponse

-- The texts `"INFO+"` and `"INFO"` of a level.
unfoldable pub title_label : LogLevel → Text
title_label trace = codes "TRACE+"
title_label debug = codes "DEBUG+"
title_label info = codes "INFO+"
title_label warn = codes "WARN+"
title_label error = codes "ERROR"

unfoldable pub badge : LogLevel → Text
badge trace = codes "TRACE"
badge debug = codes "DEBUG"
badge info = codes "INFO"
badge warn = codes "WARN"
badge error = codes "ERROR"

-- `serde_json::to_string` and `from_str` are parameters, of the type that is sent.
unfoldable pub encode_message : {T : Type 0} → (T → Result Text Text) → T → Result Text Text
encode_message to_string msg = do json ← to_string msg; ok (json ++ codes "\n")

unfoldable pub decode_message : {T : Type 0} → (Text → Result T Text) → Text → Result T Text
decode_message from_str json = from_str (trim json)
