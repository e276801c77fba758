-- ===== src/Tui/Error.antt =====
-- `TuiError` of ferro-wg-tui/src/lib.rs, and the texts that the tasks give to it: a constructor for
-- each text that the code formats.
use ferro_wg.Prelude.{String, Text}
use ferro_wg.Core.Error.{ConfigError}
use ferro_wg.Core.Ipc.{ResponseError}
use ferro_wg.Core.Client.{DaemonClientError}
use ferro_wg.Core.WgQuick.Parse.{Stop}

-- Why a file was not imported.
pub data ImportError : Type 0 where
  -- the path
  no_name : Text → ImportError
  import_failed : Stop → ImportError
  could_not_load could_not_save : ConfigError → ImportError

-- Why a draft was not saved.
pub data SaveError : Type 0 where
  could_not_load could_not_serialise could_not_write : ConfigError → SaveError
  could_not_back_up : Text → SaveError

-- `BenchmarkError` of ferro-wg-tui-core/src/benchmark.rs
pub data BenchmarkError : Type 0 where
  io serialize : Text → BenchmarkError

-- The texts of `TuiError::Generic`.
pub data Message : Type 0 where
  literal : String → Message
  of_save : SaveError → Message
  of_export : BenchmarkError → Message
  history_not_saved : BenchmarkError → Message

-- The texts of `TuiError::DaemonResponse`.
pub data AnswerText : Type 0 where
  of_daemon : ResponseError → AnswerText
  no_visible_connections : AnswerText

pub data TuiError : Type 0 where
  daemon_client : DaemonClientError → TuiError
  unknown_backend : Text → TuiError
  stream_closed : TuiError
  daemon_response : AnswerText → TuiError
  executable_not_found daemon_start_failed : Text → TuiError
  config_import_failed : ImportError → TuiError
  generic : Message → TuiError
