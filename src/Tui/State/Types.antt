-- ===== src/Tui/State/Types.antt =====
-- The data of ferro-wg-tui-core/src/state.rs, with `ConfigEditState` and `ConfigDiffPending` of
-- config_edit.rs. An `Instant` is its nanoseconds.
use ferro_wg.Prelude.{
  ℕ, ◌+◌, Bool, true, false, String, List, [], map, Text, Option, none, some, if◌then◌else◌, ltb,
  leb,
}
use ferro_wg.Core.Error.{BackendKind}
use ferro_wg.Core.Config.{WgConfig, AppConfig, LogDisplayConfig}
use ferro_wg.Core.Stats.{TunnelStats, from_secs, f32_gt}
use ferro_wg.Core.Ipc.{LogEntry, BenchmarkProgress}
use ferro_wg.Tui.App.{Tab, overview, InputMode, normal}
use ferro_wg.Tui.Theme.{ThemeKind, Theme, mocha, into_theme}
use ferro_wg.Tui.Benchmark.{BenchmarkResultMap, BenchmarkRun}
use ferro_wg.Tui.ConfigEdit.{ConfigSection}
use ferro_wg.Tui.ConfigEdit.Validate.{ConfigEditError}
use ferro_wg.Tui.ConfigEdit.Diff.{DiffLine}
use ferro_wg.Tui.Action.{ConfirmAction}

abbrev pub toast_duration : ℕ
toast_duration = from_secs 3

abbrev pub max_visible_toasts : ℕ
max_visible_toasts = 5

abbrev pub stale_handshake : ℕ
stale_handshake = from_secs 180

-- 0.1 as an `f32`
abbrev pub high_packet_loss : ℕ
high_packet_loss = 0x3dcccccd

-- What a handler reads of the clock: `Instant::now()`, and `SystemTime::now()` in milliseconds since
-- the epoch (0 before it, as `unwrap_or_default` makes it).
pub record Clock : Type 0 where
  pub now : ℕ
  pub unix_ms : ℕ

-- Where `dispatch` panics instead of returning.
pub data Panic : Type 0 where
  unwrap_on_none timestamp_overflow : Panic

pub data CompareView : Type 0 where
  live historical : CompareView

pub data ConnectionState : Type 0 where
  connected disconnected : ConnectionState

-- The two texts that `compute_health_warning` makes; the second shows the loss in percent.
pub data HealthWarning : Type 0 where
  stale : HealthWarning
  high_loss : ℕ → HealthWarning

unfoldable pub compute_health_warning : TunnelStats → Option HealthWarning
compute_health_warning stats =
    let lossy =
      if f32_gt stats.packet_loss high_packet_loss
      then some (high_loss stats.packet_loss)
      else none in
    elim stats.last_handshake [
      | none ↦ lossy
      | some age ↦ if ltb stale_handshake age then some stale else lossy
    ]

pub record ConnectionStatus : Type 0 where
  pub state : ConnectionState
  pub backend : BackendKind
  pub stats : TunnelStats
  pub endpoint : Option Text
  pub interface : Option Text
  pub health_warning : Option HealthWarning

pub record ConnectionView : Type 0 where
  pub name : Text
  pub config : WgConfig
  pub status : Option ConnectionStatus
  pub selected_peer_row : ℕ

pub record ConfirmPending : Type 0 where
  pub message : Text
  pub action : ConfirmAction

pub record Toast : Type 0 where
  pub message : Text
  pub is_error : Bool
  pub expires_at : ℕ

unfoldable pub success_toast : Clock → Text → Toast
success_toast clock message = record {
  message = message;
  is_error = false;
  expires_at = clock.now + toast_duration;
}

unfoldable pub error_toast : Clock → Text → Toast
error_toast clock message = record {
  message = message;
  is_error = true;
  expires_at = clock.now + toast_duration;
}

unfoldable pub is_expired : Clock → Toast → Bool
is_expired clock t = leb t.expires_at clock.now

pub record ConfigEditState : Type 0 where
  pub connection_name : Text
  pub draft : WgConfig
  pub focused_section : ConfigSection
  pub focused_field_idx : ℕ
  pub edit_buffer : Option Text
  pub field_error : Option ConfigEditError
  pub new_peer_indices : List ℕ
  pub session_error : Option String

pub record ConfigDiffPending : Type 0 where
  pub connection_name : Text
  pub draft : WgConfig
  pub diff_lines : List DiffLine
  pub scroll_offset : ℕ

-- `Arc<Mutex<VecDeque<LogEntry>>>`
pub record LogQueue : Type 0 where
  pub entries : List LogEntry
  pub capacity : ℕ
  pub poisoned : Bool

pub record AppState : Type 0 where
  pub running : Bool
  pub active_tab : Tab
  pub input_mode : InputMode
  pub search_query : Text
  pub connections : List ConnectionView
  pub visible_connections : List Text
  pub log_entries : LogQueue
  pub theme_kind : ThemeKind
  pub theme : Theme
  pub show_help : Bool
  pub show_connection_filter : Bool
  pub connection_filter_search : Text
  pub daemon_connected : Bool
  pub toasts : List Toast
  pub log_display : LogDisplayConfig
  pub pending_confirm : Option ConfirmPending
  pub benchmark_results : BenchmarkResultMap
  pub benchmark_history : List BenchmarkRun
  pub benchmark_running : Bool
  pub benchmark_progress_history : List BenchmarkProgress
  pub compare_view : CompareView
  pub config_edit : Option ConfigEditState
  pub config_diff_pending : Option ConfigDiffPending

unfoldable pub view_of : Text × WgConfig → ConnectionView
view_of e = record { name = e.0; config = e.1; status = none; selected_peer_row = 0 }

unfoldable pub views_of : AppConfig → List ConnectionView
unfolding view_of
views_of a = map view_of a.connections

abbrev pub names_of : List ConnectionView → List Text
names_of = map (λ c. c.name)

-- `AppState::new`
unfoldable pub new : AppConfig → AppState
unfolding views_of
new a = record {
  running = true;
  active_tab = overview;
  input_mode = normal;
  search_query = [];
  connections = views_of a;
  visible_connections = names_of (views_of a);
  log_entries = record { entries = []; capacity = 1000; poisoned = false };
  theme_kind = mocha;
  theme = into_theme mocha;
  show_help = false;
  show_connection_filter = false;
  connection_filter_search = [];
  daemon_connected = false;
  toasts = [];
  log_display = a.log_display;
  pending_confirm = none;
  benchmark_results = [];
  benchmark_history = [];
  benchmark_running = false;
  benchmark_progress_history = [];
  compare_view = live;
  config_edit = none;
  config_diff_pending = none;
}

unfoldable pub reload_from_config : AppConfig → AppState → AppState
unfolding views_of
reload_from_config a s = record s {
  connections = views_of a;
  log_display = a.log_display;
  visible_connections = names_of (views_of a);
}
