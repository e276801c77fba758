-- ===== src/Tests/Keys.antt =====
-- Keys of ferro-wg-tui/src/lib.rs and the log view of ferro-wg-tui-components/src/logs.rs.
use ferro_wg.Prelude.{List, pos, ◌≡◌, ◌≢◌, refl, ok, some, false, codes, nat_eq, [], ◌∷◌, none}
use ferro_wg.Tui.Action.{Action, KeyCode}
use ferro_wg.Core.Ipc.{LogEntry, LogLevel}
use ferro_wg.Tui.App.{config, edit_field}
use ferro_wg.Tui.State.Types.{AppState, new}
use ferro_wg.Tui.State.Reach.{new-IsKnown}
use ferro_wg.Tui.State.Returns.{IsKnown}
use ferro_wg.Tui.Keys.Commands.{Spawned}
use ferro_wg.Tui.Keys.Event.{KeyEvent, handle_global_key}
use ferro_wg.Tui.Keys.LogsView.{new_logs_view, logs_key, scroll_up}
use ferro_wg.Tui.Keys.Scroll.{IsInside, new_logs_view-IsInside, logs_key-IsInside}
use ferro_wg.Tui.Keys.Resolve.{
  ComponentBundle, new_bundle, is_set, is_prompt, or_else, or_tab, resolve_key, handle_key_event,
}
use ferro_wg.Tui.Keys.NoPanic.{handle_key_event-returns, resolve_key-config_edit_key}
use ferro_wg.Samples.{sample_ext, sample_printer, sample_app, sample_clock}

abbrev key_of : KeyCode → KeyEvent
key_of code = record { code = code; control = false }

-- A field of the configuration is open.
abbrev editing : AppState
editing = record (new sample_app) { active_tab = config; input_mode = edit_field }

editing-IsKnown : IsKnown editing
editing-IsKnown = new-IsKnown sample_app

-- The editor's key for leaving a field quits.
esc_quits :
    resolve_key sample_ext (key_of KeyCode.esc) editing new_bundle
    ≡ ok (some Action.quit, new_bundle)
unfolding resolve_key new is_set is_prompt or_tab or_else handle_global_key
esc_quits = refl

handle_key_event-returns_example :
    (s : AppState) × (b : ComponentBundle) × (tasks : List Spawned) × (handle_key_event sample_ext
        sample_printer sample_clock sample_clock
        (key_of (KeyCode.char b'x'))
        (editing, new_bundle)
      ≡ ok ((s, b), tasks))
    × IsKnown s
handle_key_event-returns_example =
    handle_key_event-returns sample_ext sample_printer sample_clock sample_clock
      (key_of (KeyCode.char b'x')) editing new_bundle editing-IsKnown

resolve_key-config_edit_key_example :
    resolve_key sample_ext (key_of KeyCode.backspace) editing new_bundle
    ≢ ok (some (Action.config_edit_key KeyCode.backspace), new_bundle)
resolve_key-config_edit_key_example =
    resolve_key-config_edit_key sample_ext (key_of KeyCode.backspace) editing new_bundle new_bundle
      KeyCode.backspace editing-IsKnown

abbrev line : LogEntry
line = record {
  timestamp_ms = pos 5;
  level = LogLevel.info;
  connection_name = none;
  message = codes "up";
}

-- Two lines in the queue.
abbrev filled : AppState
filled = record (new sample_app) {
  log_entries = record { entries = line ∷ line ∷ []; capacity = 1000; poisoned = false };
}

-- The fresh view follows the end; a key that scrolls up leaves it there.
fresh_scroll_up : logs_key KeyCode.up filled new_logs_view ≡ new_logs_view
unfolding new_logs_view logs_key scroll_up
fresh_scroll_up = refl

logs_key-IsInside_example : IsInside filled (logs_key KeyCode.down filled new_logs_view)
logs_key-IsInside_example =
    logs_key-IsInside filled KeyCode.down new_logs_view (new_logs_view-IsInside filled)
