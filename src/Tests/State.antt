-- ===== src/Tests/State.antt =====
-- Runs of ferro-wg-tui-core/src/state.rs.
use ferro_wg.Prelude.{
  ◌++◌, min, ◌+◌, length, text_eq, pos, false, none, some, IsDistinct, nat_eq, Bool, true, List, [],
  ◌∷◌, map, ◌≡◌, refl, arith, ok, codes, get_elem?, contains, text_beq, All,
}
use ferro_wg.Core.Error.{BackendKind}
use ferro_wg.Core.Ipc.{PeerStatus}
use ferro_wg.Tui.Action.{Action, KeyCode, ConfirmAction}
use ferro_wg.Tui.ConfigEdit.{interface, peer}
use ferro_wg.Tui.State.Types.{
  Clock, AppState, new, names_of, views_of, ConfigEditState, ConnectionView,
}
use ferro_wg.Tui.State.Simple.{update_statuses}
use ferro_wg.Tui.State.Editing.{delete_peer}
use ferro_wg.Tui.State.Dispatch.{run}
use ferro_wg.Tui.State.Stored.{stored}
use ferro_wg.Tui.State.Bounds.{IsBounded}
use ferro_wg.Tui.State.Marks.{InSession}
use ferro_wg.Tui.State.Session.{before_removal, delete_peer_lem}
use ferro_wg.Tui.State.Returns.{IsKnown, IsSent, run-returns}
use ferro_wg.Tui.State.Reach.{run-new, new-IsKnown}
use ferro_wg.Tui.State.Details.{last_line, refreshed, update_statuses-map}
use ferro_wg.Core.Ipc.{LogEntry, LogLevel}
use ferro_wg.Tui.State.Queue.{append_log_lem}
use ferro_wg.Tui.State.Simple.{append_log}
use ferro_wg.Tui.EventLoop.{handle_action, handle_action-confirm_yes}
use ferro_wg.Samples.{sample_ext, sample_printer, sample_config, sample_app, sample_clock}

-- A session that adds a peer, leaves it, and deletes another.
abbrev session_steps : List (Clock × Action)
session_steps =
    map (λ a. (sample_clock, a))
      (Action.enter_config_edit interface 0
        ∷ Action.config_edit_key KeyCode.esc
        ∷ Action.add_config_peer
        ∷ Action.delete_config_peer 0
        ∷ Action.toggle_connection_visibility (codes "mia")
        ∷ Action.toggle_theme
        ∷ [])

abbrev sample_state : AppState
sample_state = new sample_app

session_steps-IsSent :
    All (λ step. IsSent (names_of sample_state.connections) step.0 step.1) session_steps
unfolding new views_of contains text_beq
session_steps-IsSent = (tt, (tt, (tt, (tt, (refl, (tt, tt))))))

run-returns_example :
    (s : AppState) × (run sample_ext sample_printer session_steps sample_state ≡ ok s) × IsKnown s
run-returns_example =
    run-returns sample_ext sample_printer session_steps sample_state session_steps-IsSent
      (new-IsKnown sample_app)

run-new_example :
    (s : AppState) × (run sample_ext sample_printer session_steps (new sample_app) ≡ ok s)
    × IsBounded s
    × InSession s.config_edit
    × IsKnown s
    × (stored s ≡ sample_app.connections)
run-new_example = run-new sample_ext sample_printer sample_app session_steps session_steps-IsSent

abbrev sample_edit : ConfigEditState
sample_edit = record {
  connection_name = codes "lab";
  draft = sample_config;
  focused_section = peer 1;
  focused_field_idx = 2;
  edit_buffer = none;
  field_error = none;
  new_peer_indices = 1 ∷ [];
  session_error = none;
}

delete_peer_lem_example :
    (get_elem? (delete_peer 0 sample_edit).draft.peers 0
      ≡ get_elem? sample_edit.draft.peers (before_removal 0 0))
    × (contains (delete_peer 0 sample_edit).new_peer_indices 0
        ≡ contains sample_edit.new_peer_indices (before_removal 0 0))
    × ((delete_peer 0 sample_edit).draft.interface ≡ sample_edit.draft.interface)
delete_peer_lem_example = delete_peer_lem 0 0 sample_edit (omega arith)

abbrev line_of : Bool → PeerStatus
line_of up = record {
  name = codes "mia";
  connected = up;
  backend = BackendKind.boringtun;
  stats = record {
    tx_bytes = 1;
    rx_bytes = 2;
    last_handshake = none;
    packet_loss = 0;
    session_index = none;
  };
  endpoint = none;
  interface = none;
}

abbrev two_lines : List PeerStatus
two_lines = line_of true ∷ line_of false ∷ []

abbrev sample_views : List ConnectionView
sample_views = sample_state.connections

sample_views-IsDistinct : IsDistinct (names_of sample_views)
unfolding new views_of contains text_beq
sample_views-IsDistinct = (refl, (refl, tt))

update_statuses-map_example :
    update_statuses two_lines sample_views
    ≡ map (λ c. refreshed (last_line c.name two_lines) c) sample_views
update_statuses-map_example = update_statuses-map two_lines sample_views sample_views-IsDistinct

abbrev sample_entry : LogEntry
sample_entry = record {
  timestamp_ms = pos 5;
  level = LogLevel.info;
  connection_name = none;
  message = codes "up";
}

-- The queue holds two entries and has no more room.
abbrev full_state : AppState
full_state = record sample_state {
  log_entries = record {
    entries = sample_entry ∷ sample_entry ∷ [];
    capacity = 2;
    poisoned = false;
  };
}

append_log_lem_example :
    (old : List LogEntry) × (old ++ (append_log sample_entry full_state).log_entries.entries
      ≡ full_state.log_entries.entries ++ sample_entry ∷ [])
    × (length (append_log sample_entry full_state).log_entries.entries
        ≡ min full_state.log_entries.capacity (length full_state.log_entries.entries + 1))
append_log_lem_example = append_log_lem sample_entry full_state refl (omega arith) (omega arith)

-- The dialog asks about the first of two peers.
abbrev asking_state : AppState
asking_state = record sample_state {
  pending_confirm =
      some (record { message = codes "Delete?"; action = ConfirmAction.delete_peer 0 });
  config_edit = some sample_edit;
}

handle_action-confirm_yes_example :
    (s : AppState) × (handle_action sample_ext sample_printer sample_clock sample_clock
        Action.confirm_yes asking_state
      ≡ ok s)
    × (s.config_edit ≡ some (delete_peer 0 (delete_peer 0 sample_edit)))
    × (length (delete_peer 0 (delete_peer 0 sample_edit)).draft.peers + 2
        ≡ length sample_edit.draft.peers)
handle_action-confirm_yes_example =
    handle_action-confirm_yes sample_ext sample_printer sample_clock sample_clock (codes "Delete?")
      0 sample_edit asking_state refl refl (omega arith)
