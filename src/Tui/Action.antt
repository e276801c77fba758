-- ===== src/Tui/Action.antt =====
-- ferro-wg-tui-core/src/action.rs: every action that the state machine can be sent. A key event is
-- its key code, all that the code reads of it.
use ferro_wg.Prelude.{ℕ, Bool, List, Text}
use ferro_wg.Core.Ipc.{PeerStatus, BenchmarkProgress}
use ferro_wg.Core.Stats.{BenchmarkResult}
use ferro_wg.Tui.App.{Tab}
use ferro_wg.Tui.ConfigEdit.{ConfigSection}

-- crossterm's `KeyCode`; `other` stands for the codes that no handler names.
pub data KeyCode : Type 0 where
  char : ℕ → KeyCode
  backspace enter esc up down left right tab back_tab : KeyCode
  other : ℕ → KeyCode

pub data ConfirmAction : Type 0 where
  disconnect_all stop_daemon : ConfirmAction
  delete_peer : ℕ → ConfirmAction

pub data Action : Type 0 where
  quit next_tab prev_tab : Action
  select_tab : Tab → Action
  next_row prev_row enter_search exit_search clear_search : Action
  search_input : ℕ → Action
  search_backspace tick select_next_connection select_prev_connection : Action
  select_connection : ℕ → Action
  update_peers : List PeerStatus → Action
  connect_peer disconnect_peer cycle_peer_backend daemon_error daemon_ok : Text → Action
  daemon_connectivity_changed : Bool → Action
  connect_all disconnect_all start_daemon stop_daemon enter_import : Action
  import_key : KeyCode → Action
  submit_import exit_import start_benchmark : Action
  start_benchmark_for_backend : Text → Action
  benchmark_progress_update : BenchmarkProgress → Action
  benchmark_complete : BenchmarkResult → Action
  switch_benchmark_backend : Text → Action
  toggle_compare_view toggle_theme show_help hide_help : Action
  show_connection_filter hide_connection_filter : Action
  toggle_connection_visibility set_connection_filter_search : Text → Action
  enter_export : Action
  export_key : KeyCode → Action
  submit_export exit_export : Action
  request_confirm : Text → ConfirmAction → Action
  confirm_yes confirm_no : Action
  enter_config_edit : ConfigSection → ℕ → Action
  config_edit_key : KeyCode → Action
  config_focus_next config_focus_prev config_focus_interface : Action
  config_focus_peer : ℕ → Action
  add_config_peer : Action
  delete_config_peer : ℕ → Action
  preview_config config_diff_scroll_down config_diff_scroll_up : Action
  save_config : Bool → Action
  discard_config_edits : Action
