-- ===== src/Tui/State/Config.antt =====
-- `handle_config_actions` of ferro-wg-tui-core/src/state.rs: the editing session on the draft of a
-- connection's configuration.
use ferro_wg.Prelude.{
  ℕ, ◌+◌, ◌-◌, ◌^◌, min, false, not, List, [], String, Text, Option, none, some, Result, ok, err,
  is_empty, find?, ◌==◌, nat_eq, text_eq, if◌then◌else◌,
}
use ferro_wg.External.{External}
use ferro_wg.Text.Order.{min_text?}
use ferro_wg.Core.Config.{WgConfig}
use ferro_wg.Core.Toml.{Printer, save_to_string}
use ferro_wg.Tui.App.{normal, edit_field}
use ferro_wg.Tui.ConfigEdit.{
  ConfigSection, interface, peer, fields_for_section, field_current_value,
}
use ferro_wg.Tui.ConfigEdit.Diff.{config_diff}
use ferro_wg.Tui.Action.{Action, KeyCode}
use ferro_wg.Tui.State.Types.{
  Panic, unwrap_on_none, AppState, ConnectionView, ConfigEditState, ConfigDiffPending,
}
use ferro_wg.Tui.State.Editing.{
  add_peer, delete_peer, edit_key, field_at, focus_next, focus_on, focus_prev,
}

-- Most arms below read `if let Some(edit) = self.config_edit.as_mut()`.
unfoldable pub edited :
    (ConfigEditState → ConfigEditState) → Option ConfigEditState → AppState → AppState
edited f none s = s
edited f (some edit) s = record s { config_edit = some (f edit) }

abbrev pub on_edit : (ConfigEditState → ConfigEditState) → AppState → AppState
on_edit f s = edited f s.config_edit s

abbrev missing_keys : String
missing_keys = "All new peers must have a public key before saving"

abbrev usize_max : ℕ
usize_max = 2 ^ 64 - 1

module _ (ext : External) where
  unfoldable pub keyed : KeyCode → Option ConfigEditState → AppState → AppState
  keyed key none s = s
  keyed key (some edit) s = record s {
    config_edit = some (edit_key ext key edit).0;
    input_mode = if (edit_key ext key edit).1 then normal else s.input_mode;
  }

  abbrev pub config_edit_key : KeyCode → AppState → AppState
  config_edit_key key s = keyed key s.config_edit s

  -- The session starts over from the stored configuration.
  unfoldable pub start_edit : ConfigSection → ℕ → ConnectionView → AppState → AppState
  unfolding field_at
  start_edit section field_idx conn s = record s {
    config_edit = some (record {
      connection_name = conn.name;
      draft = conn.config;
      focused_section = section;
      focused_field_idx = field_idx;
      edit_buffer = some (
          field_current_value ext (field_at (fields_for_section section false) field_idx) section
            conn.config);
      field_error = none;
      new_peer_indices = [];
      session_error = none;
    });
    input_mode = edit_field;
  }

  unfoldable pub enter_found :
      ConfigSection → ℕ → Option ConnectionView → AppState → Result AppState Panic
  enter_found section field_idx none s = err unwrap_on_none
  enter_found section field_idx (some conn) s = ok (start_edit section field_idx conn s)

  unfoldable pub enter_named : ConfigSection → ℕ → Option Text → AppState → Result AppState Panic
  enter_named section field_idx none s = ok s
  enter_named section field_idx (some name) s =
      enter_found section field_idx (find? (λ c. c.name == name) s.connections) s

  -- The connection of the smallest visible name; a visible name with no connection is a panic.
  unfoldable pub enter_config_edit : ConfigSection → ℕ → AppState → Result AppState Panic
  enter_config_edit section field_idx s =
      enter_named section field_idx (min_text? s.visible_connections) s

module _ (printer : Printer WgConfig) where
  -- `.and_then(|c| save_to_string(..).ok()).unwrap_or_default()`
  unfoldable pub toml_or_empty : WgConfig → Text
  toml_or_empty c = elim (save_to_string printer c) [ ok t ↦ t | err e ↦ [] ]

  unfoldable pub original_toml : Text → List ConnectionView → Text
  unfolding toml_or_empty
  original_toml name conns = elim (find? (λ c. c.name == name) conns) [
    | none ↦ []
    | some c ↦ toml_or_empty c.config
  ]

  unfoldable pub pending_diff : ConfigEditState → List ConnectionView → ConfigDiffPending
  unfolding original_toml
  pending_diff edit conns = record {
    connection_name = edit.connection_name;
    draft = edit.draft;
    diff_lines = config_diff (original_toml edit.connection_name conns) (toml_or_empty edit.draft);
    scroll_offset = 0;
  }

  -- Blocked while a new peer has no key, or the field in focus has an error.
  unfoldable pub preview_edit : ConfigEditState → AppState → AppState
  unfolding pending_diff
  preview_edit edit s =
      if not (is_empty edit.new_peer_indices)
      then record s { config_edit = some (record edit { session_error = some missing_keys }) }
      else elim edit.field_error [
        | none ↦ record s { config_diff_pending = some (pending_diff edit s.connections) }
        | some e ↦ s
      ]

  unfoldable pub preview : Option ConfigEditState → AppState → AppState
  preview none s = s
  preview (some edit) s = preview_edit edit s

  abbrev pub preview_config : AppState → AppState
  preview_config s = preview s.config_edit s

unfoldable pub scroll : (ℕ → ℕ) → AppState → AppState
scroll f s = elim s.config_diff_pending [
  | none ↦ s
  | some p ↦ record s {
    config_diff_pending = some (record p { scroll_offset = f p.scroll_offset });
  }
]

-- The new peer's first field is opened at once.
unfoldable pub added : Option ConfigEditState → AppState → AppState
added none s = s
added (some edit) s = record s { config_edit = some (add_peer edit); input_mode = edit_field }

abbrev pub add_config_peer : AppState → AppState
add_config_peer s = added s.config_edit s

module _ (ext : External) (printer : Printer WgConfig) where
  unfoldable pub handle_config_actions : Action → AppState → Result AppState Panic
  unfolding scroll
  handle_config_actions (Action.enter_config_edit section i) s = enter_config_edit ext section i s
  handle_config_actions (Action.config_edit_key key) s = ok (config_edit_key ext key s)
  handle_config_actions Action.config_focus_next s = ok (on_edit focus_next s)
  handle_config_actions Action.config_focus_prev s = ok (on_edit focus_prev s)
  handle_config_actions Action.config_focus_interface s = ok (on_edit (focus_on interface) s)
  handle_config_actions (Action.config_focus_peer i) s = ok (on_edit (focus_on (peer i)) s)
  handle_config_actions Action.add_config_peer s = ok (add_config_peer s)
  handle_config_actions (Action.delete_config_peer i) s = ok (on_edit (delete_peer i) s)
  handle_config_actions Action.preview_config s = ok (preview_config printer s)
  handle_config_actions Action.config_diff_scroll_down s =
      ok (scroll (λ n. min (n + 1) usize_max) s)
  handle_config_actions Action.config_diff_scroll_up s = ok (scroll (λ n. n - 1) s)
  handle_config_actions (Action.save_config reconnect) s =
      ok (record s { config_edit = none; config_diff_pending = none })
  handle_config_actions Action.discard_config_edits s =
      ok (record s { config_edit = none; config_diff_pending = none; input_mode = normal })
  handle_config_actions _ s = ok s
