-- ===== src/Tests/Editor.antt =====
-- Runs of the configuration editor and of the wg-quick reader.
use ferro_wg.Prelude.{
  String, [], ◌∷◌, ◌++◌, ◌≡◌, ◌↔◌, refl, arith, Text, none, some, ok, err, codes, length, text_beq,
  inr,
}
use ferro_wg.Text.Split.{lines, split, split_once}
use ferro_wg.Core.Config.{WgConfig, IsRanged, validate, validate_peers, validate_peer}
use ferro_wg.Core.Config.Valid.{IsValidConfig}
use ferro_wg.Core.Error.{wg_quick_parse, unknown_key}
use ferro_wg.Core.WgQuick.Parse.{
  invalid, load_from_str, parse_lines, take_line, line_kind, entry, parse_last, finish,
}
use ferro_wg.Core.WgQuick.Builder.{
  split_kv, parse_interface_kv, parse_peer_kv, interface_key, peer_key, set_interface, set_peer,
  int_at, build_interface, build_peers, build_peer,
}
use ferro_wg.Core.Key.{private_from_base64, public_from_base64, decode_key_bytes}
use ferro_wg.Text.Trim.{trim}
use ferro_wg.Text.Number.{parse_uint}
use ferro_wg.Core.WgQuick.Sound.{IsReport, load_from_str-IsValidConfig, load_from_str-IsReport}
use ferro_wg.Tui.Action.{KeyCode}
use ferro_wg.Tui.ConfigEdit.{
  interface, fwmark, mtu, parse_comma_list, apply_field, field_current_value,
}
use ferro_wg.Tui.ConfigEdit.Elsewhere.{field_current_value-apply_field}
use ferro_wg.Tui.ConfigEdit.Validate.{validate_allowed_ips, validate_field, validate_mtu}
use ferro_wg.Tui.ConfigEdit.AllowedIps.{IsAllowed, validate_allowed_ips_iff}
use ferro_wg.Tui.ConfigEdit.Ranges.{IsSound}
use ferro_wg.Tui.State.Types.{ConfigEditState}
use ferro_wg.Tui.State.Editing.{
  buffer_key, commit, settle, focused_field, field_at, write_field, section_fields,
}
use ferro_wg.Tui.State.Drafts.{buffer_key-IsSound}
use ferro_wg.Samples.{sample_ext, sample_config}

-- The key is 32 letters, which stand for themselves in `sample_ext`.
abbrev key_text : String → Text
key_text name = codes name ++ codes " = abcdefghijklmnopqrstuvwxyzabcdef\n"

abbrev sample_file : Text
sample_file =
    codes "# home\n[Interface]\n"
    ++ key_text "PrivateKey"
    ++ codes "MTU = 1420\n[Peer]\n"
    ++ key_text "PublicKey"
    ++ codes "AllowedIPs = 10.0.0.1/32, 10.0.0.2/32\n"

abbrev bad_file : Text
bad_file = codes "[Interface]\nColour = red\n"

bad_file-stops :
    load_from_str sample_ext bad_file
    ≡ err (invalid (wg_quick_parse 2 (unknown_key "Interface" (codes "Colour"))))
unfolding load_from_str parse_lines take_line line_kind split_kv split_once entry parse_interface_kv
    interface_key trim lines split text_beq
bad_file-stops = refl

load_from_str-IsReport_example :
    IsReport
      (length (lines bad_file))
      (invalid (wg_quick_parse 2 (unknown_key "Interface" (codes "Colour"))))
load_from_str-IsReport_example =
    load_from_str-IsReport sample_ext bad_file
      (invalid (wg_quick_parse 2 (unknown_key "Interface" (codes "Colour")))) bad_file-stops

abbrev letters : Text
letters = codes "abcdefghijklmnopqrstuvwxyzabcdef"

abbrev sample_loaded : WgConfig
sample_loaded = record {
  interface = record {
    private_key = record { bytes = letters };
    listen_port = 0;
    addresses = [];
    dns = [];
    dns_search = [];
    mtu = 1420;
    fwmark = 0;
    pre_up = [];
    post_up = [];
    pre_down = [];
    post_down = [];
  };
  peers =
      record {
        name = [];
        public_key = record { bytes = letters };
        preshared_key = none;
        endpoint = none;
        allowed_ips = codes "10.0.0.1/32" ∷ codes "10.0.0.2/32" ∷ [];
        persistent_keepalive = 0;
      }
      ∷ [];
}

sample_file-loads : load_from_str sample_ext sample_file ≡ ok sample_loaded
unfolding load_from_str parse_lines take_line line_kind split_kv split_once entry parse_last
    parse_interface_kv parse_peer_kv interface_key peer_key set_interface set_peer int_at trim lines
    split parse_uint private_from_base64 public_from_base64 decode_key_bytes finish build_interface
    build_peers build_peer validate validate_peers validate_peer text_beq
sample_file-loads = refl

load_from_str-IsValidConfig_example : IsValidConfig sample_loaded × IsRanged sample_loaded
load_from_str-IsValidConfig_example =
    load_from_str-IsValidConfig sample_ext sample_file sample_loaded sample_file-loads

abbrev two_ips : Text
two_ips = codes "10.0.0.1/32, 10.0.0.2/32"

validate_allowed_ips_iff_example :
    (validate_allowed_ips sample_ext two_ips (codes "10.0.0.2/32" ∷ []) ≡ ok tt)
    ↔ IsAllowed sample_ext (codes "10.0.0.2/32" ∷ []) (parse_comma_list two_ips)
validate_allowed_ips_iff_example =
    validate_allowed_ips_iff sample_ext two_ips (codes "10.0.0.2/32" ∷ [])

-- The MTU's field is open, with a new value typed in.
abbrev mtu_edit : ConfigEditState
mtu_edit = record {
  connection_name = codes "lab";
  draft = sample_config;
  focused_section = interface;
  focused_field_idx = 4;
  edit_buffer = some (codes "1280");
  field_error = none;
  new_peer_indices = [];
  session_error = none;
}

sample_config-IsSound : IsSound sample_config
sample_config-IsSound = record {
  ranged = record {
    listen_port = omega arith;
    mtu = omega arith;
    fwmark = omega arith;
    keepalive = (omega arith, (omega arith, tt));
  };
  mtu = inr (omega arith, omega arith);
}

mtu_edit-stores :
    (buffer_key sample_ext KeyCode.enter (some (codes "1280")) mtu_edit).0.draft.interface.mtu
    ≡ 1280
unfolding buffer_key commit settle focused_field field_at section_fields validate_field validate_mtu
    write_field apply_field parse_uint
mtu_edit-stores = refl

buffer_key-IsSound_example :
    IsSound (buffer_key sample_ext KeyCode.enter (some (codes "1280")) mtu_edit).0.draft
buffer_key-IsSound_example =
    buffer_key-IsSound sample_ext KeyCode.enter (some (codes "1280")) mtu_edit sample_config-IsSound

field_current_value-apply_field_example :
    field_current_value sample_ext mtu interface
      (apply_field sample_ext fwmark (codes "7") sample_config interface)
    ≡ field_current_value sample_ext mtu interface sample_config
field_current_value-apply_field_example =
    field_current_value-apply_field sample_ext fwmark mtu (codes "7") interface interface
      sample_config (λ e. cc e)
