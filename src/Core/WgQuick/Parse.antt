-- ===== src/Core/WgQuick/Parse.antt =====
-- The loop of `load_from_str` in ferro-wg-core/src/config/wg_quick.rs: a fold over the lines.
use ferro_wg.Prelude.{
  ℕ, suc, ◌||◌, List, [], ◌∷◌, ◌++◌, Text, Result, ok, err, ◌>>=◌, ◌>>◌, map_err, is_empty, text_eq,
  codes, if◌then◌else◌,
}
use ferro_wg.External.{External}
use ferro_wg.Text.Trim.{trim, eq_ignore_ascii_case, starts_with_char}
use ferro_wg.Text.Split.{lines}
use ferro_wg.Core.Error.{ConfigError, wg_quick_parse, outside_section}
use ferro_wg.Core.Config.{WgConfig, validate}
use ferro_wg.Core.WgQuick.Builder.{
  InterfaceBuilder, PeerBuilder, default_interface, default_peer, build_interface, build_peers,
  split_kv, parse_interface_kv, parse_peer_kv,
}

pub data Section : Type 0 where
  no_section interface_section peer_section : Section

-- An error, or the place that the code marks as unreachable.
pub data Stop : Type 0 where
  invalid : ConfigError → Stop
  unreachable : Stop

-- The tests of the loop's body, in their order.
pub data LineKind : Type 0 where
  skipped interface_header peer_header key_value : LineKind

unfoldable pub line_kind : Text → LineKind
line_kind line =
    if is_empty line || starts_with_char b'#' line || starts_with_char b';' line
    then skipped
    else if eq_ignore_ascii_case line (codes "[interface]")
    then interface_header
    else if eq_ignore_ascii_case line (codes "[peer]")
    then peer_header
    else key_value

-- The variables of the loop.
pub record ParseState : Type 0 where
  pub section : Section
  pub iface : InterfaceBuilder
  pub peers : List PeerBuilder

abbrev pub initial : ParseState
initial = record { section = no_section; iface = default_interface; peers = [] }

unfoldable pub finish : ParseState → Result WgConfig ConfigError
finish s = do
  interface ← build_interface s.iface
  peers ← build_peers s.peers
  validate (record { interface = interface; peers = peers })
  ok (record { interface = interface; peers = peers })

module _ (ext : External) where
  -- `peers.last_mut()`
  unfoldable pub parse_last : List PeerBuilder → Text → Text → ℕ → Result (List PeerBuilder) Stop
  parse_last [] key v n = err unreachable
  parse_last (b ∷ []) key v n = do b' ← map_err invalid (parse_peer_kv ext b key v n); ok (b' ∷ [])
  parse_last (b ∷ c ∷ bs) key v n = do rest ← parse_last (c ∷ bs) key v n; ok (b ∷ rest)

  unfoldable pub entry : Section → Text → Text → ℕ → ParseState → Result ParseState Stop
  entry no_section key v n s = err (invalid (wg_quick_parse n outside_section))
  entry interface_section key v n s = do
    b ← map_err invalid (parse_interface_kv ext s.iface key v n)
    ok (record s { iface = b })
  entry peer_section key v n s = do bs ← parse_last s.peers key v n; ok (record s { peers = bs })

  -- One trimmed line.
  unfoldable pub take_line : LineKind → ℕ → Text → ParseState → Result ParseState Stop
  take_line skipped n line s = ok s
  take_line interface_header n line s = ok (record s { section = interface_section })
  take_line peer_header n line s =
      ok (record s { section = peer_section; peers = s.peers ++ default_peer ∷ [] })
  take_line key_value n line s = do
    kv ← map_err invalid (split_kv line n)
    entry s.section (kv.0) (kv.1) n s

  -- `n` is the number of the next line.
  unfoldable pub parse_lines : ℕ → List Text → ParseState → Result ParseState Stop
  parse_lines n [] s = ok s
  parse_lines n (l ∷ ls) s = do
    s' ← take_line (line_kind (trim l)) n (trim l) s
    parse_lines (suc n) ls s'

  unfoldable pub load_from_str : Text → Result WgConfig Stop
  load_from_str input = do s ← parse_lines 1 (lines input) initial; map_err invalid (finish s)
