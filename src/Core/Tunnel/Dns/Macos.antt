-- ===== src/Core/Tunnel/Dns/Macos.antt =====
-- ferro-wg-core/src/tunnel/dns.rs, `imp` on macOS: `networksetup` on the primary network service.
use ferro_wg.Prelude.{
  String, Bool, false, ◌&&◌, List, [], ◌∷◌, map, filter, filter_map, Text, Option, none, some,
  Result, ok, err, ok_or, codes, is_empty, not, ◌==◌, nat_eq, text_eq, if◌then◌else◌,
}
use ferro_wg.Prelude.Effect.{Eff, ◌>>=◌, ◌>>◌, pure, lift, with_err}
use ferro_wg.Text.Trim.{trim, to_ascii_lowercase, starts_with_char, trim_end_char}
use ferro_wg.Text.Split.{split_once, lines, is_prefix, split_once_text, strip_prefix}
use ferro_wg.External.{External, IpAddr}
use ferro_wg.Core.Error.{
  DnsError, DetectionReason, io, network_setup, network_setup_get, service_detection,
  default_route_failed, service_order_failed, no_default_interface, interface_not_listed,
}
use ferro_wg.Core.Os.{Os, Output}
use ferro_wg.Core.Tunnel.Dns.State.{OriginalDnsConfig, DnsState, on_macos}

abbrev pub networksetup_path : Text
networksetup_path = codes "/usr/sbin/networksetup"

abbrev pub route_path : Text
route_path = codes "/sbin/route"

-- `l.trim().strip_prefix("interface:").map(str::trim)`
unfoldable pub interface_of_line : Text → Option Text
interface_of_line l = elim (strip_prefix (codes "interface:") (trim l)) [
  | none ↦ none
  | some name ↦ some (trim name)
]

unfoldable pub default_interface : List Text → Option Text
default_interface [] = none
default_interface (l ∷ ls) =
    let rest = default_interface ls in
    elim (interface_of_line l) [ none ↦ rest | some iface ↦ some iface ]

-- "(1) Wi-Fi" names a service; any other line leaves the one before.
unfoldable pub service_of_line : Text → Option Text → Option Text
service_of_line line last =
    if starts_with_char b'(' line
    then elim (split_once b')' line) [ none ↦ last | some (_, rest) ↦ some (trim rest) ]
    else last

-- `s.split(part).nth(1)`: what stands between the first and the second occurrence.
unfoldable pub second_piece : Text → Text → Option Text
second_piece part s = elim (split_once_text part s) [
  | none ↦ none
  | some (_, after) ↦ elim (split_once_text part after) [
    | none ↦ some after
    | some (piece, _) ↦ some piece
  ]
]

-- The test for the device of "(Hardware Port: Wi-Fi, Device: en0)".
unfoldable pub is_device : Text → Text → Bool
is_device iface line = elim (second_piece (codes "Device:") line) [
  | none ↦ false
  | some dev ↦ trim (trim_end_char b')' (trim dev)) == iface
]

-- The loop over the lines: the service that stands last before the interface's device.
unfoldable pub find_service : Text → Option Text → List Text → Option Text
find_service iface last [] = none
find_service iface last (l ∷ ls) =
    let now = service_of_line (trim l) last in
    let rest = find_service iface now ls in if is_device iface (trim l) then now else rest

unfoldable pub show_detection : (Text → DetectionReason) → Output → Result Text DnsError
show_detection reason out =
    if out.success then ok out.stdout else err (service_detection (reason (trim out.stderr)))

-- `networksetup -listnetworkserviceorder` has no line for the interface, or none names a service.
unfoldable pub listed_service : Text → Text → Result Text DnsError
listed_service iface stdout =
    ok_or (find_service iface none (lines stdout)) (service_detection (interface_not_listed iface))

unfoldable pub parse_networksetup_dns : External → Text → List IpAddr
parse_networksetup_dns ext output = filter_map (λ l. ext.parse_ip (trim l)) (lines output)

unfoldable pub is_search_line : Text → Bool
is_search_line l =
    not (is_empty l)
    && not (is_prefix (codes "there aren't any search domains") (to_ascii_lowercase l))

unfoldable pub parse_networksetup_search : Text → List Text
parse_networksetup_search output = filter is_search_line (map trim (lines output))

-- The prior setting that `-getdnsservers` or `-getsearchdomains` prints.
unfoldable pub got_setting : {A : Type 0} → String → (Text → A) → Output → Result A DnsError
got_setting option parse out =
    if out.success then ok (parse out.stdout) else err (network_setup_get option (trim out.stderr))

unfoldable pub set_outcome : Output → Result (Unit {0}) DnsError
set_outcome out = if out.success then ok tt else err (network_setup out.stderr)

-- "empty" clears a setting.
unfoldable pub or_empty : List Text → List Text
or_empty [] = codes "empty" ∷ []
or_empty (x ∷ xs) = x ∷ xs

module _ (os : Os) where
  unfoldable pub networksetup : List Text → Eff os.World DnsError Output
  networksetup args = with_err io (os.run_command networksetup_path args)

  unfoldable pub detect_primary_service : Eff os.World DnsError Text
  detect_primary_service = do
    route_out ←
        with_err io (os.run_command route_path (codes "-n" ∷ codes "get" ∷ codes "default" ∷ []))
    route_stdout ← lift (show_detection default_route_failed route_out)
    iface ←
        lift
          (ok_or (default_interface (lines route_stdout)) (service_detection no_default_interface))
    ns_out ← networksetup (codes "-listnetworkserviceorder" ∷ [])
    ns_stdout ← lift (show_detection service_order_failed ns_out)
    lift (listed_service iface ns_stdout)

  -- Reads a setting, then writes it, and keeps what was read.
  unfoldable pub change_setting :
      {A : Type 0}
      → String
      → (Text → A)
      → Text
      → Text
      → Text
      → List Text
      → Eff os.World DnsError (Option A)
  change_setting option parse get set service values = do
    get_out ← networksetup (get ∷ service ∷ [])
    prior ← lift (got_setting option parse get_out)
    set_out ← networksetup (set ∷ service ∷ values)
    lift (set_outcome set_out)
    pure (some prior)

  unfoldable pub restore_setting :
      Text → Text → Option (List Text) → Eff os.World DnsError (Unit {0})
  restore_setting set service none = pure tt
  restore_setting set service (some values) = do
    out ← networksetup (set ∷ service ∷ or_empty values)
    lift (set_outcome out)

module _ (os : Os) (ext : External) where
  unfoldable pub apply : List IpAddr → List Text → Eff os.World DnsError DnsState
  apply servers domains = do
    service_name ← detect_primary_service os
    prior_dns ←
        if is_empty servers
        then pure none
        else change_setting os "-getdnsservers" (parse_networksetup_dns ext)
            (codes "-getdnsservers") (codes "-setdnsservers") service_name (map ext.show_ip servers)
    prior_search ←
        if is_empty domains
        then pure none
        else change_setting os "-getsearchdomains" parse_networksetup_search
            (codes "-getsearchdomains") (codes "-setsearchdomains") service_name domains
    pure (on_macos service_name (record { dns = prior_dns; search = prior_search }))

  unfoldable pub revert : Text → OriginalDnsConfig → Eff os.World DnsError (Unit {0})
  revert service_name original = do
    restore_setting os (codes "-setdnsservers") service_name
        (elim original.dns [ none ↦ none | some servers ↦ some (map ext.show_ip servers) ])
    restore_setting os (codes "-setsearchdomains") service_name original.search
