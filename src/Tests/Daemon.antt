-- ===== src/Tests/Daemon.antt =====
-- Runs of ferro-wg-core/src/daemon.rs and tunnel/, on a small system: its world is the files that
-- were written, every command but `resolvectl` succeeds, and handles are given numbers.
use ferro_wg.Prelude.{
  true, false, not, List, [], ◌∷◌, ◌≡◌, refl, Text, none, some, Result, ok, err, codes, ◌==◌,
  text_eq, lookup, map_insert, text_beq, lookup-insert, ==_refl, subst, ap, ◌∙◌, arith,
}
use ferro_wg.Core.Error.{neptun, tunnel_error, no_endpoint}
use ferro_wg.Core.Config.{PeerConfig, WgConfig, AppConfig, default_log_display}
use ferro_wg.Core.Stats.{default_stats}
use ferro_wg.Core.Os.{Os, SocketAddr, linux, FileLaws}
use ferro_wg.External.{v4}
use ferro_wg.Core.Tunnel.Manager.{is_active, first_peer}
use ferro_wg.Core.Tunnel.Updown.{Sys, on_world, set_connections, up}
use ferro_wg.Core.Tunnel.View.{backend_of}
use ferro_wg.Core.Tunnel.Dns.Linux.{
  resolvectl_path, resolv_conf_path, apply_resolv_conf, fall_back, is_regular, prepend_text,
  resolvectl_available, succeeded, write_resolv_conf,
}
use ferro_wg.Core.Config.{get}
use ferro_wg.Core.Tunnel.Target.{find_target}
use ferro_wg.Core.Tunnel.Opening.{open_tunnel, configure, spawn, dns_or_none, tunnel_config}
use ferro_wg.Core.Tunnel.Socket.{
  resolve_endpoint, first_address, create_tun, get_tun_name, create_backend, create_udp_socket,
}
use ferro_wg.Core.Tunnel.Route.{
  set_interface_addr, addr_outcome, strip_prefix_len, add_route, add_outcome,
}
use ferro_wg.Core.Tunnel.Dns.{apply_dns, apply_imp}
use ferro_wg.Core.Tunnel.Dns.Linux
use ferro_wg.Text.Split.{split}
use ferro_wg.Text.Number.{show_nat}
use ferro_wg.Samples.{sample_ext, sample_config, sample_peer, sample_interface}

abbrev files_read : Text → List (Text × Text) → Result Text Text
files_read path w = elim (lookup path w) [ none ↦ err (codes "no such file") | some text ↦ ok text ]

abbrev files_rename :
    Result Text Text → Text → List (Text × Text) → Result (Unit {0}) Text × List (Text × Text)
files_rename (err e) to w = (err e, w)
files_rename (ok text) to w = (ok tt, map_insert to text w)

abbrev sample_addr : SocketAddr
sample_addr = record { ip = v4 0x0a000001; port = 51820 }

abbrev pub sample_os : Os
sample_os = record {
  World = List (Text × Text);
  platform = linux;
  run_command = λ program args w.
      (ok (record { success = not (program == resolvectl_path); stdout = []; stderr = [] }), w);
  read_to_string = files_read;
  write_file = λ path text w. (ok tt, map_insert path text w);
  rename = λ from to w. files_rename (files_read from w) to w;
  is_symlink = λ path w. ok false;
  lookup_host = λ host w. (ok (sample_addr ∷ []), w);
  parse_socket_addr = λ text. ok sample_addr;
  create_as_async = λ w. (ok 5, w);
  tun_name = λ device w. ok (codes "tun0");
  bind_udp = λ addr w. (ok 6, w);
  has_feature = λ kind. true;
  new_backend = λ kind config w. (ok 7, w);
  spawn_loop = λ tun socket backend endpoint w. (8, w);
  send_shutdown = λ loop w. w;
  borrow_stats = λ loop w. default_stats;
}

read_inserted :
    (path text : Text) (w : List (Text × Text)) → files_read path (map_insert path text w) ≡ ok text
read_inserted path text w = ground (arith, lookup-insert path path text w, ==_refl path)

read_moved :
    (from to text : Text) (w next : List (Text × Text)) (r : Result Text Text)
    → files_rename r to w ≡ (ok tt, next)
    → r ≡ ok text
    → files_read to next ≡ ok text
read_moved from to text w next (err e) moved held = ground (arith, held)
read_moved from to text w next (ok other) moved held =
    subst (λ v. files_read to v ≡ ok text) (ap (λ r. r.1) moved) (read_inserted to other w ∙ held)

pub sample_laws : FileLaws sample_os
sample_laws = record {
  read_written = λ path text w next e.
      subst (λ v. files_read path v ≡ ok text) (ap (λ r. r.1) e) (read_inserted path text w);
  read_renamed = λ from to text w next e h. read_moved from to text w next (files_read from w) e h;
}

abbrev remote_peer : PeerConfig
remote_peer = record (sample_peer "hub" "10.0.0.1/32") {
  endpoint = some (codes "vpn.example:51820");
}

abbrev remote_config : WgConfig
remote_config = record {
  interface = record sample_interface { dns = v4 0x01010101 ∷ [] };
  peers = remote_peer ∷ [];
}

-- One connection that can come up, and one without an endpoint.
abbrev pub remote_app : AppConfig
remote_app = record {
  connections = (codes "lab", remote_config) ∷ (codes "old", sample_config) ∷ [];
  log_display = default_log_display;
}

abbrev pub first_files : List (Text × Text)
first_files = (resolv_conf_path, codes "nameserver 9.9.9.9\n") ∷ []

abbrev pub idle : Sys sample_os
idle = record { manager = record { config = remote_app; connections = [] }; world = first_files }

abbrev pub lab_up : Sys sample_os
lab_up = (up sample_os sample_ext (codes "lab") neptun idle).1

-- The connection comes up on the backend, with its lines in front of /etc/resolv.conf.
up_lab :
    ((up sample_os sample_ext (codes "lab") neptun idle).0 ≡ ok tt)
    × (backend_of (codes "lab") lab_up.manager ≡ some neptun)
    × (files_read resolv_conf_path lab_up.world
        ≡ ok (codes "nameserver 10.0.0.1\nnameserver 9.9.9.9\n"))
unfolding up find_target is_active lookup get text_beq first_peer on_world open_tunnel
    resolve_endpoint first_address create_tun get_tun_name configure set_interface_addr addr_outcome
    strip_prefix_len split add_route add_outcome Linux.apply apply_resolv_conf fall_back is_regular
    prepend_text resolvectl_available succeeded write_resolv_conf apply_dns apply_imp dns_or_none
    spawn tunnel_config create_backend create_udp_socket set_connections map_insert show_nat
    backend_of
up_lab = (refl, refl, refl)

-- Without an endpoint it stays down.
up_old :
    (up sample_os sample_ext (codes "old") neptun idle).0
    ≡ err (tunnel_error (no_endpoint (codes "old")))
unfolding up find_target is_active lookup get text_beq first_peer
up_old = refl
