-- ===== src/Tests/Serving.antt =====
-- The theorems on the daemon and its tunnels, applied at the runs of Tests/Daemon.antt.
use ferro_wg.Prelude.{
  List, [], ◌∷◌, ◌++◌, map, ◌≡◌, ◌↔◌, refl, Text, some, Result, ok, err, codes, ◌==◌, All, text_eq,
  if◌then◌else◌, lookup, length, sym, subst, true, text_beq, map_insert,
}
use ferro_wg.Prelude.Effect.{Ends}
use ferro_wg.Core.Error.{neptun, boringtun}
use ferro_wg.Core.Config.{AppConfig, connection_names}
use ferro_wg.Core.Ipc.{DaemonCommand, up, status, shutdown, decode_message}
use ferro_wg.Text.Trim.{trim}
use ferro_wg.External.{v4}
use ferro_wg.Text.Split.{join}
use ferro_wg.Core.Tunnel.Updown
use ferro_wg.Core.Tunnel.Updown.{has_dns, revert_dns}
use ferro_wg.Core.Tunnel.Status
use ferro_wg.Core.Tunnel.Coming.{IsUp, up-Ends}
use ferro_wg.Core.Tunnel.Going.{down_all_lem}
use ferro_wg.Core.Tunnel.Everything.{Grown, Runs, up_all_lem}
use ferro_wg.Core.Tunnel.Listing.{Tells, status_lem}
use ferro_wg.Core.Tunnel.Restores.{Holds, resolv_conf_restored}
use ferro_wg.Core.Tunnel.Dns.{remove_dns}
use ferro_wg.Core.Tunnel.Dns.State.{resolv_conf}
use ferro_wg.Core.Tunnel.Dns.Linux.{apply_resolv_conf, prepend_text, write_resolv_conf, is_regular}
use ferro_wg.Core.Daemon.Command.{handle_command}
use ferro_wg.Core.Daemon.Serve.{Served, Request, closed, line, shut_down, serve}
use ferro_wg.Core.Daemon.Refines.{Allows, handle_command_refines}
use ferro_wg.Core.Daemon.Stops.{
  IsOver, asks_shutdown, any_shutdown, serve_stops_iff, serve_leaves_none,
}
use ferro_wg.Core.Daemon.Answers.{answers_due, serve_answers}
use ferro_wg.Samples.{sample_ext}
use ferro_wg.Tests.Daemon.{sample_os, sample_laws, idle, lab_up, first_files}

abbrev lab : Text
lab = codes "lab"

handle_command_refines_example :
    Allows
      (up (some lab) neptun)
      (handle_command sample_os sample_ext (up (some lab) neptun) idle).0
      idle.manager
      (handle_command sample_os sample_ext (up (some lab) neptun) idle).1.manager
handle_command_refines_example =
    handle_command_refines sample_os sample_ext (up (some lab) neptun) idle

up-Ends_example :
    Ends
      (λ _ t. IsUp sample_os sample_ext lab neptun idle t)
      (λ _ t. t.manager ≡ idle.manager)
      (Updown.up sample_os sample_ext lab neptun idle)
up-Ends_example = up-Ends sample_os sample_ext lab neptun idle

down_all_lem_example :
    ((Updown.down_all sample_os sample_ext lab_up).0 ≡ ok tt)
    × ((Updown.down_all sample_os sample_ext lab_up).1.manager.connections ≡ [])
down_all_lem_example = down_all_lem sample_os sample_ext lab_up

up_all_lem_example :
    Ends
      (λ _ t.
        Grown boringtun idle.manager t.manager
        × All (λ name. Runs name t.manager) (connection_names idle.manager.config))
      (λ _ t. Grown boringtun idle.manager t.manager)
      (Updown.up_all sample_os sample_ext boringtun idle)
up_all_lem_example = up_all_lem sample_os sample_ext boringtun idle

status_lem_example :
    (map (λ p. p.name) (Status.status sample_os lab_up) ≡ connection_names lab_up.manager.config)
    × All (Tells lab_up.manager) (Status.status sample_os lab_up)
status_lem_example = status_lem sample_os lab_up

-- The lines of one connection go in front of the file, and out again.
abbrev old_text : Text
old_text = codes "nameserver 9.9.9.9\n"

abbrev with_lab : sample_os.World
with_lab = (apply_resolv_conf sample_os sample_ext (v4 1 ∷ []) (lab ∷ []) first_files).1

abbrev without_lab : sample_os.World
without_lab = (remove_dns sample_os sample_ext (resolv_conf old_text) with_lab).1

lab_applied :
    apply_resolv_conf sample_os sample_ext (v4 1 ∷ []) (lab ∷ []) first_files
    ≡ (ok old_text, with_lab)
unfolding apply_resolv_conf prepend_text write_resolv_conf is_regular lookup map_insert text_beq
    join
lab_applied = refl

lab_reverted :
    remove_dns sample_os sample_ext (resolv_conf old_text) with_lab ≡ (ok tt, without_lab)
unfolding remove_dns write_resolv_conf is_regular lookup map_insert text_beq apply_resolv_conf
lab_reverted = refl

resolv_conf_restored_example :
    Holds sample_os sample_laws old_text first_files
    × Holds sample_os sample_laws
        (prepend_text sample_ext (v4 1 ∷ []) (lab ∷ []) ++ old_text)
        with_lab
    × Holds sample_os sample_laws old_text without_lab
resolv_conf_restored_example =
    resolv_conf_restored sample_os sample_laws sample_ext (v4 1 ∷ []) (lab ∷ []) first_files
      with_lab with_lab without_lab old_text lab_applied lab_reverted

-- What the daemon understands here.
abbrev read_json : Text → Result DaemonCommand Text
read_json text =
    if text == codes "status"
    then ok status
    else if text == codes "stop"
    then ok shutdown
    else err (codes "expected value")

abbrev no_toml : Text → Result AppConfig Text
no_toml text = err (codes "no file")

abbrev talk : List (Result Request Text)
talk =
    ok (line (codes "status\n"))
    ∷ ok closed
    ∷ ok (line (codes "stap\n"))
    ∷ ok (line (codes "stop\n"))
    ∷ []

serve_stops_iff_example :
    ((serve sample_os sample_ext no_toml (codes "/etc/ferro.toml") read_json talk lab_up).ending
      ≡ shut_down)
    ↔ (any_shutdown read_json talk ≡ true)
serve_stops_iff_example =
    serve_stops_iff sample_os sample_ext no_toml (codes "/etc/ferro.toml") read_json talk lab_up

-- A client asks for a shutdown, whatever the system does.
talk_ends :
    IsOver
      (serve sample_os sample_ext no_toml (codes "/etc/ferro.toml") read_json talk lab_up).ending
unfolding any_shutdown asks_shutdown decode_message trim text_beq
talk_ends = subst IsOver (sym (serve_stops_iff_example.1 refl)) tt

abbrev talked : Served sample_os
talked = serve sample_os sample_ext no_toml (codes "/etc/ferro.toml") read_json talk lab_up

serve_leaves_none_example : talked.sys.manager.connections ≡ []
serve_leaves_none_example =
    serve_leaves_none sample_os sample_ext no_toml (codes "/etc/ferro.toml") read_json talk lab_up
      talk_ends

serve_answers_example :
    length (serve sample_os sample_ext no_toml [] read_json talk lab_up).sent
    ≡ answers_due read_json talk
serve_answers_example = serve_answers sample_os sample_ext no_toml [] read_json talk lab_up
