-- ===== src/Tests/Packets.antt =====
-- The packet loop on a backend that copies, and the daemon's log buffer.
use ferro_wg.Prelude.{ℕ, min, ◌≤◌, List, [], ◌∷◌, ◌≡◌, none, ok, length, All, text_eq, arith, pos}
use ferro_wg.External.{v4}
use ferro_wg.Core.Stats.{default_stats}
use ferro_wg.Core.Os.{SocketAddr}
use ferro_wg.Core.Backend.{write_to_tun, write_to_network, done}
use ferro_wg.Core.Ipc.{LogEntry, LogLevel}
use ferro_wg.Core.Daemon.Buffer.{add_entries, new_buffer}
use ferro_wg.Core.Daemon.Recent.{last_of, add_entries_lem}
use ferro_wg.Core.Tunnel.PacketLoop.{
  WgBackend, Event, tun_received, udp_received, ticked, shutdown_signal, Loop, packet_loop,
}
use ferro_wg.Core.Tunnel.PacketRules.{
  expected_end, datagrams, tun_writes, StaysWith, WritesWithin, packet_loop_lem,
}

-- The state counts the calls.
abbrev copying : WgBackend
copying = record {
  State = ℕ;
  encapsulate =
      λ src dst n. record { action = write_to_network (length src); buffer = src; backend = n };
  decapsulate =
      λ addr src dst n. record { action = write_to_tun (length src); buffer = src; backend = n };
  initiate_handshake = λ dst force n. record {
    action = write_to_network (min 1 (length dst));
    buffer = dst;
    backend = n;
  };
  tick = λ dst n. record { action = done; buffer = dst; backend = n };
  stats = λ n. default_stats;
}

abbrev peer_addr : SocketAddr
peer_addr = record { ip = v4 1; port = 51820 }

abbrev traffic : List Event
traffic =
    tun_received (ok (1 ∷ 2 ∷ []))
    ∷ udp_received (ok (3 ∷ [], record { ip = v4 2; port = 9 }))
    ∷ ticked
    ∷ shutdown_signal
    ∷ []

abbrev fresh : Loop ℕ
fresh = record { backend = 0; tun_buf = 0 ∷ 0 ∷ []; wg_buf = 0 ∷ 0 ∷ [] }

-- It reports what it wrote, and nothing when the buffer is empty.
copying-WritesWithin : WritesWithin copying
copying-WritesWithin = record {
  encapsulate = λ src dst b. omega arith;
  decapsulate = λ addr src dst b. omega arith;
  initiate_handshake = λ dst force b. ground arith;
  tick = λ dst b. omega arith;
}

packet_loop_lem_example :
    ((packet_loop copying peer_addr traffic fresh).0 ≡ expected_end traffic)
    × All (StaysWith peer_addr) (packet_loop copying peer_addr traffic fresh).1
    × (tun_writes (packet_loop copying peer_addr traffic fresh).1 ≤ datagrams traffic)
packet_loop_lem_example = packet_loop_lem copying peer_addr copying-WritesWithin traffic fresh

abbrev entry_at : ℕ → LogEntry
entry_at n = record {
  timestamp_ms = pos 0;
  level = LogLevel.info;
  connection_name = none;
  message = n ∷ [];
}

abbrev three : List LogEntry
three = entry_at 1 ∷ entry_at 2 ∷ entry_at 3 ∷ []

add_entries_lem_example :
    (length (add_entries (λ n. n) three (new_buffer (λ n. n) 2)).entries ≤ 2)
    × ((add_entries (λ n. n) three (new_buffer (λ n. n) 2)).entries ≡ last_of 2 three)
add_entries_lem_example = add_entries_lem (λ n. n) 2 three (omega arith)
