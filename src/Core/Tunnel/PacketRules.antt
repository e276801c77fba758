-- ===== src/Core/Tunnel/PacketRules.antt =====
-- What `packet_loop` of ferro-wg-core/src/tunnel/mod.rs may do, when its backend keeps to the buffers.
use ferro_wg.Prelude.{
  ℕ, suc, ◌+◌, ◌≤◌, Bool, true, List, [], ◌∷◌, ◌++◌, ◌≡◌, refl, ok, err, All, All-append, Option,
  some, arith, length, take,
}
use ferro_wg.Core.Os.{SocketAddr}
use ferro_wg.Core.Backend.{PacketAction, write_to_tun, write_to_network}
use ferro_wg.Core.Tunnel.PacketLoop.{
  Bytes, Acted, WgBackend, Event, tun_received, udp_received, ticked, shutdown_signal, Effect,
  send_to, write_tun, broadcast, Loop, LoopEnd, going, told, Turned, next, sliced, unless_panic,
  network_only, incoming_effects, handle_outgoing, handle_incoming, after_wg, turn, read_packet,
  read_into, go_on, turns, packet_loop,
}

-- How the loop stands after the events, when nothing panics.
unfoldable pub expected_end : List Event → LoopEnd
expected_end [] = going
expected_end (shutdown_signal ∷ es) = told
expected_end (_ ∷ es) = expected_end es

-- How much of the buffer an action means.
abbrev pub reported : PacketAction → ℕ
reported (write_to_tun len) = len
reported (write_to_network len) = len
reported _ = 0

abbrev pub Fits : {B : Type 0} → Acted B → Type 0
Fits a = reported a.action ≤ length a.buffer

-- A backend that never reports more than the buffer it wrote to.
pub record WritesWithin (wg : WgBackend) : Type 0 where
  pub encapsulate : (src dst : Bytes) (b : wg.State) → Fits (wg.encapsulate src dst b)
  pub decapsulate :
      (addr : Option SocketAddr) (src dst : Bytes) (b : wg.State)
      → Fits (wg.decapsulate addr src dst b)
  pub initiate_handshake :
      (dst : Bytes) (force : Bool) (b : wg.State) → Fits (wg.initiate_handshake dst force b)
  pub tick : (dst : Bytes) (b : wg.State) → Fits (wg.tick dst b)

-- A datagram that comes in allows one packet for the device.
unfoldable pub allowance : Event → ℕ
allowance (udp_received (ok _)) = 1
allowance _ = 0

-- The datagrams that come in before the loop is told to stop.
unfoldable pub datagrams : List Event → ℕ
datagrams [] = 0
datagrams (shutdown_signal ∷ es) = 0
datagrams (e ∷ es) = allowance e + datagrams es

unfoldable pub tun_writes : List Effect → ℕ
tun_writes [] = 0
tun_writes (write_tun _ ∷ es) = suc (tun_writes es)
tun_writes (_ ∷ es) = tun_writes es

-- A datagram goes to the endpoint.
abbrev pub StaysWith : SocketAddr → Effect → Type 0
StaysWith endpoint (send_to addr _) = addr ≡ endpoint
StaysWith endpoint _ = Unit

tun_writes-append : (a b : List Effect) → tun_writes (a ++ b) ≡ tun_writes a + tun_writes b
unfolding tun_writes
tun_writes-append [] b = omega arith
tun_writes-append (write_tun x ∷ a) b = omega (arith, tun_writes-append a b)
tun_writes-append (send_to x y ∷ a) b = tun_writes-append a b
tun_writes-append (broadcast x ∷ a) b = tun_writes-append a b

module _ (wg : WgBackend) (endpoint : SocketAddr) where
  -- What a turn may do: datagrams to the endpoint, and packets for the device up to a number.
  abbrev pub Keeps : ℕ → List Effect → Type 0
  Keeps n out = All (StaysWith endpoint) out × (tun_writes out ≤ n)

  Keeps-append : (m n : ℕ) (a b : List Effect) → Keeps m a → Keeps n b → Keeps (m + n) (a ++ b)
  Keeps-append m n a b h g =
      (All-append (StaysWith endpoint) a b h.0 g.0, omega (arith, h.1, g.1, tun_writes-append a b))

  -- What an action leads to when it fits: effects, and no panic.
  IsAllowed : ℕ → Option (List Effect) → Type 0
  IsAllowed n r = (out : List Effect) × (r ≡ some out) × Keeps n out

  sliced-IsAllowed :
      (effect : Bytes → Effect) (n len : ℕ) (buffer : Bytes)
      → len ≤ length buffer
      → Keeps n (effect (take len buffer) ∷ [])
      → IsAllowed n (sliced effect len buffer)
  unfolding sliced IsAllowed
  sliced-IsAllowed effect n len buffer h k = (effect (take len buffer) ∷ [], ground (arith, h), k)

  network_only-IsAllowed :
      (action : PacketAction) (buffer : Bytes)
      → reported action ≤ length buffer
      → IsAllowed 0 (network_only wg endpoint action buffer)
  unfolding network_only tun_writes IsAllowed
  network_only-IsAllowed (write_to_network len) buffer h =
      sliced-IsAllowed (send_to endpoint) 0 len buffer h ((refl, tt), omega arith)
  network_only-IsAllowed _ buffer h = ([], refl, (tt, omega arith))

  incoming_effects-IsAllowed :
      (action : PacketAction) (buffer : Bytes)
      → reported action ≤ length buffer
      → IsAllowed 1 (incoming_effects wg endpoint action buffer)
  unfolding incoming_effects tun_writes IsAllowed
  incoming_effects-IsAllowed (write_to_tun len) buffer h =
      sliced-IsAllowed write_tun 1 len buffer h ((tt, tt), omega arith)
  incoming_effects-IsAllowed (write_to_network len) buffer h =
      sliced-IsAllowed (send_to endpoint) 1 len buffer h ((refl, tt), omega arith)
  incoming_effects-IsAllowed _ buffer h = ([], refl, (tt, omega arith))

  -- A turn that the loop goes on after.
  GoesOn : ℕ → Turned wg.State → Type 0
  GoesOn n t = (out : List Effect) × (l : Loop wg.State) × (t ≡ next out l) × Keeps n out

  unless_panic-GoesOn :
      (n : ℕ) (r : Option (List Effect)) (last : List Effect) (l : Loop wg.State)
      → IsAllowed n r
      → Keeps 0 last
      → GoesOn (n + 0) (unless_panic r (λ out. next (out ++ last) l))
  unfolding unless_panic IsAllowed GoesOn
  unless_panic-GoesOn n r last l (out, e, k) h =
      (out ++ last, l, rw e refl, Keeps-append n 0 out last k h)

  sends-GoesOn :
      (n : ℕ) (r : Option (List Effect)) (l : Loop wg.State)
      → IsAllowed n r
      → GoesOn n (unless_panic r (λ out. next out l))
  unfolding unless_panic IsAllowed GoesOn
  sends-GoesOn n r l (out, e, k) = (out, l, rw e refl, k)

  -- What holds of the loop.
  IsFine : LoopEnd → ℕ → LoopEnd × List Effect → Type 0
  IsFine how n r = (r.0 ≡ how) × Keeps n r.1

  go_on-IsFine :
      (how : LoopEnd) (m n : ℕ) (t : Turned wg.State) (rest : Loop wg.State → LoopEnd × List Effect)
      → GoesOn m t
      → ((l : Loop wg.State) → IsFine how n (rest l))
      → IsFine how (m + n) (go_on wg endpoint t rest)
  unfolding GoesOn IsFine go_on
  go_on-IsFine how m n t rest (out, l, e, k) h =
      rw e ((h l).0, Keeps-append m n out (rest l).1 k (h l).1)

  module _ (within : WritesWithin wg) where
    read_packet-GoesOn :
        (packet : Bytes) (l : Loop wg.State) → GoesOn 0 (read_packet wg endpoint packet l)
    unfolding read_packet handle_outgoing GoesOn tun_writes
    read_packet-GoesOn [] l = ([], l, refl, (tt, omega arith))
    read_packet-GoesOn (x ∷ packet) l =
        let before = read_into wg endpoint (x ∷ packet) l in
        let a = wg.encapsulate (x ∷ packet) before.wg_buf before.backend in
        sends-GoesOn 0 (network_only wg endpoint a.action a.buffer) (after_wg wg endpoint before a)
          (network_only-IsAllowed a.action a.buffer
            (within.encapsulate (x ∷ packet) before.wg_buf before.backend))

    handle_incoming-GoesOn :
        (datagram : Bytes) (src : SocketAddr) (l : Loop wg.State)
        → GoesOn 1 (handle_incoming wg endpoint datagram src l)
    unfolding handle_incoming
    handle_incoming-GoesOn datagram src l =
        let a = wg.decapsulate (some src) datagram l.tun_buf l.backend in
        sends-GoesOn 1 (incoming_effects wg endpoint a.action a.buffer) _ (
          incoming_effects-IsAllowed a.action a.buffer
            (within.decapsulate (some src) datagram l.tun_buf l.backend))

    ticked-GoesOn : (l : Loop wg.State) → GoesOn 0 (turn wg endpoint ticked l)
    unfolding turn tun_writes
    ticked-GoesOn l =
        let a = wg.tick l.wg_buf l.backend in
        unless_panic-GoesOn 0 (network_only wg endpoint a.action a.buffer)
          (broadcast (wg.stats a.backend) ∷ []) (after_wg wg endpoint l a)
          (network_only-IsAllowed a.action a.buffer (within.tick l.wg_buf l.backend))
          ((tt, tt), omega arith)

    passed-GoesOn : (l : Loop wg.State) → GoesOn 0 (next [] l)
    unfolding GoesOn tun_writes
    passed-GoesOn l = ([], l, refl, (tt, omega arith))

    turns-IsFine :
        (events : List Event) (l : Loop wg.State)
        → IsFine (expected_end events) (datagrams events) (turns wg endpoint events l)
    unfolding turns turn go_on expected_end datagrams allowance IsFine tun_writes
    turns-IsFine [] l = (refl, (tt, omega arith))
    turns-IsFine (shutdown_signal ∷ es) l = (refl, (tt, omega arith))
    turns-IsFine (tun_received (ok packet) ∷ es) l =
        go_on-IsFine (expected_end es) 0 (datagrams es) _ _ (read_packet-GoesOn packet l)
          (turns-IsFine es)
    turns-IsFine (tun_received (err m) ∷ es) l =
        go_on-IsFine (expected_end es) 0 (datagrams es) _ _ (passed-GoesOn l) (turns-IsFine es)
    turns-IsFine (udp_received (ok (datagram, src)) ∷ es) l =
        go_on-IsFine (expected_end es) 1 (datagrams es) _ _ (handle_incoming-GoesOn datagram src l)
          (turns-IsFine es)
    turns-IsFine (udp_received (err m) ∷ es) l =
        go_on-IsFine (expected_end es) 0 (datagrams es) _ _ (passed-GoesOn l) (turns-IsFine es)
    turns-IsFine (ticked ∷ es) l =
        go_on-IsFine (expected_end es) 0 (datagrams es) _ _ (ticked-GoesOn l) (turns-IsFine es)

    packet_loop-IsFine :
        (events : List Event) (l : Loop wg.State)
        → IsFine (expected_end events) (0 + datagrams events) (packet_loop wg endpoint events l)
    unfolding packet_loop
    packet_loop-IsFine events l =
        let a = wg.initiate_handshake l.wg_buf true l.backend in
        go_on-IsFine (expected_end events) 0 (datagrams events) _ (turns wg endpoint events)
          (sends-GoesOn 0 (network_only wg endpoint a.action a.buffer) (after_wg wg endpoint l a) (
            network_only-IsAllowed a.action a.buffer
              (within.initiate_handshake l.wg_buf true l.backend)))
          (turns-IsFine events)

    -- With a backend that never reports more than the buffer it wrote to, the loop does not panic: it
    -- has ended exactly when it was told to. Every datagram goes to the endpoint, and the device gets
    -- at most one packet for each datagram that came in before that.
    pub packet_loop_lem :
        (events : List Event) (l : Loop wg.State)
        → ((packet_loop wg endpoint events l).0 ≡ expected_end events)
          × All (StaysWith endpoint) (packet_loop wg endpoint events l).1
          × (tun_writes (packet_loop wg endpoint events l).1 ≤ datagrams events)
    unfolding IsFine
    packet_loop_lem events l =
        let fine = packet_loop-IsFine events l in (fine.0, fine.1.0, omega (arith, fine.1.1))
