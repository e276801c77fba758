-- ===== src/Core/Tunnel/PacketLoop.antt =====
-- ferro-wg-core/src/tunnel/mod.rs: `packet_loop`, `handle_outgoing` and `handle_incoming`. What
-- `tokio::select!` picks is a list of events; a backend is a state with the methods of `WgBackend`,
-- which write into a buffer and say how much of it is meant. A length beyond the buffer makes the slice
-- of it panic, which ends the loop's task.
use ferro_wg.Prelude.{
  ℕ, Bool, true, List, [], ◌∷◌, ◌++◌, Text, Option, none, some, Result, ok, err, take, drop, length,
  is_empty, if◌then◌else◌, leb,
}
use ferro_wg.Core.Os.{SocketAddr}
use ferro_wg.Core.Stats.{TunnelStats}
use ferro_wg.Core.Backend.{PacketAction, write_to_tun, write_to_network}

abbrev pub Bytes : Type 0
Bytes = List ℕ

-- What a method of `WgBackend` leaves: its action, the buffer and the backend.
pub record Acted (B : Type 0) : Type 0 where
  pub action : PacketAction
  pub buffer : Bytes
  pub backend : B

pub record WgBackend : Type 1 where
  pub State : Type 0
  pub encapsulate : Bytes → Bytes → State → Acted State
  pub decapsulate : Option SocketAddr → Bytes → Bytes → State → Acted State
  pub initiate_handshake : Bytes → Bool → State → Acted State
  pub tick : Bytes → State → Acted State
  pub stats : State → TunnelStats

pub data Event : Type 0 where
  tun_received : Result Bytes Text → Event
  udp_received : Result (Bytes × SocketAddr) Text → Event
  ticked shutdown_signal : Event

-- What the loop does to the outside; whether a send succeeds changes nothing for it.
pub data Effect : Type 0 where
  send_to : SocketAddr → Bytes → Effect
  write_tun : Bytes → Effect
  broadcast : TunnelStats → Effect

pub record Loop (B : Type 0) : Type 0 where
  pub backend : B
  pub tun_buf : Bytes
  pub wg_buf : Bytes

-- How the loop stands: it waits for the next event, it was told to stop, or its task panicked.
pub data LoopEnd : Type 0 where
  going told panicked : LoopEnd

-- What a turn comes to.
pub data Turned (B : Type 0) : Type 0 where
  next : List Effect → Loop B → Turned B
  ended : LoopEnd → Turned B

-- `&buf[..len]` for an effect; `none` is the panic.
unfoldable pub sliced : (Bytes → Effect) → ℕ → Bytes → Option (List Effect)
sliced effect len buffer =
    if leb len (length buffer) then some (effect (take len buffer) ∷ []) else none

unfoldable pub unless_panic :
    {B : Type 0} → Option (List Effect) → (List Effect → Turned B) → Turned B
unless_panic none f = ended panicked
unless_panic (some out) f = f out

module _ (wg : WgBackend) (endpoint : SocketAddr) where
  -- Only a packet for the network is sent; anything else is dropped.
  unfoldable pub network_only : PacketAction → Bytes → Option (List Effect)
  network_only (write_to_network len) buffer = sliced (send_to endpoint) len buffer
  network_only _ buffer = some []

  unfoldable pub incoming_effects : PacketAction → Bytes → Option (List Effect)
  incoming_effects (write_to_tun len) buffer = sliced write_tun len buffer
  incoming_effects (write_to_network len) buffer = sliced (send_to endpoint) len buffer
  incoming_effects _ buffer = some []

  unfoldable pub after_wg : Loop wg.State → Acted wg.State → Loop wg.State
  after_wg l a = record l { backend = a.backend; wg_buf = a.buffer }

  unfoldable pub handle_outgoing : Bytes → Loop wg.State → Turned wg.State
  handle_outgoing packet l =
      let a = wg.encapsulate packet l.wg_buf l.backend in
      unless_panic (network_only a.action a.buffer) (λ out. next out (after_wg l a))

  unfoldable pub handle_incoming : Bytes → SocketAddr → Loop wg.State → Turned wg.State
  handle_incoming datagram src l =
      let a = wg.decapsulate (some src) datagram l.tun_buf l.backend in
      unless_panic (incoming_effects a.action a.buffer)
        (λ out. next out (record l { backend = a.backend; tun_buf = a.buffer }))

  -- A packet read from the device overwrites the front of its buffer.
  unfoldable pub read_into : Bytes → Loop wg.State → Loop wg.State
  read_into packet l = record l { tun_buf = packet ++ drop (length packet) l.tun_buf }

  -- An empty read is passed over.
  unfoldable pub read_packet : Bytes → Loop wg.State → Turned wg.State
  read_packet packet l =
      if is_empty packet then next [] l else handle_outgoing packet (read_into packet l)

  unfoldable pub turn : Event → Loop wg.State → Turned wg.State
  turn (tun_received (ok packet)) l = read_packet packet l
  turn (tun_received (err _)) l = next [] l
  turn (udp_received (ok (datagram, src))) l = handle_incoming datagram src l
  turn (udp_received (err _)) l = next [] l
  turn ticked l =
      let a = wg.tick l.wg_buf l.backend in
      unless_panic (network_only a.action a.buffer)
        (λ out. next (out ++ broadcast (wg.stats a.backend) ∷ []) (after_wg l a))
  turn shutdown_signal l = ended told

  unfoldable pub go_on :
      Turned wg.State → (Loop wg.State → LoopEnd × List Effect) → LoopEnd × List Effect
  go_on (ended how) rest = (how, [])
  go_on (next out l) rest = ((rest l).0, out ++ (rest l).1)

  -- How the loop stands after the events, and what it has done.
  unfoldable pub turns : List Event → Loop wg.State → LoopEnd × List Effect
  turns [] l = (going, [])
  turns (e ∷ es) l = go_on (turn e l) (turns es)

  unfoldable pub packet_loop : List Event → Loop wg.State → LoopEnd × List Effect
  packet_loop events l =
      let a = wg.initiate_handshake l.wg_buf true l.backend in
      go_on (unless_panic (network_only a.action a.buffer) (λ out. next out (after_wg l a)))
        (turns events)
