-- ===== src/Signaling/Server.antt =====
-- backend/internal/signaling/server.go: a new server, its clean-up, its shutdown, and the events that
-- change its state, one after the other.
pub mod Reachable
pub mod Registered
pub mod Lasting
pub mod Shutdown
use altair.Prelude.{ℕ, String, Bool, true, false, List, [], ◌∷◌, Option, none, some, if◌then◌else◌}
use altair.Signaling.Protocol.{Message, JoinPayload, Payload}
use altair.Signaling.Peer.{Conn, Heap, update, close}
use altair.Signaling.Manager.{new_manager, cleanup_empty}
use altair.Signaling.Registry.{Registry, cleanup_stale}
use altair.Signaling.Handler.{State, read_step, handle_disconnect, connect}

-- `NewServer` over a heap of peers that nothing points to yet.
unfoldable pub new_state : Heap → State
unfolding new_manager
new_state h = record { heap = h; registry = []; rooms = new_manager }

-- One tick of `cleanupLoop`, with the numbers that it logs.
unfoldable pub cleanup : State → ℕ → ℕ → State × ℕ × ℕ
cleanup s stale_timeout now =
    let (r, h, stale) = cleanup_stale s.registry s.heap stale_timeout now in
    let (rm, rooms) = cleanup_empty s.rooms now in
    (record { heap = h; registry = r; rooms = rm }, stale, rooms)

-- ForEach(peer.Close)
unfoldable pub close_all : Registry → Heap → Heap
close_all [] h = h
close_all ((id, peer) ∷ rest) h = close_all rest (update h peer (close (h peer)))

-- `done` stands for the sync.Once of `Shutdown`.
unfoldable pub shutdown : State → Bool → State × Bool
shutdown s done =
    if done then (s, true) else (record s { heap = close_all s.registry s.heap }, true)

pub data Event : Type 0 where
  connected : ℕ → Conn → List String → ℕ → Event
  received : ℕ → Option Message → ℕ → Event
  disconnected : ℕ → ℕ → Event
  cleaned : ℕ → ℕ → Event

-- A connection that finds no free ID leaves the server as it is.
unfoldable pub step : (Payload → JoinPayload) → State → Event → State
step parse s (connected peer conn supply now) = elim (connect s peer conn supply now) [
  | none ↦ s
  | some s' ↦ s'
]
step parse s (received peer input now) = (read_step parse s peer input now).0
step parse s (disconnected peer now) = handle_disconnect s peer now
step parse s (cleaned stale_timeout now) = (cleanup s stale_timeout now).0
