-- ===== src/Signaling/Spec.antt =====
-- backend/internal/signaling, as its clients see it: which room each peer is in, from the events alone.
-- IDs, maps, connections and times do not occur here.
pub mod Placed
pub mod Leaving
pub mod Entering
pub mod Joining
pub mod Refines
pub mod Runs
pub mod Told
pub mod Welcome
pub mod Meeting
pub mod Tests
use text.Mathlib.Text.{◌==◌ as str_eq}
use altair.Prelude.{
  ℕ, ◌≡◌, ◌≢◌, String, Bool, false, List, [], ◌∷◌, Option, none, some, ◌==◌, if◌then◌else◌,
}
use altair.Signaling.Protocol.{MessageType, Message, JoinPayload, Payload}
use altair.Signaling.Protocol
use altair.Signaling.Peer.{Heap}
use altair.Signaling.Room.Broadcast.{holds}
use altair.Signaling.Manager.{Manager, get}
use altair.Signaling.Handler.{State}
use altair.Signaling.Server.{new_state, step, Event, connected, received, disconnected, cleaned}

-- The room of each peer, "" for none.
abbrev pub Assignment : Type 0
Assignment = ℕ → String

abbrev pub move : Assignment → ℕ → String → Assignment
move f peer room_id q = if peer == q then room_id else f q

-- A JOIN that names a room puts the sender there and a LEAVE takes it out; no other message moves
-- anybody.
abbrev pub obey : MessageType → Assignment → ℕ → String → Assignment
obey Protocol.join f peer room_id = if str_eq room_id "" then f else move f peer room_id
obey Protocol.leave f peer room_id = move f peer ""
obey _ f peer room_id = f

abbrev pub assign : Assignment → Event → Assignment
assign f (received peer (some msg) now) = obey msg.type f peer msg.room_id
assign f (disconnected peer now) = move f peer ""
assign f _ = f

-- After events of which the last comes first.
abbrev pub assigns : List Event → Assignment
assigns [] = λ q. ""
assigns (e ∷ es) = assign (assigns es) e

-- No pointer is in use.
abbrev pub Blank : Heap → Type 0
Blank h = (q : ℕ) → ((h q).id ≡ "") × ((h q).room_id ≡ "")

-- An ID that no peer has ever had.
abbrev pub IsNewId : Heap → String → Type 0
IsNewId h id = (id ≢ "") × ((q : ℕ) → (h q).id ≢ id)

abbrev pub AllNewIds : Heap → List String → Type 0
AllNewIds h [] = Unit
AllNewIds h (id ∷ ids) = IsNewId h id × AllNewIds h ids

-- A connection has a new pointer and gets random IDs that nobody had; all else comes from a peer
-- that has been connected.
unfoldable pub IsSound : State → Event → Type 0
IsSound s (connected peer conn supply now) = ((s.heap peer).id ≡ "") × AllNewIds s.heap supply
IsSound s (received peer input now) = (s.heap peer).id ≢ ""
IsSound s (disconnected peer now) = (s.heap peer).id ≢ ""
IsSound s (cleaned stale_timeout now) = Unit

pub data Run (parse : Payload → JoinPayload) : List Event → State → Type 0 where
  opened : (h : Heap) → Blank h → Run parse [] (new_state h)
  after :
      {es : List Event} {s : State} (e : Event)
      → Run parse es s
      → IsSound s e
      → Run parse (e ∷ es) (step parse s e)

-- Whether the room that is kept under a name holds a peer.
abbrev pub is_in : Manager → String → ℕ → Bool
is_in rm room_id q = elim (get rm room_id) [ none ↦ false | some r ↦ holds q r.peers ]
