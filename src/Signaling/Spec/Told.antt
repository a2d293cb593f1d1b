-- ===== src/Signaling/Spec/Told.antt =====
-- backend/internal/signaling: who hears of a disconnection, by the assignment of rooms.
use mathlib.Core.Path.{subst}
use text.Mathlib.Text.{◌==◌ as str_eq}
use text.Mathlib.TextEquality.{eq_iff}
use altair.Prelude.{
  ℕ, ◌≡◌, ◌≢◌, sym, ap, ◌∙◌, String, List, some, inl, inr, false, arith, Bool-cases, ◌==◌, ==_iff,
  if◌then◌else◌,
}
use altair.Signaling.Protocol.{JoinPayload, Payload}
use altair.Signaling.Peer.{send, close, set_room_id}
use altair.Signaling.Room.{Room}
use altair.Signaling.Room.Broadcast.{holds}
use altair.Signaling.Manager.{get}
use altair.Signaling.Handler.{State, left_note, depart, handle_disconnect}
use altair.Signaling.Handler.Announce.{depart_lem}
use altair.Signaling.Server.{Event}
use altair.Signaling.Spec.{Assignment, assigns, Run}
use altair.Signaling.Spec.Placed.{is_in-follows}
use altair.Signaling.Spec.Refines.{Follows}
use altair.Signaling.Spec.Runs.{Run-Follows}

-- The room under a name holds who is assigned to it.
pub holds-Follows :
    (s : State) (f : Assignment) (room_id : String) (r : Room) (q : ℕ)
    → Follows s f
    → room_id ≢ ""
    → get s.rooms room_id ≡ some r
    → holds q r.peers ≡ str_eq (f q) room_id
holds-Follows s f room_id r q v name e =
    ground (arith, e, is_in-follows s.rooms s.heap f room_id q v name)

depart_told :
    (s : State) (f : Assignment) (peer now q : ℕ)
    → Follows s f
    → (s.heap peer).room_id ≢ ""
    → let room_id = (s.heap peer).room_id in
      (depart s peer room_id now).heap q ≡ (
        if peer == q
        then set_room_id (s.heap q) ""
        else if str_eq (f q) room_id
        then (send (s.heap q) (left_note (s.heap peer).id room_id now)).0
        else s.heap q)
depart_told s f peer now q v ne =
    let (r, e, there) = v.at peer ne in
    depart_lem s peer (s.heap peer).room_id r now q v.agrees (unfold get in e) there
    ∙ ap
        (λ b.
          if peer == q
          then set_room_id (s.heap q) ""
          else if b
          then (send (s.heap q) (left_note (s.heap peer).id (s.heap peer).room_id now)).0
          else s.heap q)
        (holds-Follows s f (s.heap peer).room_id r q v ne (unfold get in e))

disconnect_at :
    (s : State) (f : Assignment) (peer now q : ℕ)
    → Follows s f
    → (s.heap peer).room_id ≢ ""
    → let room_id = (s.heap peer).room_id in
      (handle_disconnect s peer now).heap q ≡ (
        if peer == q
        then close (set_room_id (s.heap q) "")
        else if str_eq (f q) room_id
        then (send (s.heap q) (left_note (s.heap peer).id room_id now)).0
        else s.heap q)
unfolding handle_disconnect
disconnect_at s f peer now q v ne =
    let away : str_eq (s.heap peer).room_id "" ≡ false =
      ground (arith, ne, eq_iff (s.heap peer).room_id "") in
    elim (Bool-cases (peer == q)) [
      | inl t ↦
          rw (away, ← (==_iff peer q).0 t, handle_disconnect)
            (ground (arith, depart_told s f peer now peer v ne))
      | inr t ↦ rw (away, t, handle_disconnect) (ground (arith, t, depart_told s f peer now q v ne))
    ]

-- After a run of the server from a heap without peers, in which connections get new pointers and
-- IDs that nobody had, if its events assign a room to a peer, handleDisconnect takes the peer out
-- of its room and closes it, sends one PEER_LEFT with the ID of the peer and the room to each
-- other peer that the events assign to that room, and changes no other peer.
pub disconnect_told :
    (parse : Payload → JoinPayload) (es : List Event) (s : State) (peer now q : ℕ)
    → Run parse es s
    → assigns es peer ≢ ""
    → (handle_disconnect s peer now).heap q ≡ (
        if peer == q
        then close (set_room_id (s.heap q) "")
        else if str_eq (assigns es q) (assigns es peer)
        then (send (s.heap q) (left_note (s.heap peer).id (assigns es peer) now)).0
        else s.heap q)
disconnect_told parse es s peer now q w ne =
    let v = Run-Follows parse es s w in
    let here = v.follows peer in
    subst
      (λ (room_id : String). (handle_disconnect s peer now).heap q ≡ (
        if peer == q
        then close (set_room_id (s.heap q) "")
        else if str_eq (assigns es q) room_id
        then (send (s.heap q) (left_note (s.heap peer).id room_id now)).0
        else s.heap q))
      here
      (disconnect_at s (assigns es) peer now q v
        (λ (n : (s.heap peer).room_id ≡ ""). ne (sym here ∙ n)))
