-- ===== src/Signaling/Spec/Welcome.antt =====
-- backend/internal/signaling: who hears of a join, by the assignment of rooms.
use mathlib.Core.Path.{subst}
use text.Mathlib.Text.{◌==◌ as str_eq}
use text.Mathlib.TextEquality.{eq_iff}
use altair.Prelude.{
  ℕ, ◌≡◌, ◌≢◌, refl, sym, ◌∙◌, String, List, some, inl, inr, false, arith, Bool-cases, ◌==◌, ==_iff,
  if◌then◌else◌,
}
use altair.Signaling.Protocol.{Message, JoinPayload, Payload}
use altair.Signaling.Protocol
use altair.Signaling.Peer.{Peer, update, send, set_room_id, update_last_seen}
use altair.Signaling.Dict.{lookup}
use altair.Signaling.Room.{Room}
use altair.Signaling.Manager.{get, join_room}
use altair.Signaling.Manager.Joined.{JoinOutcome, join_room_outcome}
use altair.Signaling.Handler.{
  State, apply_join, join_payload, announce_join, joined_ack, joined_note, handle_join, dispatch,
  handle_message, read_step,
}
use altair.Signaling.Handler.Kept.{Kept, apply_join-Kept}
use altair.Signaling.Handler.Ids.{SameIds, join_room-SameIds}
use altair.Signaling.Handler.Announce.{announce_join_lem}
use altair.Signaling.Server.{Event}
use altair.Signaling.Spec.{Assignment, assigns, move, Run}
use altair.Signaling.Spec.Placed.{Kept-IsPlaced}
use altair.Signaling.Spec.Joining.{join_room-IsPlaced, join_room_others, join_room_self}
use altair.Signaling.Spec.Refines.{Follows, seen-Follows}
use altair.Signaling.Spec.Told.{holds-Follows}
use altair.Signaling.Spec.Runs.{Run-Follows}

-- What a join of another room sends: an acknowledgement to the peer, which is as `joined` before it,
-- and one note to each peer that is in the room.
abbrev pub Announcement : State → State → Assignment → ℕ → Peer → String → Type 0
Announcement s s' f peer joined room_id =
    (ack : Message) × (note : Message) × (ack.type ≡ Protocol.ack)
    × (note.type ≡ Protocol.peer_joined)
    × (note.peer_id ≡ (s.heap peer).id)
    × (note.room_id ≡ room_id)
    × ((q : ℕ)
        → s'.heap q ≡ (
            if peer == q
            then (send joined ack).0
            else if str_eq (f q) room_id
            then (send (s.heap q) note).0
            else s.heap q))

-- The announcement after JoinRoom.
announced :
    (s : State) (f : Assignment) (peer : ℕ) (room_id : String) (msg : Message) (room : Room)
    (now q : ℕ)
    → Follows s f
    → room_id ≢ ""
    → get s.rooms room_id ≡ some room
    → lookup (s.heap peer).id room.peers ≡ some peer
    → (announce_join s peer room_id msg room now).heap q ≡ (
        if peer == q
        then (send (s.heap q) (joined_ack s peer room_id msg room now)).0
        else if str_eq (f q) room_id
        then (send (s.heap q) (joined_note s peer room_id now)).0
        else s.heap q)
announced s f peer room_id msg room now q v name e there =
    announce_join_lem s peer room_id msg room now q
      (v.agrees.at_room room_id room (unfold get in e)) there
    ∙ ground (arith, holds-Follows s f room_id room q v name e)

joined_told :
    (s : State) (f : Assignment) (peer : ℕ) (msg : Message) (now : ℕ)
    → Follows s f
    → (s.heap peer).id ≢ ""
    → msg.room_id ≢ ""
    → (s.heap peer).room_id ≢ msg.room_id
    → let (rm, h, joined) = join_room s.rooms s.heap peer msg.room_id now in
      let s' : State = record s { rooms = rm; heap = h } in
      (room : Room) × (joined ≡ some room)
      × Announcement s
          (announce_join s' peer msg.room_id msg room now)
          f
          peer
          (set_room_id (s.heap peer) msg.room_id)
          msg.room_id
unfolding SameIds JoinOutcome
joined_told s f peer msg now v live name ne =
    let (v', (room, joined)) =
      join_room-IsPlaced s.rooms s.heap f peer msg.room_id now v live name ne in
    let (rm, h, _) = join_room s.rooms s.heap peer msg.room_id now in
    let s' : State = record s { rooms = rm; heap = h } in
    let same = join_room-SameIds s.rooms s.heap peer msg.room_id now peer in
    let (here, kept, there) =
      subst (JoinOutcome rm h peer (s.heap peer).id msg.room_id) joined
        (join_room_outcome s.rooms s.heap peer msg.room_id now v.agrees) in
    (
      room,
      joined,
      (
        joined_ack s' peer msg.room_id msg room now,
        joined_note s' peer msg.room_id now,
        refl,
        refl,
        same,
        refl,
        λ q.
            announced s' (move f peer msg.room_id) peer msg.room_id msg room now q v' name
              (unfold get in kept) (rw same there)
            ∙ elim (Bool-cases (peer == q)) [
              | inl t ↦
                  rw (← (==_iff peer q).0 t)
                    (ground (arith, join_room_self s.rooms s.heap f peer msg.room_id now v ne))
              | inr t ↦
                  ground (arith, t, join_room_others s.rooms s.heap f peer msg.room_id now q v ne)
            ],
      ),
    )

handle_join_told :
    (parse : Payload → JoinPayload) (s : State) (f : Assignment) (peer : ℕ) (msg : Message)
    (now : ℕ)
    → Follows s f
    → (s.heap peer).id ≢ ""
    → msg.room_id ≢ ""
    → (s.heap peer).room_id ≢ msg.room_id
    → Announcement s
        (handle_join parse s peer msg now).0
        f
        peer
        (set_room_id (apply_join (join_payload parse msg.payload) (s.heap peer)) msg.room_id)
        msg.room_id
unfolding handle_join Kept
handle_join_told parse s f peer msg now v live name ne =
    let payload = join_payload parse msg.payload in
    let s1 : State = record s { heap = update s.heap peer (apply_join payload (s.heap peer)) } in
    let k = apply_join-Kept s.heap peer payload in
    let v1 : Follows s1 f = Kept-IsPlaced s.rooms s.heap s1.heap f k v in
    let (room, joined, heard) =
      joined_told s1 f peer msg now v1 (λ (n : (s1.heap peer).id ≡ ""). live (sym (k peer).0 ∙ n))
        name (λ (n : (s1.heap peer).room_id ≡ msg.room_id). ne (sym (k peer).1 ∙ n)) in
    let (ack, note, kind, type, id, place, told) = heard in
    let named : str_eq msg.room_id "" ≡ false = ground (arith, name, eq_iff msg.room_id "") in
    let other : str_eq (s1.heap peer).room_id msg.room_id ≡ false =
      ground (arith, ne, (k peer).1, eq_iff (s1.heap peer).room_id msg.room_id) in
    rw (named, other, joined, handle_join)
      (ack, note, kind, type, id ∙ (k peer).0, place, λ q. told q ∙ ground arith)

-- After a run of the server from a heap without peers, in which connections get new pointers and
-- IDs that nobody had, a JOIN from a peer that has connected, of a room whose name is not empty
-- and which the events do not assign to it, sends one acknowledgement to the peer, which has got
-- the name and endpoint of the payload and the room before, and one PEER_JOINED with the ID of the
-- peer and the room to each peer that the events assign to the room, and changes no other peer.
pub join_told :
    (parse : Payload → JoinPayload) (es : List Event) (s : State) (peer : ℕ) (msg : Message)
    (now : ℕ)
    → Run parse es s
    → (s.heap peer).id ≢ ""
    → msg.type ≡ Protocol.join
    → msg.room_id ≢ ""
    → assigns es peer ≢ msg.room_id
    → let seen = update_last_seen (s.heap peer) now in
      Announcement s
        (read_step parse s peer (some msg) now).0
        (assigns es)
        peer
        (set_room_id (apply_join (join_payload parse msg.payload) seen) msg.room_id)
        msg.room_id
unfolding read_step handle_message dispatch update_last_seen
join_told parse es s peer msg now w live type name ne =
    let s1 : State = record s { heap = update s.heap peer (update_last_seen (s.heap peer) now) } in
    let v = Run-Follows parse es s w in
    let (ack, note, kind, of, id, place, told) =
      handle_join_told parse s1 (assigns es) peer
        (record msg { peer_id = (s1.heap peer).id; type = Protocol.join }) now
        (seen-Follows s (assigns es) peer now v)
        (λ (n : (s1.heap peer).id ≡ ""). live (ground (arith, n))) name
        (λ (n : (s1.heap peer).room_id ≡ msg.room_id). ne (ground (arith, n, v.follows peer))) in
    rw (type, read_step, handle_message, dispatch)
      (ack, note, kind, of, ground (arith, id), place, λ q. told q ∙ ground arith)
