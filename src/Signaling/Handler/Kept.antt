-- ===== src/Signaling/Handler/Kept.antt =====
-- backend/internal/signaling: what sends and changes of details leave alone.
use altair.Prelude.{ℕ, ◌≡◌, refl, ◌∙◌, String, List, [], ◌∷◌, arith}
use altair.Signaling.Protocol.{Message, JoinPayload}
use altair.Signaling.Peer.{Peer, Heap, update, send, send_to, set_display_name, set_endpoint, close}
use altair.Signaling.Room.{Room, broadcast, send_all, recipients}
use altair.Signaling.Manager.{Manager}
use altair.Signaling.Manager.Consistent.{IsConsistent}
use altair.Signaling.Handler.{State, apply_join, announce_join, joined_ack, joined_note}

-- Every peer has the ID and the room that it had.
unfoldable pub Kept : Heap → Heap → Type 0
Kept h h' = (p : ℕ) → ((h' p).id ≡ (h p).id) × ((h' p).room_id ≡ (h p).room_id)

pub Kept-refl : (h : Heap) → Kept h h
unfolding Kept
Kept-refl h p = (refl, refl)

pub Kept-trans : (a b c : Heap) → Kept a b → Kept b c → Kept a c
unfolding Kept
Kept-trans a b c u v p = ((v p).0 ∙ (u p).0, (v p).1 ∙ (u p).1)

pub update-Kept :
    (h : Heap) (peer : ℕ) (p : Peer)
    → p.id ≡ (h peer).id
    → p.room_id ≡ (h peer).room_id
    → Kept h (update h peer p)
unfolding Kept
update-Kept h peer p e f q = ground (arith, e, f)

pub send_to-Kept : (h : Heap) (peer : ℕ) (msg : Message) → Kept h (send_to h peer msg).0
unfolding send_to send Kept
send_to-Kept h peer msg q = ground arith

send_all-Kept : (h : Heap) (msg : Message) (ps : List ℕ) → Kept h (send_all h msg ps)
unfolding send_all
send_all-Kept h msg [] = Kept-refl h
send_all-Kept h msg (p ∷ ps) =
    Kept-trans h (send_to h p msg).0 _ (send_to-Kept h p msg)
      (send_all-Kept (send_to h p msg).0 msg ps)

pub broadcast-Kept :
    (r : Room) (h : Heap) (msg : Message) (exclude : List String)
    → Kept h (broadcast r h msg exclude)
unfolding broadcast
broadcast-Kept r h msg exclude = send_all-Kept h msg (recipients h exclude r.peers)

pub apply_join-Kept :
    (h : Heap) (peer : ℕ) (payload : JoinPayload)
    → Kept h (update h peer (apply_join payload (h peer)))
unfolding apply_join set_display_name set_endpoint
apply_join-Kept h peer payload = update-Kept h peer _ (ground arith) (ground arith)

pub close-Kept : (h : Heap) (peer : ℕ) → Kept h (update h peer (close (h peer)))
unfolding close
close-Kept h peer = update-Kept h peer _ (ground arith) (ground arith)

pub announce_join-Kept :
    (s : State) (peer : ℕ) (room_id : String) (msg : Message) (room : Room) (now : ℕ)
    → Kept s.heap (announce_join s peer room_id msg room now).heap
unfolding announce_join
announce_join-Kept s peer room_id msg room now =
    let ack = joined_ack s peer room_id msg room now in
    Kept-trans s.heap (send_to s.heap peer ack).0 _ (send_to-Kept s.heap peer ack) (
      broadcast-Kept room (send_to s.heap peer ack).0 (joined_note s peer room_id now)
        ((s.heap peer).id ∷ []))

-- So rooms and peers that agree go on to agree.
pub Kept-IsConsistent :
    (rm : Manager) (h h' : Heap) → Kept h h' → IsConsistent rm h → IsConsistent rm h'
unfolding Kept
Kept-IsConsistent rm h h' k v = record {
  at_room = λ room_id r e.
      let w = v.at_room room_id r e in
      record {
        named = w.named;
        distinct = w.distinct;
        within = w.within;
        members = λ id p f. ((k p).0 ∙ (w.members id p f).0, (k p).1 ∙ (w.members id p f).1);
      };
  keys = v.keys;
  no_empty_name = v.no_empty_name;
}
