-- ===== src/Signaling/Handler/Announce.antt =====
-- backend/internal/signaling/handler.go: who hears of a join, and who of a departure.
use text.Mathlib.TextEquality.{eq_iff}
use altair.Prelude.{
  ℕ, ◌≡◌, ◌≢◌, inl, inr, refl, sym, ap, ◌∙◌, String, true, false, [], ◌∷◌, some, arith, ◌==◌,
  ==_iff, Bool-cases, if◌then◌else◌,
}
use altair.Signaling.Protocol.{Message}
use altair.Signaling.Peer.{Heap, update, set_room_id, send, send_to}
use altair.Signaling.Dict.{Dict, lookup, delete, lookup-insert, lookup-delete, delete-Distinct}
use altair.Signaling.Room.{Room, remove, excluded}
use altair.Signaling.Room.Broadcast.{holds, Knows, lookup_held, held_lookup, broadcast_lem}
use altair.Signaling.Manager.{get, put, remove_from}
use altair.Signaling.Manager.Consistent.{IsRoom, IsConsistent}
use altair.Signaling.Manager.Joining.{remove_from-IsConsistent}
use altair.Signaling.Handler.{State, announce_join, joined_ack, joined_note, left_note, depart}
use altair.Signaling.Handler.Kept.{Kept, send_to-Kept}

IsRoom-Knows : (h : Heap) (room_id : String) (r : Room) → IsRoom h room_id r → Knows h r.peers
IsRoom-Knows h room_id r v id p e = (v.members id p e).0

Knows-Kept : (h h' : Heap) (d : Dict ℕ) → Kept h h' → Knows h d → Knows h' d
unfolding Kept
Knows-Kept h h' d k v id p e = (k p).0 ∙ v id p e

-- Among the peers of a room, excluding one by its ID excludes that one.
excluded_one :
    (h : Heap) (room_id : String) (r : Room) (peer q : ℕ)
    → IsRoom h room_id r
    → lookup (h peer).id r.peers ≡ some peer
    → peer ≢ q
    → holds q r.peers ≡ true
    → excluded (h q).id ((h peer).id ∷ []) ≡ false
unfolding excluded
excluded_one h room_id r peer q v there ne held = ground (
  arith,
  lookup_held h r.peers q v.distinct (IsRoom-Knows h room_id r v) held,
  there,
  ne,
  eq_iff (h peer).id (h q).id,
)

self_excluded :
    (h h1 : Heap) (peer q : ℕ) → Kept h h1 → peer ≡ q → excluded (h1 q).id ((h peer).id ∷ []) ≡ true
unfolding excluded Kept
self_excluded h h1 peer q k e = rw (← e) (ground (arith, k peer, eq_iff (h peer).id (h1 peer).id))

-- After a join of a room that is in order and holds the peer under its ID, the peer is sent the
-- acknowledgement, every other peer of the room is sent the note of the join, and no other peer
-- changes.
pub announce_join_lem :
    (s : State) (peer : ℕ) (room_id : String) (msg : Message) (room : Room) (now : ℕ) (q : ℕ)
    → IsRoom s.heap room_id room
    → lookup (s.heap peer).id room.peers ≡ some peer
    → (announce_join s peer room_id msg room now).heap q ≡ (
        if peer == q
        then (send (s.heap q) (joined_ack s peer room_id msg room now)).0
        else if holds q room.peers
        then (send (s.heap q) (joined_note s peer room_id now)).0
        else s.heap q)
unfolding announce_join send_to
announce_join_lem s peer room_id msg room now q v there =
    let h = s.heap in
    let h1 = (send_to h peer (joined_ack s peer room_id msg room now)).0 in
    let k : Kept h h1 = send_to-Kept h peer (joined_ack s peer room_id msg room now) in
    let sent =
      broadcast_lem room h1 (joined_note s peer room_id now) ((h peer).id ∷ []) q v.distinct
        (Knows-Kept h h1 room.peers k (IsRoom-Knows h room_id room v)) in
    elim (Bool-cases (peer == q)) [
      | inl e ↦ sent ∙ ground (arith, e, self_excluded h h1 peer q k ((==_iff peer q).0 e))
      | inr e ↦ elim (Bool-cases (holds q room.peers)) [
        | inl held ↦
            sent
            ∙ ground (
              arith,
              e,
              held,
              excluded_one h room_id room peer q v there (λ n. ground (arith, e, n)) held,
            )
        | inr held ↦ sent ∙ ground (arith, e, held)
      ]
    ]

-- The room without the peer, and the heap in which the peer is in no room.
left_value :
    (s : State) (peer : ℕ) (room_id : String) (r : Room)
    → get s.rooms room_id ≡ some r
    → lookup (s.heap peer).id r.peers ≡ some peer
    → let (rm, h) = remove_from s.rooms s.heap room_id (s.heap peer).id in
      (get rm room_id ≡ some (record r { peers = delete (s.heap peer).id r.peers }))
      × (h ≡ update s.heap peer (set_room_id (s.heap peer) ""))
unfolding remove_from remove put get
left_value s peer room_id r e f =
    rw (e, f, remove_from, remove, get)
      (
        ground (
          arith,
          eq_iff room_id room_id,
          lookup-insert room_id room_id (record r { peers = delete (s.heap peer).id r.peers })
              s.rooms.rooms,
        ),
        refl,
      )

-- Deleting one peer's key leaves the other peers in the map.
holds-delete :
    (h : Heap) (r : Room) (room_id : String) (peer q : ℕ)
    → IsRoom h room_id r
    → lookup (h peer).id r.peers ≡ some peer
    → peer ≢ q
    → holds q (delete (h peer).id r.peers) ≡ holds q r.peers
holds-delete h r room_id peer q v there ne =
    let k = (h peer).id in
    let knows = IsRoom-Knows h room_id r v in
    let gone = lookup-delete k (h q).id r.peers in
    elim (Bool-cases (holds q r.peers)) [
      | inl a ↦
          let found = lookup_held h r.peers q v.distinct knows a in
          held_lookup (delete k r.peers) (h q).id q
            (ground (arith, gone, found, there, ne, eq_iff k (h q).id))
          ∙ sym a
      | inr a ↦ elim (Bool-cases (holds q (delete k r.peers))) [
        | inl b ↦
            let found =
              lookup_held h (delete k r.peers) q (delete-Distinct k r.peers v.distinct)
                (λ id p e. knows id p (ground (arith, lookup-delete k id r.peers, e))) b in
            b ∙ sym (held_lookup r.peers (h q).id q (ground (arith, gone, found)))
        | inr b ↦ b ∙ sym a
      ]
    ]

-- The deleted peer is out of the map.
not-holds-delete :
    (h : Heap) (r : Room) (room_id : String) (peer : ℕ)
    → IsRoom h room_id r
    → holds peer (delete (h peer).id r.peers) ≡ false
not-holds-delete h r room_id peer v =
    let k = (h peer).id in
    elim (Bool-cases (holds peer (delete k r.peers))) [
      | inl b ↦
          let found =
            lookup_held h (delete k r.peers) peer (delete-Distinct k r.peers v.distinct)
              (λ id p e. (v.members id p (ground (arith, lookup-delete k id r.peers, e))).0) b in
          ground (arith, found, lookup-delete k k r.peers, eq_iff k k)
      | inr b ↦ b
    ]

-- Where rooms and peers agree and the room holds the peer under its ID, a departure clears the
-- room of the peer, sends the note of it to every other peer of the room, and changes no other
-- peer.
pub depart_lem :
    (s : State) (peer : ℕ) (room_id : String) (r : Room) (now : ℕ) (q : ℕ)
    → IsConsistent s.rooms s.heap
    → get s.rooms room_id ≡ some r
    → lookup (s.heap peer).id r.peers ≡ some peer
    → (depart s peer room_id now).heap q ≡ (
        if peer == q
        then set_room_id (s.heap q) ""
        else if holds q r.peers
        then (send (s.heap q) (left_note (s.heap peer).id room_id now)).0
        else s.heap q)
unfolding depart excluded
depart_lem s peer room_id r now q v e there =
    let id = (s.heap peer).id in
    let left = remove_from s.rooms s.heap room_id id in
    let r' : Room = record r { peers = delete id r.peers } in
    let (kept, moved) = left_value s peer room_id r e there in
    let note = left_note id room_id now in
    let w = remove_from-IsConsistent s.rooms s.heap room_id id v in
    let in_order : IsRoom left.1 room_id r' = w.at_room room_id r' (unfold get in kept) in
    let sent =
      broadcast_lem r' left.1 note [] q in_order.distinct
        (IsRoom-Knows left.1 room_id r' in_order) in
    let was : IsRoom s.heap room_id r = v.at_room room_id r (unfold get in e) in
    rw (e, kept, depart)
      (sent ∙ elim (Bool-cases (peer == q)) [
        | inl t ↦
            rw (← (==_iff peer q).0 t)
              (ground (arith, ap (λ f. f peer) moved, not-holds-delete s.heap r room_id peer was))
        | inr t ↦ ground (
          arith,
          t,
          ap (λ f. f q) moved,
          holds-delete s.heap r room_id peer q was there (λ n. ground (arith, t, n)),
        )
      ])
