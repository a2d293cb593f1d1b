-- ===== src/Signaling/Manager/Consistent.antt =====
-- Rooms and peers agree: who is in a room knows it, by its ID, and no room is over its limit.
use text.Mathlib.TextEquality.{eq_iff}
use altair.Prelude.{
  ℕ, ◌≤◌, ◌<◌, ◌≡◌, ◌≢◌, sym, ap, ◌∙◌, String, false, none, some, arith, length, ltb, leb, ◌&&◌,
}
use altair.Signaling.Peer.{Heap, update, set_room_id}
use altair.Signaling.Dict.{
  lookup, insert, delete, Distinct, lookup-insert, lookup-delete, insert-Distinct, delete-Distinct,
  length-insert, length-delete-le,
}
use altair.Signaling.Room.{Room}
use altair.Signaling.Manager.{Manager}

-- The peers of one room, kept under the key `room_id`.
pub record IsRoom (h : Heap) (room_id : String) (r : Room) : Type 0 where
  pub named : r.id ≡ room_id
  pub distinct : Distinct r.peers
  pub within : 0 < r.max_peers → length r.peers ≤ r.max_peers
  pub members :
      (id : String) (peer : ℕ)
      → lookup id r.peers ≡ some peer
      → ((h peer).id ≡ id) × ((h peer).room_id ≡ room_id)

pub record IsConsistent (rm : Manager) (h : Heap) : Type 0 where
  pub at_room :
      (room_id : String) (r : Room) → lookup room_id rm.rooms ≡ some r → IsRoom h room_id r
  pub keys : Distinct rm.rooms
  pub no_empty_name : lookup "" rm.rooms ≡ none

-- A change of peer's room keeps a room in which the peer is not.
pub keep_room :
    (h : Heap) (peer : ℕ) (room_id new : String) (r : Room)
    → IsRoom h room_id r
    → ((id : String) → lookup id r.peers ≢ some peer)
    → IsRoom (update h peer (set_room_id (h peer) new)) room_id r
unfolding set_room_id
keep_room h peer room_id new r v out = record {
  named = v.named;
  distinct = v.distinct;
  within = v.within;
  members =
      λ id q e. ground (arith, v.members id q, λ (k : peer ≡ q). out id (e ∙ ap some (sym k)));
}

-- `Remove` keeps a room in order, and the peer is out afterwards.
pub remove-IsRoom :
    (h : Heap) (peer : ℕ) (room_id peer_id : String) (r : Room)
    → IsRoom h room_id r
    → lookup peer_id r.peers ≡ some peer
    → IsRoom
        (update h peer (set_room_id (h peer) ""))
        room_id
        (record r { peers = delete peer_id r.peers })
unfolding set_room_id
remove-IsRoom h peer room_id peer_id r v e = record {
  named = v.named;
  distinct = delete-Distinct peer_id r.peers v.distinct;
  within = λ lim. omega (arith, v.within lim, length-delete-le peer_id r.peers);
  members = λ id q f. ground (
    arith,
    lookup-delete peer_id id r.peers,
    eq_iff peer_id id,
    v.members id q,
    v.members peer_id peer,
  );
}

-- `Add` with room keeps a room in order: one more peer at most, and within the limit.
pub add-IsRoom :
    (h : Heap) (peer : ℕ) (room_id : String) (r : Room)
    → IsRoom h room_id r
    → (ltb 0 r.max_peers && leb r.max_peers (length r.peers)) ≡ false
    → IsRoom
        (update h peer (set_room_id (h peer) r.id))
        room_id
        (record r { peers = insert (h peer).id peer r.peers })
unfolding set_room_id
add-IsRoom h peer room_id r v space = record {
  named = v.named;
  distinct = insert-Distinct (h peer).id peer r.peers v.distinct;
  within = λ lim. ground (arith, v.within lim, length-insert (h peer).id peer r.peers);
  members = λ id q f. ground (
    arith,
    lookup-insert (h peer).id id peer r.peers,
    eq_iff (h peer).id id,
    v.members id q,
    v.named,
  );
}
