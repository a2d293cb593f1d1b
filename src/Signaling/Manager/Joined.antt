-- ===== src/Signaling/Manager/Joined.antt =====
-- backend/internal/signaling/room.go: what a peer finds after `JoinRoom`.
use text.Mathlib.TextEquality.{eq_iff}
use altair.Prelude.{
  inl, inr, ℕ, ◌≤◌, ◌<◌, ◌≡◌, sym, String, Option, none, some, arith, Bool-cases, length, ltb, leb,
  ◌&&◌,
}
use altair.Signaling.Peer.{Heap, set_room_id}
use altair.Signaling.Dict.{lookup, insert, lookup-insert}
use altair.Signaling.Room.{Room, add}
use altair.Signaling.Manager.{Manager, put, get_or_create, leave_current, enter, join_room}
use altair.Signaling.Manager.Joining.{created_lem, remove_from-peer, leave_current-IsConsistent}
use altair.Signaling.Manager.Consistent.{IsConsistent}

-- What a peer finds after `JoinRoom`.
unfoldable pub JoinOutcome : Manager → Heap → ℕ → String → String → Option Room → Type 0
JoinOutcome rm h peer id room_id none =
    (r : Room) × (lookup room_id rm.rooms ≡ some r)
    × (0 < r.max_peers)
    × (r.max_peers ≤ length r.peers)
JoinOutcome rm h peer id room_id (some r) =
    ((h peer).room_id ≡ room_id)
    × (lookup room_id rm.rooms ≡ some r)
    × (lookup id r.peers ≡ some peer)

enter_outcome :
    (rm : Manager) (h : Heap) (peer : ℕ) (room_id : String) (now : ℕ)
    → IsConsistent rm h
    → let (rm', h', joined) = enter rm h peer room_id now in
      JoinOutcome rm' h' peer (h peer).id room_id joined
unfolding enter add set_room_id put JoinOutcome
enter_outcome rm h peer room_id now v =
    let rm1 = (get_or_create rm room_id now).0 in
    let r = (get_or_create rm room_id now).1 in
    let (good, here, keys, same) = created_lem rm h room_id now v in
    elim (Bool-cases (ltb 0 r.max_peers && leb r.max_peers (length r.peers))) [
      | inl e ↦ rw (e, enter, add) (r, here, ground (arith, e), ground (arith, e))
      | inr e ↦
          rw (e, enter, add)
            (
              ground (arith, good.named),
              ground (
                arith,
                eq_iff room_id room_id,
                lookup-insert room_id room_id (record r { peers = insert (h peer).id peer r.peers })
                    rm1.rooms,
              ),
              ground (
                arith,
                eq_iff (h peer).id (h peer).id,
                lookup-insert (h peer).id (h peer).id peer r.peers,
              ),
            )
    ]

leave_current-id :
    (rm : Manager) (h : Heap) (peer : ℕ) (room_id : String)
    → ((leave_current rm h peer room_id).1 peer).id ≡ (h peer).id
unfolding leave_current
leave_current-id rm h peer room_id =
    ground (arith, remove_from-peer rm h (h peer).room_id (h peer).id peer)

-- JoinRoom from a consistent state has one of two outcomes. Without an error, the peer knows the
-- room by its name, and the room, which is the one kept under that name, holds it under its ID.
-- With the error, the room is kept under that name, has a limit and is full.
pub join_room_outcome :
    (rm : Manager) (h : Heap) (peer : ℕ) (room_id : String) (now : ℕ)
    → IsConsistent rm h
    → let (rm', h', joined) = join_room rm h peer room_id now in
      JoinOutcome rm' h' peer (h peer).id room_id joined
unfolding join_room
join_room_outcome rm h peer room_id now v =
    let (rm1, h1) = leave_current rm h peer room_id in
    rw (sym (leave_current-id rm h peer room_id))
      (enter_outcome _ _ peer room_id now (leave_current-IsConsistent rm h peer room_id v))
