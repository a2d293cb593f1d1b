-- ===== src/Signaling/Manager.antt =====
-- backend/internal/signaling/room.go, `RoomManager`. A room is changed through the map that holds it.
pub mod Consistent
pub mod Joining
pub mod Joined
pub mod Cleanup
pub mod Race
use text.Mathlib.Text.{◌==◌ as str_eq}
use altair.Prelude.{
  ℕ, ◌+◌, ◌-◌, String, Bool, true, false, not, ◌&&◌, List, [], ◌∷◌, Option, none, some, ltb,
  if◌then◌else◌, length,
}
use altair.Signaling.Peer.{Heap}
use altair.Signaling.Dict.{Dict, lookup, insert, delete}
use altair.Signaling.Room.{Room, new_room, add, remove, is_empty, count}

pub record Manager : Type 0 where
  pub rooms : Dict Room
  pub default_max_peers : ℕ
  pub empty_room_ttl : ℕ

-- Five minutes, in nanoseconds.
unfoldable pub new_manager : Manager
new_manager = record { rooms = []; default_max_peers = 0; empty_room_ttl = 300000000000 }

unfoldable pub get : Manager → String → Option Room
get rm room_id = lookup room_id rm.rooms

unfoldable pub put : Manager → String → Room → Manager
put rm room_id r = record rm { rooms = insert room_id r rm.rooms }

unfoldable pub get_or_create : Manager → String → ℕ → Manager × Room
get_or_create rm room_id now = elim (get rm room_id) [
  | some r ↦ (rm, r)
  | none ↦
      let r = record (new_room room_id now) { max_peers = rm.default_max_peers } in
      (put rm room_id r, r)
]

unfoldable pub delete_room : Manager → String → Manager
delete_room rm room_id = record rm { rooms = delete room_id rm.rooms }

-- currentRoom.Remove(peer.ID), if the room is there.
unfoldable pub remove_from : Manager → Heap → String → String → Manager × Heap
remove_from rm h room_id peer_id = elim (get rm room_id) [
  | none ↦ (rm, h)
  | some r ↦ let (r', h') = remove r h peer_id in (put rm room_id r', h')
]

-- The first half of `JoinRoom`: leaving the current room for another.
unfoldable pub leave_current : Manager → Heap → ℕ → String → Manager × Heap
leave_current rm h peer room_id =
    let current = (h peer).room_id in
    if not (str_eq current "") && not (str_eq current room_id)
    then remove_from rm h current (h peer).id
    else (rm, h)

-- The second half: `none` is the error of a full room, which was created if it was not there.
unfoldable pub enter : Manager → Heap → ℕ → String → ℕ → Manager × Heap × Option Room
enter rm h peer room_id now =
    let (rm', r) = get_or_create rm room_id now in
    elim (add r h peer) [
      | none ↦ (rm', h, none)
      | some (r', h') ↦ (put rm' room_id r', h', some r')
    ]

unfoldable pub join_room : Manager → Heap → ℕ → String → ℕ → Manager × Heap × Option Room
join_room rm h peer room_id now =
    let (rm', h') = leave_current rm h peer room_id in enter rm' h' peer room_id now

unfoldable pub leave_room : Manager → Heap → ℕ → Manager × Heap
leave_room rm h peer =
    if str_eq (h peer).room_id "" then (rm, h) else remove_from rm h (h peer).room_id (h peer).id

-- Rooms that stay, and the number of those that do not.
unfoldable pub sweep : Dict Room → ℕ → Dict Room × ℕ
sweep [] cutoff = ([], 0)
sweep ((id, r) ∷ rest) cutoff =
    let (kept, removed) = sweep rest cutoff in
    if is_empty r && ltb r.created_at cutoff then (kept, removed + 1) else ((id, r) ∷ kept, removed)

unfoldable pub cleanup_empty : Manager → ℕ → Manager × ℕ
cleanup_empty rm now =
    let (kept, removed) = sweep rm.rooms (now - rm.empty_room_ttl) in
    (record rm { rooms = kept }, removed)

unfoldable pub names : Dict Room → List String
names [] = []
names ((id, r) ∷ rest) = id ∷ names rest

-- RoomManager.List and RoomManager.Count
unfoldable pub room_ids : Manager → List String
room_ids rm = names rm.rooms

unfoldable pub room_count : Manager → ℕ
room_count rm = length rm.rooms

unfoldable pub total_peers : Dict Room → ℕ
total_peers [] = 0
total_peers ((id, r) ∷ rest) = count r + total_peers rest
