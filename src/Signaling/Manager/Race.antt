-- ===== src/Signaling/Manager/Race.antt =====
-- backend/internal/signaling/room.go, `JoinRoom` and `CleanupEmpty` at the same time: each call locks
-- the map of rooms, but a clean-up can run between the look-up of a room and `Add`.
use mathlib.Core.Path.{subst}
use text.Mathlib.TextEquality.{eq_iff}
use altair.Prelude.{
  ℕ, ◌-◌, ◌<◌, ◌≡◌, refl, sym, String, true, [], ◌∷◌, Option, none, some, arith, length,
}
use altair.Signaling.Peer.{Heap, update, set_room_id}
use altair.Signaling.Dict.{Dict, insert, Distinct, lookup-insert}
use altair.Signaling.Room.{Room, add, is_empty, count, new_room}
use altair.Signaling.Manager.{Manager, get, put, get_or_create, remove_from, enter, cleanup_empty}
use altair.Signaling.Manager.Cleanup.{cleanup_empty_lem}

-- The second half of `JoinRoom` with a clean-up at the time `later` before `Add`. `Add` changes the
-- room that was looked up, which the map of rooms shows if it still has that room.
unfoldable pub enter_late : Manager → Heap → ℕ → String → ℕ → ℕ → Manager × Heap × Option Room
enter_late rm h peer room_id now later =
    let (rm1, r) = get_or_create rm room_id now in
    let rm2 = (cleanup_empty rm1 later).0 in
    elim (add r h peer) [
      | none ↦ (rm2, h, none)
      | some (r', h') ↦ elim (get rm2 room_id) [
        | none ↦ (rm2, h', some r')
        | some kept ↦ (put rm2 room_id r', h', some r')
      ]
    ]

nobody : (r : Room) → is_empty r ≡ true → r.peers ≡ []
unfolding is_empty count
nobody r e = no_length r.peers (ground (arith, e))
  where
    no_length : (d : Dict ℕ) → length d ≡ 0 → d ≡ []
    no_length [] k = refl
    no_length (x ∷ d) k = ground (arith, k)

-- An empty room takes a peer whatever its limit.
add_first :
    (r : Room) (h : Heap) (peer : ℕ)
    → r.peers ≡ []
    → add r h peer
      ≡ some
          (record r { peers = ((h peer).id, peer) ∷ [] }, update h peer (set_room_id (h peer) r.id))
unfolding add insert
add_first r h peer e = rw (e, add, insert) (ground arith)

existing :
    (rm : Manager) (room_id : String) (now : ℕ) (r : Room)
    → get rm room_id ≡ some r
    → get_or_create rm room_id now ≡ (rm, r)
unfolding get_or_create
existing rm room_id now r e = rw (e, get_or_create) refl

created :
    (rm : Manager) (room_id : String) (now : ℕ)
    → get rm room_id ≡ none
    → let r : Room = record (new_room room_id now) { max_peers = rm.default_max_peers } in
      get_or_create rm room_id now ≡ (put rm room_id r, r)
unfolding get_or_create
created rm room_id now e = rw (e, get_or_create) refl

late_value :
    (rm : Manager) (h : Heap) (peer : ℕ) (room_id : String) (now later : ℕ) (r : Room)
    → get rm room_id ≡ some r
    → is_empty r ≡ true
    → get (cleanup_empty rm later).0 room_id ≡ none
    → enter_late rm h peer room_id now later ≡ (
      (cleanup_empty rm later).0,
      update h peer (set_room_id (h peer) r.id),
      some (record r { peers = ((h peer).id, peer) ∷ [] }),
    )
unfolding enter_late
late_value rm h peer room_id now later r e none_in gone =
    ground (arith, existing rm room_id now r e, add_first r h peer (nobody r none_in), gone)

-- Who comes next is in a room of its own.
alone :
    (rm : Manager) (h : Heap) (q : ℕ) (room_id : String) (next : ℕ)
    → get rm room_id ≡ none
    → get (enter rm h q room_id next).0 room_id
      ≡ some (record (new_room room_id next) {
        max_peers = rm.default_max_peers;
        peers = ((h q).id, q) ∷ [];
      })
unfolding enter put get new_room
alone rm h q room_id next e =
    let r : Room = record (new_room room_id next) { max_peers = rm.default_max_peers } in
    ground (
      arith,
      created rm room_id next e,
      add_first r h q refl,
      eq_iff room_id room_id,
      lookup-insert room_id room_id (record r { peers = ((h q).id, q) ∷ [] })
          (insert room_id r rm.rooms),
    )

-- If a clean-up runs in JoinRoom between the look-up of a room and Add, and the room is kept under
-- its name, has no peer and is older than the time to live, the peer joins without an error and
-- knows the room by its name, but no room is kept under that name, leaving it changes nothing, and
-- whoever enters the room of that name next is alone in a new one.
pub late_join_lost :
    (rm : Manager) (h : Heap) (peer : ℕ) (room_id : String) (now later : ℕ) (r : Room)
    → Distinct rm.rooms
    → get rm room_id ≡ some r
    → r.id ≡ room_id
    → is_empty r ≡ true
    → r.created_at < later - rm.empty_room_ttl
    → let (rm', h', joined) = enter_late rm h peer room_id now later in
      (joined ≡ some (record r { peers = ((h peer).id, peer) ∷ [] }))
      × ((h' peer).room_id ≡ room_id)
      × (get rm' room_id ≡ none)
      × (remove_from rm' h' room_id (h peer).id ≡ (rm', h'))
      × ((q next : ℕ)
          → get (enter rm' h' q room_id next).0 room_id
            ≡ some (record (new_room room_id next) {
              max_peers = rm.default_max_peers;
              peers = ((h' q).id, q) ∷ [];
            }))
unfolding set_room_id remove_from
late_join_lost rm h peer room_id now later r keys e named none_in old =
    let gone : get (cleanup_empty rm later).0 room_id ≡ none =
      ground (arith, (cleanup_empty_lem rm later room_id keys).0, e, none_in, old) in
    let value = late_value rm h peer room_id now later r e none_in gone in
    let left = (cleanup_empty rm later).0 in
    let h' = update h peer (set_room_id (h peer) r.id) in
    subst
      (λ (x : Manager × Heap × Option Room).
        (x.2 ≡ (some (record r { peers = ((h peer).id, peer) ∷ [] })))
        × ((x.1 peer).room_id ≡ room_id)
        × (get x.0 room_id ≡ none)
        × (remove_from x.0 x.1 room_id (h peer).id ≡ (x.0, x.1))
        × ((q next : ℕ)
            → get (enter x.0 x.1 q room_id next).0 room_id
              ≡ some (record (new_room room_id next) {
                max_peers = rm.default_max_peers;
                peers = ((x.1 q).id, q) ∷ [];
              })))
      (sym value)
      (
        refl,
        ground (arith, named),
        gone,
        rw (gone, remove_from) refl,
        λ q next. unfold cleanup_empty in alone left h' q room_id next gone,
      )
