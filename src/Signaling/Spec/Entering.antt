-- ===== src/Signaling/Spec/Entering.antt =====
-- backend/internal/signaling: a join, on rooms and peers as one assignment of rooms.
use text.Mathlib.Text.{◌==◌ as str_eq}
use text.Mathlib.TextEquality.{eq_iff}
use altair.Prelude.{ℕ, ◌≡◌, ◌≢◌, String, some, inl, inr, arith, Bool-cases, Option-cases, ◌==◌}
use altair.Signaling.Peer.{Heap, update, set_room_id}
use altair.Signaling.Dict.{lookup, insert, lookup-insert}
use altair.Signaling.Room.{Room, add, new_room}
use altair.Signaling.Manager.{Manager, get, put, get_or_create, enter}
use altair.Signaling.Manager.Consistent.{IsConsistent}
use altair.Signaling.Manager.Joining.{created_lem}
use altair.Signaling.Spec.{Assignment, move}
use altair.Signaling.Spec.Placed.{IsPlaced, IsAt}

-- The room to join: the one there was, or a new one without a limit.
target_room :
    (rm : Manager) (h : Heap) (f : Assignment) (room_id : String) (now : ℕ)
    → IsPlaced rm h f
    → let (rm', r) = get_or_create rm room_id now in
      (r.max_peers ≡ 0)
      × (rm'.default_max_peers ≡ 0)
      × ((q : Room) → lookup room_id rm.rooms ≡ some q → q ≡ r)
unfolding get_or_create get put new_room
target_room rm h f room_id now v = elim (Option-cases (lookup room_id rm.rooms)) [
  | inl e ↦ rw (e, get_or_create, get) (v.no_default, v.no_default, λ q k. ground (arith, k))
  | inr (r, e) ↦
      rw (e, get_or_create, get) (v.no_limit room_id r e, v.no_default, λ q k. ground (arith, k))
]

-- Rooms and peers once the peer is in.
abbrev pub with_peer : Manager → Heap → ℕ → String → Room → Manager
with_peer rm h peer room_id r =
    put rm room_id (record r { peers = insert (h peer).id peer r.peers })

abbrev pub inside : Heap → ℕ → Room → Heap
inside h peer r = update h peer (set_room_id (h peer) r.id)

pub entered_value :
    (rm : Manager) (h : Heap) (f : Assignment) (peer : ℕ) (room_id : String) (now : ℕ)
    → IsPlaced rm h f
    → let (rm1, r) = get_or_create rm room_id now in
      enter rm h peer room_id now ≡ (
        with_peer rm1 h peer room_id r,
        inside h peer r,
        some (record r { peers = insert (h peer).id peer r.peers }),
      )
unfolding enter add
entered_value rm h f peer room_id now v = ground (arith, target_room rm h f room_id now v)

-- The others stay where they are.
stays :
    (rm : Manager) (h : Heap) (f : Assignment) (peer : ℕ) (room_id : String) (now p : ℕ)
    → IsPlaced rm h f
    → (h peer).id ≢ ""
    → (h p).room_id ≢ ""
    → peer ≢ p
    → let (rm1, r) = get_or_create rm room_id now in IsAt (with_peer rm1 h peer room_id r) h p
unfolding put
stays rm h f peer room_id now p v named placed ne =
    let (rm1, r) = get_or_create rm room_id now in
    let (r0, e0, k0) = v.at p placed in
    let r' : Room = record r { peers = insert (h peer).id peer r.peers } in
    let (good, here, keys, same) = created_lem rm h room_id now v.agrees in
    let inserted = lookup-insert room_id (h p).room_id r' rm1.rooms in
    elim (Bool-cases (str_eq room_id (h p).room_id)) [
      | inl s ↦
          let one = (target_room rm h f room_id now v).2 r0 in
          (
            r',
            ground (arith, s, inserted),
            ground (
              arith,
              lookup-insert (h peer).id (h p).id peer r.peers,
              eq_iff (h peer).id (h p).id,
              v.unique peer p named,
              ne,
              eq_iff room_id (h p).room_id,
              s,
              one,
              e0,
              k0,
            ),
          )
      | inr s ↦ (
        r0,
        ground (arith, s, inserted, e0, same (h p).room_id, eq_iff room_id (h p).room_id),
        k0,
      )
    ]

pub entered-IsPlaced :
    (rm : Manager) (h : Heap) (f : Assignment) (peer : ℕ) (room_id : String) (now : ℕ)
    → IsPlaced rm h f
    → (h peer).id ≢ ""
    → room_id ≢ ""
    → let (rm1, r) = get_or_create rm room_id now in
      IsConsistent (with_peer rm1 h peer room_id r) (inside h peer r)
      → IsPlaced (with_peer rm1 h peer room_id r) (inside h peer r) (move f peer room_id)
unfolding put set_room_id
entered-IsPlaced rm h f peer room_id now v named name w =
    let (rm1, r) = get_or_create rm room_id now in
    let r' : Room = record r { peers = insert (h peer).id peer r.peers } in
    let (good, here, keys, same) = created_lem rm h room_id now v.agrees in
    let (free, default, one) = target_room rm h f room_id now v in
    record {
      agrees = w;
      no_default = default;
      no_limit = λ id q k. ground (
        arith,
        k,
        lookup-insert room_id id r' rm1.rooms,
        v.no_limit id q,
        free,
        same id,
        eq_iff room_id id,
      );
      at = λ p ne. elim (Bool-cases (peer == p)) [
        | inl t ↦ rw t (
          r',
          ground (
            arith,
            lookup-insert room_id room_id r' rm1.rooms,
            good.named,
            eq_iff room_id room_id,
          ),
          ground (
            arith,
            t,
            lookup-insert (h peer).id (h peer).id peer r.peers,
            eq_iff (h peer).id (h peer).id,
          ),
        )
        | inr t ↦ rw t (
            stays rm h f peer room_id now p v named (λ n. ne (ground (arith, t, n)))
              (λ n. ground (arith, t, n)))
      ];
      unique = λ p q. ground (arith, v.unique p q);
      nameless = λ p. ground (arith, v.nameless p, named);
      follows = λ p. ground (arith, v.follows p, good.named);
    }
