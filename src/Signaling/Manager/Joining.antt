-- ===== src/Signaling/Manager/Joining.antt =====
-- backend/internal/signaling/room.go: joining, leaving and the clean-up of rooms.
use text.Mathlib.Text.{◌==◌ as str_eq}
use text.Mathlib.TextEquality.{eq_iff}
use altair.Prelude.{
  inl, inr, ◌⊎◌, ℕ, ◌≡◌, ◌≢◌, refl, sym, ◌∙◌, String, not, none, some, arith, Bool-cases,
  Option-cases, length, ltb, leb, ◌&&◌,
}
use altair.Signaling.Peer.{Heap, set_room_id}
use altair.Signaling.Dict.{lookup, delete, lookup-insert, lookup-delete, Distinct, insert-Distinct}
use altair.Signaling.Room.{Room, add, remove, new_room}
use altair.Signaling.Manager.{
  Manager, get, put, get_or_create, remove_from, leave_current, enter, join_room, leave_room,
}
use altair.Signaling.Manager.Consistent.{IsRoom, IsConsistent, keep_room, remove-IsRoom, add-IsRoom}

-- A room put under its key among rooms in order.
put-IsConsistent :
    (rm : Manager) (h : Heap) (room_id : String) (r : Room)
    → IsRoom h room_id r
    → room_id ≢ ""
    → Distinct rm.rooms
    → lookup "" rm.rooms ≡ none
    → ((other : String) (q : Room)
        → lookup other rm.rooms ≡ some q
        → room_id ≢ other
        → IsRoom h other q)
    → IsConsistent (put rm room_id r) h
unfolding put
put-IsConsistent rm h room_id r v name d e others = record {
  at_room = λ other q f.
      ground
        (arith, lookup-insert room_id other r rm.rooms, eq_iff room_id other, v, f, others other q);
  keys = insert-Distinct room_id r rm.rooms d;
  no_empty_name = ground (arith, lookup-insert room_id "" r rm.rooms, eq_iff room_id "", e, name);
}

-- Who is in one room in order is in no other.
apart :
    (h : Heap) (a b id id' : String) (r q : Room) (peer : ℕ)
    → IsRoom h a r
    → IsRoom h b q
    → lookup id r.peers ≡ some peer
    → a ≢ b
    → lookup id' q.peers ≢ some peer
apart h a b id id' r q peer v w e ne f = ne (sym (v.members id peer e).1 ∙ (w.members id' peer f).1)

pub remove_from-IsConsistent :
    (rm : Manager) (h : Heap) (room_id peer_id : String)
    → IsConsistent rm h
    → let (rm', h') = remove_from rm h room_id peer_id in IsConsistent rm' h'
unfolding remove_from get remove
remove_from-IsConsistent rm h room_id peer_id v = elim (Option-cases (lookup room_id rm.rooms)) [
  | inl e ↦ rw (e, remove_from, get) v
  | inr (r, e) ↦
      let name : room_id ≢ "" = ground (arith, v.no_empty_name, e) in
      elim (Option-cases (lookup peer_id r.peers)) [
        | inl f ↦
            rw (e, remove_from, get, f, remove)
              (put-IsConsistent rm h room_id r (v.at_room room_id r e) name v.keys v.no_empty_name
                (λ other q g ne. v.at_room other q g))
        | inr (peer, f) ↦
            rw (e, remove_from, get, f, remove)
              (put-IsConsistent rm _ room_id _
                (remove-IsRoom h peer room_id peer_id r (v.at_room room_id r e) f) name v.keys
                v.no_empty_name
                (λ other q g ne. keep_room h peer other "" q (v.at_room other q g) (λ id.
                  apart h room_id other peer_id id r q peer (v.at_room room_id r e)
                    (v.at_room other q g) f ne)))
      ]
]

-- A peer keeps its ID, and its room if it does not lose it.
pub remove_from-peer :
    (rm : Manager) (h : Heap) (room_id peer_id : String) (peer : ℕ)
    → let (rm', h') = remove_from rm h room_id peer_id in
      ((h' peer).id ≡ (h peer).id)
      × (((h' peer).room_id ≡ "") ⊎ ((h' peer).room_id ≡ (h peer).room_id))
unfolding remove_from get remove set_room_id
remove_from-peer rm h room_id peer_id peer = elim (Option-cases (lookup room_id rm.rooms)) [
  | inl e ↦ rw (e, remove_from, get) (refl, inr refl)
  | inr (r, e) ↦ elim (Option-cases (lookup peer_id r.peers)) [
    | inl f ↦ rw (e, f, remove_from, get, remove) (refl, inr refl)
    | inr (p, f) ↦ ground (arith, e, f)
  ]
]

pub remove_from-gone :
    (rm : Manager) (h : Heap) (room_id peer_id : String) (q : Room)
    → lookup room_id (remove_from rm h room_id peer_id).0.rooms ≡ some q
    → lookup peer_id q.peers ≡ none
unfolding remove_from get remove put
remove_from-gone rm h room_id peer_id q e = elim (Option-cases (lookup room_id rm.rooms)) [
  | inl f ↦ ground (arith, e, f)
  | inr (r, f) ↦ ground (
    arith,
    e,
    f,
    eq_iff room_id room_id,
    eq_iff peer_id peer_id,
    lookup-insert room_id room_id r rm.rooms,
    lookup-insert room_id room_id (record r { peers = delete peer_id r.peers }) rm.rooms,
    lookup-delete peer_id peer_id r.peers,
  )
]

pub leave_current-IsConsistent :
    (rm : Manager) (h : Heap) (peer : ℕ) (room_id : String)
    → IsConsistent rm h
    → let (rm', h') = leave_current rm h peer room_id in IsConsistent rm' h'
unfolding leave_current
leave_current-IsConsistent rm h peer room_id v =
    elim (Bool-cases (not (str_eq (h peer).room_id "") && not (str_eq (h peer).room_id room_id))) [
      | inl e ↦ rw e (remove_from-IsConsistent rm h (h peer).room_id (h peer).id v)
      | inr e ↦ rw e v
    ]

-- Leaving the current room takes the peer out of every room but the one to join.
leave_current-out :
    (rm : Manager) (h : Heap) (peer : ℕ) (room_id other id : String) (q : Room)
    → IsConsistent rm h
    → lookup other (leave_current rm h peer room_id).0.rooms ≡ some q
    → room_id ≢ other
    → lookup id q.peers ≢ some peer
leave_current-out rm h peer room_id other id q v e ne f =
    let w =
      ((leave_current-IsConsistent rm h peer room_id v).at_room other q e).members id peer f in
    unfold leave_current in
    ground (
      arith,
      w,
      e,
      f,
      v.no_empty_name,
      eq_iff (h peer).room_id "",
      eq_iff (h peer).room_id room_id,
      remove_from-peer rm h (h peer).room_id (h peer).id peer,
      remove_from-gone rm h (h peer).room_id (h peer).id q,
      (remove_from-IsConsistent rm h (h peer).room_id (h peer).id v).no_empty_name,
    )

-- The room to join is there afterwards, in order, and no other is changed.
pub created_lem :
    (rm : Manager) (h : Heap) (room_id : String) (now : ℕ)
    → IsConsistent rm h
    → let (rm', r) = get_or_create rm room_id now in
      IsRoom h room_id r
      × (lookup room_id rm'.rooms ≡ some r)
      × Distinct rm'.rooms
      × ((other : String) → room_id ≢ other → lookup other rm'.rooms ≡ lookup other rm.rooms)
unfolding get_or_create get put new_room
created_lem rm h room_id now v = elim (Option-cases (lookup room_id rm.rooms)) [
  | inr (r, e) ↦ rw (e, get_or_create, get) (v.at_room room_id r e, e, v.keys, λ other ne. refl)
  | inl e ↦
      let r : Room = record (new_room room_id now) { max_peers = rm.default_max_peers } in
      let good : IsRoom h room_id r = record {
        named = unfold new_room in refl;
        distinct = unfold new_room in tt;
        within = λ lim. unfold new_room in omega arith;
        members = λ id p f. unfold new_room lookup in ground (arith, f);
      } in
      rw (e, get_or_create, get)
        (
          good,
          ground (arith, lookup-insert room_id room_id r rm.rooms, eq_iff room_id room_id),
          insert-Distinct room_id r rm.rooms v.keys,
          λ other ne.
              ground (arith, lookup-insert room_id other r rm.rooms, eq_iff room_id other, ne),
        )
]

-- Entering a room by a peer that is in no other.
enter-IsConsistent :
    (rm : Manager) (h : Heap) (peer : ℕ) (room_id : String) (now : ℕ)
    → IsConsistent rm h
    → room_id ≢ ""
    → ((other id : String) (q : Room)
        → lookup other rm.rooms ≡ some q
        → room_id ≢ other
        → lookup id q.peers ≢ some peer)
    → let (rm', h', joined) = enter rm h peer room_id now in IsConsistent rm' h'
unfolding enter add
enter-IsConsistent rm h peer room_id now v name out =
    let rm1 = (get_or_create rm room_id now).0 in
    let r = (get_or_create rm room_id now).1 in
    let (good, here, keys, same) = created_lem rm h room_id now v in
    elim (Bool-cases (ltb 0 r.max_peers && leb r.max_peers (length r.peers))) [
      | inl e ↦
          rw (e, enter, add)
            (record {
              at_room = λ other q f. elim (Bool-cases (str_eq room_id other)) [
                | inl t ↦ ground (arith, t, f, here, good, eq_iff room_id other)
                | inr t ↦ v.at_room other q (ground (arith, t, f, same other, eq_iff room_id other))
              ];
              keys = keys;
              no_empty_name = same "" name ∙ v.no_empty_name;
            })
      | inr e ↦
          rw (e, enter, add)
            (put-IsConsistent rm1 _ room_id _ (add-IsRoom h peer room_id r good e) name keys
              (same "" name ∙ v.no_empty_name)
              (λ other q f ne.
                keep_room h peer other r.id q (v.at_room other q (sym (same other ne) ∙ f))
                  (λ id. out other id q (sym (same other ne) ∙ f) ne)))
    ]

-- JoinRoom keeps the rooms and the peers in agreement, whether the room takes the peer or is full:
-- for a room name that is not empty, if before the call every room is kept under its name, which
-- is not empty and occurs once, is within its limit, has every ID once and every peer in it has
-- that ID and that room, so it is afterwards.
pub join_room-IsConsistent :
    (rm : Manager) (h : Heap) (peer : ℕ) (room_id : String) (now : ℕ)
    → IsConsistent rm h
    → room_id ≢ ""
    → let (rm', h', joined) = join_room rm h peer room_id now in IsConsistent rm' h'
unfolding join_room
join_room-IsConsistent rm h peer room_id now v name =
    enter-IsConsistent _ _ peer room_id now (leave_current-IsConsistent rm h peer room_id v) name
      (λ other id q e ne. leave_current-out rm h peer room_id other id q v e ne)

pub leave_room-IsConsistent :
    (rm : Manager) (h : Heap) (peer : ℕ)
    → IsConsistent rm h
    → let (rm', h') = leave_room rm h peer in IsConsistent rm' h'
unfolding leave_room
leave_room-IsConsistent rm h peer v = elim (Bool-cases (str_eq (h peer).room_id "")) [
  | inl e ↦ rw e v
  | inr e ↦ rw e (remove_from-IsConsistent rm h (h peer).room_id (h peer).id v)
]
