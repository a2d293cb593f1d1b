-- ===== src/Signaling/Spec/Leaving.antt =====
-- backend/internal/signaling: a departure, on rooms and peers as one assignment of rooms.
use text.Mathlib.Text.{◌==◌ as str_eq}
use text.Mathlib.TextEquality.{eq_iff}
use mathlib.Core.Path.{subst}
use altair.Prelude.{ℕ, ◌≡◌, ◌≢◌, refl, sym, some, inl, inr, arith, Bool-cases, ◌==◌}
use altair.Signaling.Peer.{Heap, update, set_room_id}
use altair.Signaling.Dict.{lookup, delete, lookup-insert, lookup-delete}
use altair.Signaling.Room.{Room, remove}
use altair.Signaling.Manager.{Manager, get, put, remove_from}
use altair.Signaling.Manager.Consistent.{IsConsistent}
use altair.Signaling.Manager.Joining.{remove_from-IsConsistent}
use altair.Signaling.Spec.{Assignment, move}
use altair.Signaling.Spec.Placed.{IsPlaced, IsAt}

-- The rooms without a peer, and the peers when it is in no room.
abbrev pub without : Manager → Heap → ℕ → Room → Manager
without rm h peer r = put rm (h peer).room_id (record r { peers = delete (h peer).id r.peers })

abbrev pub outside : Heap → ℕ → Heap
outside h peer = update h peer (set_room_id (h peer) "")

pub removed_value :
    (rm : Manager) (h : Heap) (peer : ℕ) (r : Room)
    → lookup (h peer).room_id rm.rooms ≡ some r
    → lookup (h peer).id r.peers ≡ some peer
    → remove_from rm h (h peer).room_id (h peer).id ≡ (without rm h peer r, outside h peer)
unfolding remove_from remove get
removed_value rm h peer r e there = rw (e, there, remove_from, remove, get) refl

-- The others stay where they are.
stays :
    (rm : Manager) (h : Heap) (f : Assignment) (peer p : ℕ) (r : Room)
    → IsPlaced rm h f
    → lookup (h peer).room_id rm.rooms ≡ some r
    → lookup (h peer).id r.peers ≡ some peer
    → (outside h peer p).room_id ≢ ""
    → IsAt (without rm h peer r) (outside h peer) p
unfolding put set_room_id
stays rm h f peer p r v e there ne =
    let r' : Room = record r { peers = delete (h peer).id r.peers } in
    elim (Bool-cases (peer == p)) [
      | inl t ↦ ground (arith, t, ne)
      | inr t ↦
          let (r0, e0, k0) = v.at p (λ n. ne (ground (arith, t, n))) in
          let inserted = lookup-insert (h peer).room_id (h p).room_id r' rm.rooms in
          rw t (elim (Bool-cases (str_eq (h peer).room_id (h p).room_id)) [
            | inl s ↦
                let same = (eq_iff (h peer).room_id (h p).room_id).0 s in
                (
                  r',
                  ground (arith, s, inserted),
                  ground (
                    arith,
                    lookup-delete (h peer).id (h p).id r.peers,
                    eq_iff (h peer).id (h p).id,
                    same,
                    e,
                    e0,
                    k0,
                    there,
                    t,
                  ),
                )
            | inr s ↦ (r0, ground (arith, s, inserted, e0), k0)
          ])
    ]

without-IsPlaced :
    (rm : Manager) (h : Heap) (f : Assignment) (peer : ℕ) (r : Room)
    → IsPlaced rm h f
    → lookup (h peer).room_id rm.rooms ≡ some r
    → lookup (h peer).id r.peers ≡ some peer
    → IsConsistent (without rm h peer r) (outside h peer)
    → IsPlaced (without rm h peer r) (outside h peer) (move f peer "")
unfolding put set_room_id
without-IsPlaced rm h f peer r v e there w =
    let r' : Room = record r { peers = delete (h peer).id r.peers } in
    record {
      agrees = w;
      no_default = v.no_default;
      no_limit = λ id q k. ground (
        arith,
        k,
        lookup-insert (h peer).room_id id r' rm.rooms,
        v.no_limit id q,
        v.no_limit (h peer).room_id r e,
      );
      at = λ p ne. stays rm h f peer p r v e there ne;
      unique = λ p q. ground (arith, v.unique p q);
      nameless = λ p. ground (arith, v.nameless p);
      follows = λ p. ground (arith, v.follows p);
    }

pub remove_from-IsPlaced :
    (rm : Manager) (h : Heap) (f : Assignment) (peer : ℕ)
    → IsPlaced rm h f
    → (h peer).room_id ≢ ""
    → let (rm', h') = remove_from rm h (h peer).room_id (h peer).id in
      IsPlaced rm' h' (move f peer "")
remove_from-IsPlaced rm h f peer v ne =
    let (r, e, there) = v.at peer ne in
    let value = removed_value rm h peer r e there in
    let w = remove_from-IsConsistent rm h (h peer).room_id (h peer).id v.agrees in
    let placed =
      without-IsPlaced rm h f peer r v e there (subst (λ x. IsConsistent x.0 x.1) value w) in
    subst (λ x. IsPlaced x.0 x.1 (move f peer "")) (sym value) placed
