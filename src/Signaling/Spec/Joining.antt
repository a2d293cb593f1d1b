-- ===== src/Signaling/Spec/Joining.antt =====
-- backend/internal/signaling, `JoinRoom`, on rooms and peers as one assignment of rooms.
use mathlib.Core.Path.{subst}
use text.Mathlib.Text.{◌==◌ as str_eq}
use text.Mathlib.TextEquality.{eq_iff}
use altair.Prelude.{
  ℕ, ◌≡◌, ◌≢◌, refl, sym, ap, not, ◌&&◌, false, ◌∙◌, String, some, inl, inr, arith, Bool-cases,
}
use altair.Signaling.Peer.{Heap, set_room_id}
use altair.Signaling.Room.{Room}
use altair.Signaling.Manager.{Manager, leave_current, join_room}
use altair.Signaling.Manager.Consistent.{IsConsistent}
use altair.Signaling.Manager.Joining.{created_lem, join_room-IsConsistent, remove_from-peer}
use altair.Signaling.Spec.{Assignment, move}
use altair.Signaling.Spec.Entering.{entered_value, entered-IsPlaced}
use altair.Signaling.Spec.Placed.{IsPlaced, same-IsPlaced}
use altair.Signaling.Spec.Leaving.{remove_from-IsPlaced, removed_value}

-- Leaving the current room first, if there is one, leads to the same assignment in the end.
left_first :
    (rm : Manager) (h : Heap) (f : Assignment) (peer : ℕ) (room_id : String)
    → IsPlaced rm h f
    → (h peer).room_id ≢ room_id
    → let (rm', h') = leave_current rm h peer room_id in
      IsPlaced rm' h' (move f peer "") × ((h' peer).id ≡ (h peer).id)
unfolding leave_current
left_first rm h f peer room_id v ne = elim (Bool-cases (str_eq (h peer).room_id "")) [
  | inl e ↦
      rw (e, leave_current)
        (
          same-IsPlaced rm h f (move f peer "")
              (λ p. ground (arith, v.follows p, e, eq_iff (h peer).room_id "")) v,
          refl,
        )
  | inr e ↦
      let other : str_eq (h peer).room_id room_id ≡ false =
        ground (arith, ne, eq_iff (h peer).room_id room_id) in
      rw (e, other, leave_current)
        (
          remove_from-IsPlaced rm h f peer v (ground (arith, e, eq_iff (h peer).room_id "")),
          (remove_from-peer rm h (h peer).room_id (h peer).id peer).0,
        )
]

-- Without limits every join of another room succeeds.
pub join_room-IsPlaced :
    (rm : Manager) (h : Heap) (f : Assignment) (peer : ℕ) (room_id : String) (now : ℕ)
    → IsPlaced rm h f
    → (h peer).id ≢ ""
    → room_id ≢ ""
    → (h peer).room_id ≢ room_id
    → let (rm', h', joined) = join_room rm h peer room_id now in
      IsPlaced rm' h' (move f peer room_id) × ((r : Room) × (joined ≡ some r))
unfolding join_room
join_room-IsPlaced rm h f peer room_id now v named name ne =
    let (rm1, h1) = leave_current rm h peer room_id in
    let (v1, same) = left_first rm h f peer room_id v ne in
    let value = entered_value rm1 h1 (move f peer "") peer room_id now v1 in
    let w = join_room-IsConsistent rm h peer room_id now v.agrees name in
    let placed =
      entered-IsPlaced rm1 h1 (move f peer "") peer room_id now v1 (λ e. named (sym same ∙ e)) name
        (subst (λ x. IsConsistent x.0 x.1) value w) in
    (
      subst (λ x. IsPlaced x.0 x.1 (move f peer room_id)) (sym value)
          (same-IsPlaced _ _ _ (move f peer room_id) (λ p. ground arith) placed),
      (_, ap (λ x. x.2) value),
    )

left_others :
    (rm : Manager) (h : Heap) (f : Assignment) (peer : ℕ) (room_id : String) (q : ℕ)
    → IsPlaced rm h f
    → peer ≢ q
    → (leave_current rm h peer room_id).1 q ≡ h q
unfolding leave_current
left_others rm h f peer room_id q v ne =
    elim (Bool-cases (not (str_eq (h peer).room_id "") && not (str_eq (h peer).room_id room_id))) [
      | inl e ↦
          let (r, k, there) = v.at peer (ground (arith, e, eq_iff (h peer).room_id "")) in
          rw e (ap (λ x. x.1 q) (removed_value rm h peer r k there) ∙ ground (arith, ne))
      | inr e ↦ rw e refl
    ]

-- A join changes no other peer.
pub join_room_others :
    (rm : Manager) (h : Heap) (f : Assignment) (peer : ℕ) (room_id : String) (now q : ℕ)
    → IsPlaced rm h f
    → (h peer).room_id ≢ room_id
    → peer ≢ q
    → (join_room rm h peer room_id now).1 q ≡ h q
unfolding join_room
join_room_others rm h f peer room_id now q v ne other =
    let (rm1, h1) = leave_current rm h peer room_id in
    let (v1, same) = left_first rm h f peer room_id v ne in
    ap (λ x. x.1 q) (entered_value rm1 h1 (move f peer "") peer room_id now v1)
    ∙ ground (arith, other, left_others rm h f peer room_id q v other)

left_self :
    (rm : Manager) (h : Heap) (f : Assignment) (peer : ℕ) (room_id : String)
    → IsPlaced rm h f
    → set_room_id ((leave_current rm h peer room_id).1 peer) room_id ≡ set_room_id (h peer) room_id
unfolding leave_current set_room_id
left_self rm h f peer room_id v =
    elim (Bool-cases (not (str_eq (h peer).room_id "") && not (str_eq (h peer).room_id room_id))) [
      | inl e ↦
          let (r, k, there) = v.at peer (ground (arith, e, eq_iff (h peer).room_id "")) in
          rw e (
            ap (λ x. set_room_id (x.1 peer) room_id) (removed_value rm h peer r k there)
            ∙ ground arith)
      | inr e ↦ rw e refl
    ]

-- The peer itself gets the name of its room, and is the same otherwise.
pub join_room_self :
    (rm : Manager) (h : Heap) (f : Assignment) (peer : ℕ) (room_id : String) (now : ℕ)
    → IsPlaced rm h f
    → (h peer).room_id ≢ room_id
    → (join_room rm h peer room_id now).1 peer ≡ set_room_id (h peer) room_id
unfolding join_room
join_room_self rm h f peer room_id now v ne =
    let (rm1, h1) = leave_current rm h peer room_id in
    let (v1, same) = left_first rm h f peer room_id v ne in
    let (good, here, keys, others) = created_lem rm1 h1 room_id now v1.agrees in
    ap (λ x. x.1 peer) (entered_value rm1 h1 (move f peer "") peer room_id now v1)
    ∙ ground (arith, good.named)
    ∙ left_self rm h f peer room_id v
