-- ===== src/Signaling/Spec/Placed.antt =====
-- backend/internal/signaling: rooms and peers as one assignment of rooms, and what keeps it.
use text.Mathlib.Text.{◌==◌ as str_eq}
use text.Mathlib.TextEquality.{eq_iff}
use altair.Prelude.{
  ℕ, ◌≡◌, ◌≢◌, refl, sym, ◌∙◌, String, some, none, [], inl, inr, arith, Bool-cases, Option-cases,
  length, false, ltb, ◌&&◌, ◌-◌, if◌then◌else◌, ◌∷◌, ◌==◌,
}
use altair.Signaling.Peer.{Heap}
use altair.Signaling.Dict.{Dict, lookup, Distinct}
use altair.Signaling.Room.{Room, is_empty, count}
use altair.Signaling.Room.Broadcast.{lookup_held, held_lookup}
use altair.Signaling.Manager.{Manager, get, cleanup_empty}
use altair.Signaling.Manager.Consistent.{IsConsistent}
use altair.Signaling.Manager.Cleanup.{cleanup_empty_lem, cleanup_empty-IsConsistent}
use altair.Signaling.Handler.Kept.{Kept, Kept-IsConsistent}
use altair.Signaling.Spec.{Assignment, is_in}

-- The peer is in the room that it believes to be in, under its ID.
abbrev pub IsAt : Manager → Heap → ℕ → Type 0
IsAt rm h p =
    (r : Room) × (lookup (h p).room_id rm.rooms ≡ some r) × (lookup (h p).id r.peers ≡ some p)

pub record IsPlaced (rm : Manager) (h : Heap) (f : Assignment) : Type 0 where
  pub agrees : IsConsistent rm h
  pub no_default : rm.default_max_peers ≡ 0
  pub no_limit : (room_id : String) (r : Room) → lookup room_id rm.rooms ≡ some r → r.max_peers ≡ 0
  pub at : (p : ℕ) → (h p).room_id ≢ "" → IsAt rm h p
  pub unique : (p q : ℕ) → (h p).id ≢ "" → (h p).id ≡ (h q).id → p ≡ q
  pub nameless : (p : ℕ) → (h p).id ≡ "" → (h p).room_id ≡ ""
  pub follows : (p : ℕ) → (h p).room_id ≡ f p

pub Kept-IsPlaced :
    (rm : Manager) (h h' : Heap) (f : Assignment) → Kept h h' → IsPlaced rm h f → IsPlaced rm h' f
unfolding Kept
Kept-IsPlaced rm h h' f k v = record {
  agrees = Kept-IsConsistent rm h h' (unfold Kept in k) v.agrees;
  no_default = v.no_default;
  no_limit = v.no_limit;
  at = λ p ne. rw ((k p).0, (k p).1) (v.at p (λ e. ne ((k p).1 ∙ e)));
  unique = λ p q ne e. v.unique p q (λ n. ne ((k p).0 ∙ n)) (sym (k p).0 ∙ e ∙ (k q).0);
  nameless = λ p e. (k p).1 ∙ v.nameless p (sym (k p).0 ∙ e);
  follows = λ p. (k p).1 ∙ v.follows p;
}

-- The same rooms for all, by another assignment.
pub same-IsPlaced :
    (rm : Manager) (h : Heap) (f g : Assignment)
    → ((p : ℕ) → f p ≡ g p)
    → IsPlaced rm h f
    → IsPlaced rm h g
same-IsPlaced rm h f g e v = record {
  agrees = v.agrees;
  no_default = v.no_default;
  no_limit = v.no_limit;
  at = v.at;
  unique = v.unique;
  nameless = v.nameless;
  follows = λ p. v.follows p ∙ e p;
}

empty_lookup : (d : Dict ℕ) (id : String) → length d ≡ 0 → lookup id d ≡ none
unfolding lookup
empty_lookup [] id e = refl
empty_lookup ((j, p) ∷ d) id e = ground (arith, e)

-- A room that holds a peer is not empty.
held-is_empty : (r : Room) (id : String) (p : ℕ) → lookup id r.peers ≡ some p → is_empty r ≡ false
unfolding lookup is_empty count
held-is_empty r id p e = elim (Bool-cases (length r.peers == 0)) [
  | inl z ↦ ground (arith, z, e, empty_lookup r.peers id (ground (arith, z)))
  | inr z ↦ z
]

found :
    (rm : Manager) (now : ℕ) (id : String)
    → Distinct rm.rooms
    → lookup id (cleanup_empty rm now).0.rooms ≡ (elim (lookup id rm.rooms) [
      | none ↦ none
      | some r ↦ if is_empty r && ltb r.created_at (now - rm.empty_room_ttl) then none else some r
    ])
unfolding get
found rm now id d = (cleanup_empty_lem rm now id d).0

pub cleanup_empty-IsPlaced :
    (rm : Manager) (h : Heap) (f : Assignment) (now : ℕ)
    → IsPlaced rm h f
    → IsPlaced (cleanup_empty rm now).0 h f
cleanup_empty-IsPlaced rm h f now v = record {
  agrees = cleanup_empty-IsConsistent rm h now v.agrees;
  no_default = unfold cleanup_empty in v.no_default;
  no_limit = λ id r e. v.no_limit id r (ground (arith, e, (found rm now id v.agrees.keys)));
  at = λ p ne.
      let (r, e, f) = v.at p ne in
      (
        r,
        ground (arith, e, held-is_empty r (h p).id p f, found rm now (h p).room_id v.agrees.keys),
        f,
      );
  unique = v.unique;
  nameless = v.nameless;
  follows = v.follows;
}

-- What the rooms hold is what is assigned.
pub is_in-follows :
    (rm : Manager) (h : Heap) (f : Assignment) (room_id : String) (q : ℕ)
    → IsPlaced rm h f
    → room_id ≢ ""
    → is_in rm room_id q ≡ str_eq (f q) room_id
unfolding get
is_in-follows rm h f room_id q v name = elim (Option-cases (lookup room_id rm.rooms)) [
  | inl e ↦
      rw (e, is_in)
        (elim (Bool-cases (str_eq (f q) room_id)) [
          | inl t ↦
              let here = v.follows q ∙ (eq_iff (f q) room_id).0 t in
              let (r, g, k) = v.at q (λ n. name (sym here ∙ n)) in ground (arith, e, g, here)
          | inr t ↦ sym t
        ])
  | inr (r, e) ↦
      let w = v.agrees.at_room room_id r e in
      rw (e, is_in)
        (elim (Bool-cases (str_eq (f q) room_id)) [
          | inl t ↦
              let here = v.follows q ∙ (eq_iff (f q) room_id).0 t in
              let (r', g, k) = v.at q (λ n. name (sym here ∙ n)) in
              ground (arith, t, e, g, here, k, held_lookup r.peers (h q).id q)
          | inr t ↦ ground (
            arith,
            t,
            lookup_held h r.peers q w.distinct (λ id p k. (w.members id p k).0),
            w.members (h q).id q,
            v.follows q,
            eq_iff (f q) room_id,
          )
        ])
]
