-- ===== src/Signaling/Manager/Cleanup.antt =====
-- backend/internal/signaling/room.go, `CleanupEmpty`.
use text.Mathlib.TextEquality.{eq_iff}
use altair.Prelude.{
  ℕ, ◌+◌, ◌-◌, ◌≡◌, refl, String, Bool, [], ◌∷◌, none, some, arith, length, if◌then◌else◌, ltb,
  ◌&&◌,
}
use altair.Signaling.Dict.{Dict, lookup, Distinct}
use altair.Signaling.Peer.{Heap}
use altair.Signaling.Room.{Room, is_empty}
use altair.Signaling.Manager.{Manager, get, sweep, cleanup_empty}
use altair.Signaling.Manager.Consistent.{IsConsistent}

abbrev expired : Room → ℕ → Bool
expired r cutoff = is_empty r && ltb r.created_at cutoff

lookup-sweep :
    (m : Dict Room) (cutoff : ℕ) (id : String)
    → Distinct m
    → lookup id (sweep m cutoff).0
      ≡ (elim (lookup id m) [ none ↦ none | some r ↦ if expired r cutoff then none else some r ])
unfolding lookup sweep
lookup-sweep [] cutoff id d = refl
lookup-sweep ((j, r) ∷ m) cutoff id (e, d) =
    ground (arith, lookup-sweep m cutoff id d, eq_iff j id, e)

sweep-Distinct : (m : Dict Room) (cutoff : ℕ) → Distinct m → Distinct (sweep m cutoff).0
unfolding sweep
sweep-Distinct [] cutoff d = tt
sweep-Distinct ((j, r) ∷ m) cutoff (e, d) =
    ground (arith, lookup-sweep m cutoff j d, sweep-Distinct m cutoff d, e)

pub sweep-count :
    (m : Dict Room) (cutoff : ℕ) → length (sweep m cutoff).0 + (sweep m cutoff).1 ≡ length m
unfolding sweep
sweep-count [] cutoff = refl
sweep-count ((j, r) ∷ m) cutoff = ground (arith, sweep-count m cutoff)

pub cleanup_empty_lem :
    (rm : Manager) (now : ℕ) (id : String)
    → Distinct rm.rooms
    → let (rm', removed) = cleanup_empty rm now in
      (get rm' id ≡ (elim (get rm id) [
        | none ↦ none
        | some r ↦ if is_empty r && ltb r.created_at (now - rm.empty_room_ttl) then none else some r
      ]))
      × (length rm'.rooms + removed ≡ length rm.rooms)
unfolding cleanup_empty get
cleanup_empty_lem rm now id d = (
  lookup-sweep rm.rooms (now - rm.empty_room_ttl) id d,
  sweep-count rm.rooms (now - rm.empty_room_ttl),
)

pub cleanup_empty-IsConsistent :
    (rm : Manager) (h : Heap) (now : ℕ)
    → IsConsistent rm h
    → IsConsistent (cleanup_empty rm now).0 h
unfolding cleanup_empty
cleanup_empty-IsConsistent rm h now v =
    let c = now - rm.empty_room_ttl in
    record {
      at_room = λ id r e. ground (arith, v.at_room id r, e, lookup-sweep rm.rooms c id v.keys);
      keys = sweep-Distinct rm.rooms c v.keys;
      no_empty_name = ground (arith, v.no_empty_name, lookup-sweep rm.rooms c "" v.keys);
    }
