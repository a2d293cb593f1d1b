-- ===== src/Signaling/Room/Broadcast.antt =====
-- backend/internal/signaling/room.go, `Broadcast`: who gets the message, and that it is got once.
use text.Mathlib.TextEquality.{eq_iff}
use altair.Prelude.{
  ℕ, ◌≡◌, refl, String, Bool, true, false, not, ◌&&◌, ◌||◌, List, [], ◌∷◌, none, some, arith, ◌==◌,
  if◌then◌else◌,
}
use altair.Signaling.Protocol.{Message}
use altair.Signaling.Peer.{Heap, send, send_to}
use altair.Signaling.Dict.{Dict, lookup, Distinct}
use altair.Signaling.Room.{Room, excluded, recipients, send_all, broadcast}

-- Whether a pointer is in a list, and in a map.
abbrev pub among : ℕ → List ℕ → Bool
among q [] = false
among q (p ∷ ps) = p == q || among q ps

abbrev pub holds : ℕ → Dict ℕ → Bool
holds q [] = false
holds q ((id, p) ∷ d) = p == q || holds q d

abbrev Once : List ℕ → Type 0
Once [] = Unit
Once (p ∷ ps) = (among p ps ≡ false) × Once ps

-- Sending to pointers that occur once changes each of their peers by one `Send`, and no other.
send_all_lem :
    (h : Heap) (msg : Message) (ps : List ℕ) (q : ℕ)
    → Once ps
    → send_all h msg ps q ≡ (if among q ps then (send (h q) msg).0 else h q)
unfolding send_all send_to
send_all_lem h msg [] q v = refl
send_all_lem h msg (p ∷ ps) q (new, v) =
    ground (arith, new, send_all_lem (send_to h p msg).0 msg ps q v)

among-recipients :
    (h : Heap) (exclude : List String) (d : Dict ℕ) (q : ℕ)
    → among q (recipients h exclude d) ≡ (holds q d && not (excluded (h q).id exclude))
unfolding recipients
among-recipients h exclude [] q = refl
among-recipients h exclude ((id, p) ∷ d) q = ground (arith, among-recipients h exclude d q)

-- The peers of a map know their keys.
abbrev pub Knows : Heap → Dict ℕ → Type 0
Knows h d = (id : String) (p : ℕ) → lookup id d ≡ some p → (h p).id ≡ id

Knows-rest :
    (h : Heap) (id : String) (p : ℕ) (d : Dict ℕ)
    → lookup id d ≡ none
    → Knows h ((id, p) ∷ d)
    → Knows h d
unfolding lookup
Knows-rest h id p d new v j q e = ground (arith, v j q, e, new, eq_iff id j)

-- A pointer that a map holds is found under its peer's ID.
pub lookup_held :
    (h : Heap) (d : Dict ℕ) (q : ℕ)
    → Distinct d
    → Knows h d
    → holds q d ≡ true
    → lookup (h q).id d ≡ some q
unfolding lookup
lookup_held h [] q u v e = cc
lookup_held h ((id, p) ∷ d) q (new, u) v e = ground (
  arith,
  v id p,
  eq_iff id id,
  eq_iff id (h q).id,
  new,
  lookup_held h d q u (Knows-rest h id p d new v),
)

pub held_lookup : (d : Dict ℕ) (id : String) (q : ℕ) → lookup id d ≡ some q → holds q d ≡ true
unfolding lookup
held_lookup [] id q e = cc
held_lookup ((j, p) ∷ d) id q e = ground (arith, held_lookup d id q)

recipients-Once :
    (h : Heap) (exclude : List String) (d : Dict ℕ)
    → Distinct d
    → Knows h d
    → Once (recipients h exclude d)
unfolding recipients lookup
recipients-Once h exclude [] u v = tt
recipients-Once h exclude ((id, p) ∷ d) (new, u) v =
    let w = Knows-rest h id p d new v in
    ground (
      arith,
      among-recipients h exclude d p,
      lookup_held h d p u w,
      v id p,
      eq_iff id id,
      new,
      recipients-Once h exclude d u w,
    )

-- A broadcast sends the message to the peers that the room holds, once each, but for those excluded by ID.
pub broadcast_lem :
    (r : Room) (h : Heap) (msg : Message) (exclude : List String) (q : ℕ)
    → Distinct r.peers
    → Knows h r.peers
    → broadcast r h msg exclude q
      ≡ (if holds q r.peers && not (excluded (h q).id exclude) then (send (h q) msg).0 else h q)
unfolding broadcast
broadcast_lem r h msg exclude q u v =
    rw (← among-recipients h exclude r.peers q)
      (send_all_lem h msg (recipients h exclude r.peers) q (recipients-Once h exclude r.peers u v))
