-- ===== src/Signaling/Registry/Stats.antt =====
-- backend/internal/signaling/registry.go: reading the registry, and its statistics.
use text.Mathlib.Text.{◌==◌ as str_eq}
use text.Mathlib.TextEquality.{eq_iff}
use altair.Prelude.{
  ℕ, ◌+◌, ◌≡◌, ◌≢◌, refl, String, Bool, true, false, List, [], ◌∷◌, Option, none, some, arith,
  if◌then◌else◌, length,
}
use altair.Signaling.Peer.{Heap}
use altair.Signaling.Dict.{Dict, lookup, insert, lookup-insert}
use altair.Signaling.Registry.{Registry, without_room, in_room}

unfoldable pub get : Registry → String → Option ℕ
get r peer_id = lookup peer_id r

unfoldable pub exists : Registry → String → Bool
exists r peer_id = elim (lookup peer_id r) [ none ↦ false | some peer ↦ true ]

unfoldable pub count : Registry → ℕ
count r = length r

unfoldable pub all : Registry → List ℕ
all [] = []
all ((id, peer) ∷ rest) = peer ∷ all rest

pub record RegistryStats : Type 0 where
  pub total_peers : ℕ
  pub peers_without_room : ℕ
  pub peers_by_room : Dict ℕ

-- A missing key of a Go map reads as 0.
abbrev pub number : Dict ℕ → String → ℕ
number m key = elim (lookup key m) [ none ↦ 0 | some n ↦ n ]

-- One peer more, by its room.
unfoldable pub counted : RegistryStats → String → RegistryStats
counted s room_id =
    if str_eq room_id ""
    then record s { peers_without_room = s.peers_without_room + 1 }
    else record s {
      peers_by_room = insert room_id (number s.peers_by_room room_id + 1) s.peers_by_room;
    }

-- The loop over the peers.
unfoldable pub tally : Registry → Heap → RegistryStats → RegistryStats
tally [] h s = s
tally ((id, peer) ∷ rest) h s = tally rest h (counted s (h peer).room_id)

unfoldable pub stats : Registry → Heap → RegistryStats
stats r h =
    tally r h (record { total_peers = length r; peers_without_room = 0; peers_by_room = [] })

-- The sum of all counts.
abbrev pub sum_of : Dict ℕ → ℕ
sum_of [] = 0
sum_of ((key, n) ∷ rest) = n + sum_of rest

sum_of-insert :
    (key : String) (m : Dict ℕ) → sum_of (insert key (number m key + 1) m) ≡ sum_of m + 1
unfolding insert lookup
sum_of-insert key [] = refl
sum_of-insert key ((other, n) ∷ rest) = ground (arith, sum_of-insert key rest)

tally_total :
    (r : Registry) (h : Heap) (s : RegistryStats) → (tally r h s).total_peers ≡ s.total_peers
unfolding tally counted
tally_total [] h s = refl
tally_total ((id, peer) ∷ rest) h s =
    ground (arith, tally_total rest h (counted s (h peer).room_id))

tally_without :
    (r : Registry) (h : Heap) (s : RegistryStats)
    → (tally r h s).peers_without_room ≡ s.peers_without_room + without_room r h
unfolding tally counted without_room
tally_without [] h s = omega arith
tally_without ((id, peer) ∷ rest) h s =
    ground (arith, tally_without rest h (counted s (h peer).room_id))

tally_sum :
    (r : Registry) (h : Heap) (s : RegistryStats)
    → sum_of (tally r h s).peers_by_room + (tally r h s).peers_without_room
      ≡ sum_of s.peers_by_room + s.peers_without_room + length r
unfolding tally counted
tally_sum [] h s = omega arith
tally_sum ((id, peer) ∷ rest) h s = ground (
  arith,
  tally_sum rest h (counted s (h peer).room_id),
  sum_of-insert (h peer).room_id s.peers_by_room,
)

counted_room :
    (s : RegistryStats) (other room_id : String)
    → room_id ≢ ""
    → number (counted s other).peers_by_room room_id
      ≡ number s.peers_by_room room_id
        + (if str_eq other "" then 0 else if str_eq other room_id then 1 else 0)
unfolding counted
counted_room s other room_id ne = ground (
  arith,
  lookup-insert other room_id (number s.peers_by_room other + 1) s.peers_by_room,
  eq_iff other room_id,
)

tally_room :
    (r : Registry) (h : Heap) (s : RegistryStats) (room_id : String)
    → room_id ≢ ""
    → number (tally r h s).peers_by_room room_id
      ≡ number s.peers_by_room room_id + in_room r h room_id
unfolding tally in_room
tally_room [] h s room_id ne = omega arith
tally_room ((id, peer) ∷ rest) h s room_id ne = omega (
  arith,
  tally_room rest h (counted s (h peer).room_id) room_id ne,
  counted_room s (h peer).room_id room_id ne,
)

-- Stats counts every peer of the registry once: with no room, or under the room that it knows.
pub stats_lem :
    (r : Registry) (h : Heap) (room_id : String)
    → room_id ≢ ""
    → let s = stats r h in
      (s.total_peers ≡ length r)
      × (s.peers_without_room ≡ without_room r h)
      × (number s.peers_by_room room_id ≡ in_room r h room_id)
      × (sum_of s.peers_by_room + s.peers_without_room ≡ s.total_peers)
unfolding stats lookup
stats_lem r h room_id ne =
    let s0 : RegistryStats = record {
      total_peers = length r;
      peers_without_room = 0;
      peers_by_room = [];
    } in
    let total = tally_total r h s0 in
    (
      total,
      omega (arith, tally_without r h s0),
      omega (arith, tally_room r h s0 room_id ne),
      omega (arith, tally_sum r h s0, total),
    )
