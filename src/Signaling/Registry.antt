-- ===== src/Signaling/Registry.antt =====
-- backend/internal/signaling/registry.go. The lifecycle callbacks are optional and the server sets
-- none, so they are left out. Random IDs are a supply: the IDs that generatePeerID returns in turn.
pub mod Laws
pub mod Cleanup
pub mod Stats
pub mod Texts
use text.Mathlib.Text.{◌==◌ as str_eq}
use altair.Prelude.{
  ℕ, ◌+◌, ◌-◌, String, Bool, true, false, List, [], ◌∷◌, Option, none, some, ltb, if◌then◌else◌,
  length,
}
use altair.Signaling.Protocol.{Message}
use altair.Signaling.Peer.{Peer, Heap, update, close}
use altair.Signaling.Dict.{Dict, lookup, insert, delete}
use altair.Signaling.Room.{recipients, send_all}

abbrev pub Registry : Type 0
Registry = Dict ℕ

-- The loop of `Register`; `none` if the supply runs out before an ID is free.
unfoldable pub free_id : Registry → String → List String → Option String
free_id r id [] = elim (lookup id r) [ none ↦ some id | some peer ↦ none ]
free_id r id (next ∷ rest) =
    let later = free_id r next rest in elim (lookup id r) [ none ↦ some id | some peer ↦ later ]

abbrev pub first_id : String → List String → Option (String × List String)
first_id id supply =
    if str_eq id ""
    then (elim supply [ [] ↦ none | next ∷ rest ↦ some (next, rest) ])
    else some (id, supply)

unfoldable pub register : Registry → Heap → ℕ → List String → Option (Registry × Heap)
register r h peer supply = elim (first_id (h peer).id supply) [
  | none ↦ none
  | some (start, rest) ↦ elim (free_id r start rest) [
    | none ↦ none
    | some id ↦ some (insert id peer r, update h peer (record (h peer) { id = id }))
  ]
]

unfoldable pub unregister : Registry → String → Registry
unregister r peer_id = elim (lookup peer_id r) [ none ↦ r | some peer ↦ delete peer_id r ]

unfoldable pub broadcast : Registry → Heap → Message → List String → Heap
broadcast r h msg exclude = send_all h msg (recipients h exclude r)

-- The entries that stay, the heap with the others closed, and their number.
unfoldable pub sweep : Registry → Heap → ℕ → Registry × Heap × ℕ
sweep [] h cutoff = ([], h, 0)
sweep ((id, peer) ∷ rest) h cutoff =
    let stale = ltb (h peer).last_seen cutoff in
    let (kept, h', removed) =
      sweep rest (if stale then update h peer (close (h peer)) else h) cutoff in
    if stale then (kept, h', removed + 1) else ((id, peer) ∷ kept, h', removed)

unfoldable pub cleanup_stale : Registry → Heap → ℕ → ℕ → Registry × Heap × ℕ
cleanup_stale r h timeout now = sweep r h (now - timeout)

unfoldable pub without_room : Registry → Heap → ℕ
without_room [] h = 0
without_room ((id, peer) ∷ rest) h =
    (if str_eq (h peer).room_id "" then 1 else 0) + without_room rest h

-- The number that `Stats` counts for one room.
unfoldable pub in_room : Registry → Heap → String → ℕ
in_room [] h room_id = 0
in_room ((id, peer) ∷ rest) h room_id =
    (if str_eq (h peer).room_id "" then 0 else if str_eq (h peer).room_id room_id then 1 else 0)
    + in_room rest h room_id
