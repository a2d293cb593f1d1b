-- ===== src/Signaling/Room.antt =====
-- backend/internal/signaling/room.go, `Room`. The peers of a room are pointers by peer ID.
pub mod Broadcast
pub mod Unordered
use text.Mathlib.Text.{◌==◌ as str_eq}
use altair.Prelude.{
  ℕ, String, Bool, true, false, ◌&&◌, ◌||◌, List, [], ◌∷◌, Option, none, some, ltb, leb, ◌==◌,
  if◌then◌else◌, length,
}
use altair.Signaling.Protocol.{PeerInfo, Message}
use altair.Signaling.Peer.{Heap, update, info, set_room_id, send_to}
use altair.Signaling.Dict.{Dict, lookup, insert, delete}

-- `max_peers` is 0 for no limit.
pub record Room : Type 0 where
  pub id : String
  pub created_at : ℕ
  pub max_peers : ℕ
  pub peers : Dict ℕ

unfoldable pub new_room : String → ℕ → Room
new_room id now = record { id = id; created_at = now; max_peers = 0; peers = [] }

-- `none` is the error of a full room.
unfoldable pub add : Room → Heap → ℕ → Option (Room × Heap)
add r h peer =
    if ltb 0 r.max_peers && leb r.max_peers (length r.peers)
    then none
    else some (
      record r { peers = insert (h peer).id peer r.peers },
      update h peer (set_room_id (h peer) r.id),
    )

unfoldable pub remove : Room → Heap → String → Room × Heap
remove r h peer_id = elim (lookup peer_id r.peers) [
  | none ↦ (r, h)
  | some peer ↦
      (record r { peers = delete peer_id r.peers }, update h peer (set_room_id (h peer) ""))
]

unfoldable pub contains : Room → String → Bool
contains r peer_id = elim (lookup peer_id r.peers) [ none ↦ false | some peer ↦ true ]

unfoldable pub get : Room → String → Option ℕ
get r peer_id = lookup peer_id r.peers

unfoldable pub pointers : Dict ℕ → List ℕ
pointers [] = []
pointers ((id, peer) ∷ rest) = peer ∷ pointers rest

-- Room.Peers
unfoldable pub peers_of : Room → List ℕ
peers_of r = pointers r.peers

unfoldable pub count : Room → ℕ
count r = length r.peers

unfoldable pub is_empty : Room → Bool
is_empty r = count r == 0

unfoldable pub infos_of : Heap → Dict ℕ → List PeerInfo
infos_of h [] = []
infos_of h ((id, peer) ∷ rest) = info (h peer) ∷ infos_of h rest

unfoldable pub peer_infos : Room → Heap → List PeerInfo
unfolding infos_of
peer_infos r h = infos_of h r.peers

unfoldable pub excluded : String → List String → Bool
excluded id [] = false
excluded id (x ∷ rest) = str_eq x id || excluded id rest

-- The peers to send to are chosen first; each `go p.Send(msg)` then runs, its error dropped.
unfoldable pub recipients : Heap → List String → Dict ℕ → List ℕ
recipients h exclude [] = []
recipients h exclude ((id, peer) ∷ rest) =
    let others = recipients h exclude rest in
    if excluded (h peer).id exclude then others else peer ∷ others

unfoldable pub send_all : Heap → Message → List ℕ → Heap
send_all h msg [] = h
send_all h msg (peer ∷ rest) = send_all (send_to h peer msg).0 msg rest

unfoldable pub broadcast : Room → Heap → Message → List String → Heap
broadcast r h msg exclude = send_all h msg (recipients h exclude r.peers)
