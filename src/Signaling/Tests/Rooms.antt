-- ===== src/Signaling/Tests/Rooms.antt =====
-- The theorems on the order of a map and on interleaved joins at concrete inputs.
use text.Mathlib.TextEquality.{eq_iff}
use mathlib.Core.Quot
use altair.Prelude.{ℕ, ◌≡◌, refl, String, [], ◌∷◌, some, none, arith}
use altair.Signaling.Dict.{Dict, Distinct, lookup}
use altair.Signaling.Room.{new_room, broadcast, is_empty, count}
use altair.Signaling.Room.Broadcast.{Knows}
use altair.Signaling.Room.Unordered.{broadcast_to, broadcast-broadcast_to}
use altair.Signaling.Manager.{get, remove_from, enter}
use altair.Signaling.Manager.Race.{enter_late, late_join_lost}
use altair.Signaling.Tests.{
  two_peers, both_joined, full_lobby, full_lobby-IsRoom, a_join, one_room_left,
}

-- The lobby, walked through the other way round.
abbrev backwards : Dict ℕ
backwards = ("b", 1) ∷ ("a", 0) ∷ []

same_lobby : (id : String) → lookup id backwards ≡ lookup id full_lobby.peers
unfolding lookup
same_lobby id = ground (arith, eq_iff "a" id, eq_iff "b" id, eq_iff "a" "b")

backwards-Distinct : Distinct backwards
unfolding lookup
backwards-Distinct = (ground (arith, eq_iff "a" "b"), (refl, tt))

lobby-Knows : Knows both_joined.heap full_lobby.peers
lobby-Knows id p e = (full_lobby-IsRoom.members id p e).0

backwards-Knows : Knows both_joined.heap backwards
backwards-Knows id p e = lobby-Knows id p (ground (arith, e, same_lobby id))

broadcast-broadcast_to_example :
    broadcast (record full_lobby { peers = backwards }) both_joined.heap a_join ("b" ∷ [])
    ≡ broadcast_to full_lobby both_joined.heap a_join
        ("b" ∷ [])
        (Quot.mk (full_lobby.peers, full_lobby-IsRoom.distinct, lobby-Knows))
broadcast-broadcast_to_example =
    broadcast-broadcast_to full_lobby both_joined.heap a_join ("b" ∷ []) backwards
      full_lobby-IsRoom.distinct lobby-Knows backwards-Distinct backwards-Knows same_lobby

-- "a" joins a room of age 400 s while it is cleaned up, and "b" then joins another of that name.
late_join_lost_example :
    let (rm', h', joined) = enter_late one_room_left two_peers 0 "lobby" 400 400 in
    (joined ≡ some (record (new_room "lobby" 0) { peers = ((two_peers 0).id, 0) ∷ [] }))
    × ((h' 0).room_id ≡ "lobby")
    × (get rm' "lobby" ≡ none)
    × (remove_from rm' h' "lobby" (two_peers 0).id ≡ (rm', h'))
    × ((q next : ℕ)
        → get (enter rm' h' q "lobby" next).0 "lobby"
          ≡ some (record (new_room "lobby" next) {
            max_peers = one_room_left.default_max_peers;
            peers = ((h' q).id, q) ∷ [];
          }))
unfolding new_room is_empty count
late_join_lost_example =
    late_join_lost one_room_left two_peers 0 "lobby" 400 400 (new_room "lobby" 0)
      (unfold lookup in (refl, tt)) (unfold get lookup in refl) refl refl (ground arith)
