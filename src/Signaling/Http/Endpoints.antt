-- ===== src/Signaling/Http/Endpoints.antt =====
-- backend/internal/signaling/server.go: what the endpoints report of rooms and peers.
use text.Mathlib.Text.{◌==◌ as str_eq}
use altair.Prelude.{ℕ, ◌+◌, ◌≡◌, refl, String, List, [], ◌∷◌, some, arith, length}
use altair.Signaling.Dict.{Dict}
use altair.Signaling.Room.{Room}
use altair.Signaling.Manager.{total_peers}
use altair.Signaling.Handler.{State}
use altair.Signaling.Socket.{Upgrader}
use altair.Signaling.Registry.{without_room}
use altair.Signaling.Http.{
  RoomInfo, get_method, stats, rooms, numbers, room_list, room_infos, handle_rooms, handle_stats,
  route, serve,
}

abbrev pub ids_of : Dict ℕ → List String
ids_of [] = []
ids_of ((id, peer) ∷ rest) = id ∷ ids_of rest

abbrev pub peers_listed : List RoomInfo → ℕ
peers_listed [] = 0
peers_listed (i ∷ rest) = i.peer_count + peers_listed rest

listed_rooms :
    (d : Dict Room)
    → (length (room_infos d) ≡ length d) × (peers_listed (room_infos d) ≡ total_peers d)
unfolding room_infos total_peers
listed_rooms [] = (refl, refl)
listed_rooms ((id, r) ∷ rest) =
    let (a, b) = listed_rooms rest in (ground (arith, a), ground (arith, b))

-- The numbers of /api/stats are those of the list of /api/rooms.
pub stats-rooms :
    (s : State) (upgrader : Upgrader) (now : ℕ)
    → (infos : List RoomInfo) × (registered free : ℕ) × (serve s upgrader get_method rooms now
        ≡ some (record { status = 200; body = room_list infos }))
      × (serve s upgrader get_method stats now
          ≡ some (record {
            status = 200;
            body = numbers registered free (length infos) (peers_listed infos) now;
          }))
unfolding serve route handle_rooms handle_stats
stats-rooms s upgrader now =
    let (a, b) = listed_rooms s.rooms.rooms in
    (
      room_infos s.rooms.rooms,
      length s.registry,
      without_room s.registry s.heap,
      refl,
      rw (a, b) refl,
    )
