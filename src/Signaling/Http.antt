-- ===== src/Signaling/Http.antt =====
-- backend/internal/signaling/server.go: the HTTP endpoints. The path is what the multiplexer of
-- net/http makes of it, and a body stands for its JSON. The endpoints read the state and change nothing.
pub mod Endpoints
use text.Mathlib.Text.{◌==◌ as str_eq}
use altair.Prelude.{
  ℕ, ◌+◌, String, Bool, true, false, not, List, [], ◌∷◌, Option, none, some, length, if◌then◌else◌,
}
use altair.Signaling.Protocol.{PeerInfo}
use altair.Signaling.Dict.{Dict}
use altair.Signaling.Room.{Room, count, peer_infos}
use altair.Signaling.Manager.{get, total_peers}
use altair.Signaling.Registry.{without_room}
use altair.Signaling.Handler.{State}
use altair.Signaling.Socket.{Upgrader}

pub data Method : Type 0 where
  get_method options other_method : Method

-- The registered patterns; `room_path` has what follows /api/rooms/.
pub data Target : Type 0 where
  websocket health stats rooms : Target
  room_path unknown_path : String → Target

pub record RoomInfo : Type 0 where
  pub id : String
  pub peer_count : ℕ
  pub max_peers : ℕ
  pub created_at : ℕ

pub data Body : Type 0 where
  nothing not_allowed id_required room_not_found no_upgrader : Body
  alive : ℕ → Body
  numbers : ℕ → ℕ → ℕ → ℕ → ℕ → Body
  room_list : List RoomInfo → Body
  details : String → List PeerInfo → ℕ → ℕ → ℕ → Body
  not_found : String → Body

pub record Response : Type 0 where
  pub status : ℕ
  pub body : Body

abbrev refused : Response
refused = record { status = 405; body = not_allowed }

abbrev is_get : Method → Bool
is_get get_method = true
is_get _ = false

unfoldable pub handle_health : Method → ℕ → Response
handle_health method now =
    if is_get method then record { status = 200; body = alive now } else refused

-- Peers in the registry, those of them without a room, rooms, and peers in them.
unfoldable pub handle_stats : Method → State → ℕ → Response
handle_stats method s now =
    if is_get method
    then record {
      status = 200;
      body =
          numbers (length s.registry) (without_room s.registry s.heap) (length s.rooms.rooms)
            (total_peers s.rooms.rooms) now;
    }
    else refused

unfoldable pub room_infos : Dict Room → List RoomInfo
room_infos [] = []
room_infos ((id, r) ∷ rest) =
    record { id = r.id; peer_count = count r; max_peers = r.max_peers; created_at = r.created_at }
    ∷ room_infos rest

unfoldable pub handle_rooms : Method → State → Response
handle_rooms method s =
    if is_get method
    then record { status = 200; body = room_list (room_infos s.rooms.rooms) }
    else refused

unfoldable pub handle_room : Method → State → String → Response
handle_room method s room_id =
    if not (is_get method)
    then refused
    else if str_eq room_id ""
    then record { status = 400; body = id_required }
    else elim (get s.rooms room_id) [
      | none ↦ record { status = 404; body = room_not_found }
      | some r ↦ record {
        status = 200;
        body = details r.id (peer_infos r s.heap) (count r) r.max_peers r.created_at;
      }
    ]

-- `setupRoutes`; `none` is an answer that the upgrader gives, to which the WebSocket handler leaves it.
unfoldable pub route : State → Upgrader → Method → Target → ℕ → Option Response
route s upgrader method websocket now = elim upgrader [
  | none ↦ some (record { status = 500; body = no_upgrader })
  | some conn ↦ none
]
route s upgrader method health now = some (handle_health method now)
route s upgrader method stats now = some (handle_stats method s now)
route s upgrader method rooms now = some (handle_rooms method s)
route s upgrader method (room_path room_id) now = some (handle_room method s room_id)
route s upgrader method (unknown_path path) now =
    some (record { status = 404; body = not_found path })

-- `corsMiddleware` answers OPTIONS itself.
unfoldable pub serve : State → Upgrader → Method → Target → ℕ → Option Response
serve s upgrader get_method path now = route s upgrader get_method path now
serve s upgrader options path now = some (record { status = 200; body = nothing })
serve s upgrader other_method path now = route s upgrader other_method path now
