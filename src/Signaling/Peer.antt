-- ===== src/Signaling/Peer.antt =====
-- backend/internal/signaling/peer.go: a connected client and the writes to its connection. Peers are
-- shared by pointer between the registry, the rooms and the handler: a pointer is a number, and the
-- heap gives the peer behind it.
use altair.Prelude.{
  ℕ, String, Bool, true, false, not, List, [], ◌∷◌, ◌++◌, Option, none, some, ◌==◌, if◌then◌else◌,
}
use altair.Signaling.Protocol.{Endpoint, PeerInfo, Message, ErrorCode, new_error_message}

-- What the connection answers to calls, fixed for its life, and the messages written so far.
pub record Conn : Type 0 where
  pub deadline_ok : Bool
  pub write_ok : Bool
  pub written : List Message
  pub is_open : Bool

pub record Peer : Type 0 where
  pub id : String
  pub display_name : String
  pub endpoint : Option Endpoint
  pub room_id : String
  pub joined_at : ℕ
  pub last_seen : ℕ
  pub conn : Conn
  pub closed : Bool

pub data SendError : Type 0 where
  connection_closed deadline_failed write_failed : SendError

unfoldable pub new_peer : String → Conn → ℕ → Peer
new_peer id conn now = record {
  id = id;
  display_name = "";
  endpoint = none;
  room_id = "";
  joined_at = now;
  last_seen = now;
  conn = conn;
  closed = false;
}

-- The peer afterwards, and the error if there is one.
unfoldable pub send : Peer → Message → Peer × Option SendError
send p msg =
    if p.closed
    then (p, some connection_closed)
    else if not p.conn.deadline_ok
    then (p, some deadline_failed)
    else if not p.conn.write_ok
    then (p, some write_failed)
    else (record p { conn = record (p.conn) { written = p.conn.written ++ msg ∷ [] } }, none)

unfoldable pub close : Peer → Peer
close p =
    if p.closed then p else record p { closed = true; conn = record (p.conn) { is_open = false } }

unfoldable pub update_last_seen : Peer → ℕ → Peer
update_last_seen p now = record p { last_seen = now }

unfoldable pub info : Peer → PeerInfo
info p = record {
  peer_id = p.id;
  display_name = p.display_name;
  endpoint = p.endpoint;
  joined_at = p.joined_at;
}

unfoldable pub set_endpoint : Peer → Option Endpoint → Peer
set_endpoint p e = record p { endpoint = e }

unfoldable pub set_display_name : Peer → String → Peer
set_display_name p name = record p { display_name = name }

unfoldable pub set_room_id : Peer → String → Peer
set_room_id p rid = record p { room_id = rid }

unfoldable pub is_closed : Peer → Bool
is_closed p = p.closed

unfoldable pub get_room_id : Peer → String
get_room_id p = p.room_id

unfoldable pub connection : Peer → Conn
connection p = p.conn

-- Pointers to peers.
abbrev pub Heap : Type 0
Heap = ℕ → Peer

abbrev pub update : Heap → ℕ → Peer → Heap
update h i p j = if i == j then p else h j

-- peer.Send(msg) through a pointer.
unfoldable pub send_to : Heap → ℕ → Message → Heap × Option SendError
send_to h i msg = let (p, e) = send (h i) msg in (update h i p, e)

unfoldable pub send_error : Heap → ℕ → ErrorCode → String → ℕ → Heap × Option SendError
send_error h i code text now = send_to h i (new_error_message code text now)
