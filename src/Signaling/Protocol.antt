-- ===== src/Signaling/Protocol.antt =====
-- backend/internal/signaling/protocol.go: the message envelope and its payloads. A payload that the
-- server builds is kept as the value that json.Marshal is given; a client's is its raw text.
use altair.Prelude.{ℕ, String, List, Option}

pub data MessageType : Type 0 where
  join leave offer answer candidate discover keep_alive : MessageType
  peer_joined peer_left peer_list error ack : MessageType
  other : String → MessageType

pub record Endpoint : Type 0 where
  pub ip : String
  pub port : ℕ

pub record PeerInfo : Type 0 where
  pub peer_id : String
  pub display_name : String
  pub endpoint : Option Endpoint
  pub joined_at : ℕ

pub record JoinPayload : Type 0 where
  pub display_name : String
  pub endpoint : Option Endpoint

pub data ErrorCode : Type 0 where
  invalid_message room_not_found peer_not_found not_in_room already_in_room room_full : ErrorCode
  unauthorized internal_error : ErrorCode

pub data Payload : Type 0 where
  empty : Payload
  raw : String → Payload
  peers : String → List PeerInfo → Payload
  info : PeerInfo → Payload
  failure : ErrorCode → String → Payload
  note : String → Payload

pub record Message : Type 0 where
  pub type : MessageType
  pub peer_id : String
  pub target_id : String
  pub room_id : String
  pub payload : Payload
  pub timestamp : ℕ
  pub request_id : String

abbrev pub new_message : MessageType → ℕ → Message
new_message t now = record {
  type = t;
  peer_id = "";
  target_id = "";
  room_id = "";
  payload = empty;
  timestamp = now;
  request_id = "";
}

abbrev pub with_peer_id : Message → String → Message
with_peer_id m id = record m { peer_id = id }

abbrev pub with_target_id : Message → String → Message
with_target_id m id = record m { target_id = id }

abbrev pub with_room_id : Message → String → Message
with_room_id m id = record m { room_id = id }

abbrev pub with_payload : Message → Payload → Message
with_payload m p = record m { payload = p }

abbrev pub with_request_id : Message → String → Message
with_request_id m id = record m { request_id = id }

abbrev pub new_error_message : ErrorCode → String → ℕ → Message
new_error_message code text now = with_payload (new_message error now) (failure code text)
