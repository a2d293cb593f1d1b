-- ===== src/Signaling/Names.antt =====
-- backend/internal/signaling/protocol.go: the texts that stand for types and codes on the wire.
use Prim.Native.String.{◌++◌ as append}
use text.Mathlib.Text.{◌==◌ as str_eq}
use text.Mathlib.TextEquality.{eq_iff}
use altair.Prelude.{◌≡◌, String, Option, none, arith, if◌then◌else◌}
use altair.Format.{decimal}
use altair.Signaling.Protocol.{MessageType, Endpoint, ErrorCode, Payload, empty}
use altair.Signaling.Protocol

-- The constants of `MessageType`.
unfoldable pub type_text : MessageType → String
type_text Protocol.join = "JOIN"
type_text Protocol.leave = "LEAVE"
type_text Protocol.offer = "OFFER"
type_text Protocol.answer = "ANSWER"
type_text Protocol.candidate = "CANDIDATE"
type_text Protocol.discover = "DISCOVER"
type_text Protocol.keep_alive = "KEEP_ALIVE"
type_text Protocol.peer_joined = "PEER_JOINED"
type_text Protocol.peer_left = "PEER_LEFT"
type_text Protocol.peer_list = "PEER_LIST"
type_text Protocol.error = "ERROR"
type_text Protocol.ack = "ACK"
type_text (Protocol.other text) = text

-- The type that a text is, as the switch of `handleMessage` compares it.
unfoldable pub type_of : String → MessageType
type_of x =
    if str_eq x "JOIN"
    then Protocol.join
    else if str_eq x "LEAVE"
    then Protocol.leave
    else if str_eq x "OFFER"
    then Protocol.offer
    else if str_eq x "ANSWER"
    then Protocol.answer
    else if str_eq x "CANDIDATE"
    then Protocol.candidate
    else if str_eq x "DISCOVER"
    then Protocol.discover
    else if str_eq x "KEEP_ALIVE"
    then Protocol.keep_alive
    else server_type x
  where
    server_type : String → MessageType
    server_type y =
        if str_eq y "PEER_JOINED"
        then Protocol.peer_joined
        else if str_eq y "PEER_LEFT"
        then Protocol.peer_left
        else if str_eq y "PEER_LIST"
        then Protocol.peer_list
        else if str_eq y "ERROR"
        then Protocol.error
        else if str_eq y "ACK"
        then Protocol.ack
        else Protocol.other y

unfoldable pub code_text : ErrorCode → String
code_text Protocol.invalid_message = "INVALID_MESSAGE"
code_text Protocol.room_not_found = "ROOM_NOT_FOUND"
code_text Protocol.peer_not_found = "PEER_NOT_FOUND"
code_text Protocol.not_in_room = "NOT_IN_ROOM"
code_text Protocol.already_in_room = "ALREADY_IN_ROOM"
code_text Protocol.room_full = "ROOM_FULL"
code_text Protocol.unauthorized = "UNAUTHORIZED"
code_text Protocol.internal_error = "INTERNAL_ERROR"

-- Endpoint.String
unfoldable pub endpoint_text : Endpoint → String
endpoint_text e = append e.ip (append ":" (decimal e.port))

-- A payload that is not there is an error; what json.Unmarshal makes of another is a parameter.
unfoldable pub parse_payload {ℓ} : {A : Type ℓ} → (Payload → Option A) → Payload → Option A
parse_payload unmarshal empty = none
parse_payload unmarshal payload = unmarshal payload

-- Text and type are the same information: no text is lost, and none of another type is taken.
pub type_text-type_of : (x : String) → type_text (type_of x) ≡ x
unfolding type_text type_of
type_text-type_of x = ground (
  arith,
  eq_iff x "JOIN",
  eq_iff x "LEAVE",
  eq_iff x "OFFER",
  eq_iff x "ANSWER",
  eq_iff x "CANDIDATE",
  eq_iff x "DISCOVER",
  eq_iff x "KEEP_ALIVE",
  eq_iff x "PEER_JOINED",
  eq_iff x "PEER_LEFT",
  eq_iff x "PEER_LIST",
  eq_iff x "ERROR",
  eq_iff x "ACK",
)
