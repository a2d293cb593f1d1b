-- ===== src/Signaling/Handler.antt =====
-- backend/internal/signaling/handler.go: one message of one peer at a time. Every handler runs to its
-- end before the next; `now` is the time it runs at. json.Unmarshal of a JOIN payload is a parameter.
-- Error texts that name values are shortened to their fixed part.
pub mod Forwarding
pub mod Kept
pub mod Invariant
pub mod Announce
pub mod Gone
pub mod Ids
use text.Mathlib.Text.{◌==◌ as str_eq}
use altair.Prelude.{
  ℕ, String, Bool, true, false, not, List, [], ◌∷◌, Option, none, some, if◌then◌else◌,
}
use altair.Signaling.Protocol.{
  MessageType, Endpoint, JoinPayload, Message, Payload, ErrorCode, new_message, with_peer_id,
  with_target_id, with_room_id, with_payload, with_request_id, empty, peers, note, invalid_message,
  already_in_room, room_full, not_in_room, room_not_found, peer_not_found,
}
use altair.Signaling.Protocol
use altair.Signaling.Peer.{
  Peer, Conn, Heap, SendError, update, info, send_to, send_error, set_display_name, set_endpoint,
  close, new_peer, update_last_seen,
}
use altair.Signaling.Dict.{lookup}
use altair.Signaling.Room.{Room, peer_infos, broadcast}
use altair.Signaling.Manager.{Manager, get, join_room, remove_from}
use altair.Signaling.Registry.{Registry, register, unregister}

pub record State : Type 0 where
  pub heap : Heap
  pub registry : Registry
  pub rooms : Manager

-- The state afterwards, and the error that the handler returns.
abbrev pub Handled : Type 0
Handled = State × Option SendError

-- A last call that sends, as in `return peer.Send(ack)`.
abbrev pub sending : State → Heap × Option SendError → Handled
sending s (h, e) = (record s { heap = h }, e)

abbrev pub fail : State → ℕ → ErrorCode → String → ℕ → Handled
fail s peer code text now = sending s (send_error s.heap peer code text now)

-- Name and endpoint of a JOIN payload, where it has them.
unfoldable pub apply_join : JoinPayload → Peer → Peer
apply_join payload p =
    let p' =
      if str_eq payload.display_name "" then p else set_display_name p payload.display_name in
    elim payload.endpoint [ none ↦ p' | some e ↦ set_endpoint p' (some e) ]

abbrev pub joined_ack : State → ℕ → String → Message → Room → ℕ → Message
joined_ack s peer room_id msg room now =
    with_payload
      (with_request_id
        (with_room_id (with_peer_id (new_message Protocol.ack now) (s.heap peer).id) room_id)
        msg.request_id)
      (peers room_id (peer_infos room s.heap))

abbrev pub joined_note : State → ℕ → String → ℕ → Message
joined_note s peer room_id now =
    with_payload
      (with_room_id (with_peer_id (new_message Protocol.peer_joined now) (s.heap peer).id) room_id)
      (Protocol.Payload.info (info (s.heap peer)))

-- ACK to the peer, PEER_JOINED to the others. The error of the first send is dropped.
unfoldable pub announce_join : State → ℕ → String → Message → Room → ℕ → State
announce_join s peer room_id msg room now =
    let (h1, _) = send_to s.heap peer (joined_ack s peer room_id msg room now) in
    record s { heap = broadcast room h1 (joined_note s peer room_id now) ((s.heap peer).id ∷ []) }

-- The payload is parsed only if there is one, and the error of parsing is dropped.
unfoldable pub join_payload : (Payload → JoinPayload) → Payload → JoinPayload
join_payload parse empty = record { display_name = ""; endpoint = none }
join_payload parse payload = parse payload

unfoldable pub handle_join : (Payload → JoinPayload) → State → ℕ → Message → ℕ → Handled
handle_join parse s peer msg now =
    if str_eq msg.room_id ""
    then fail s peer invalid_message "room_id is required" now
    else let s1 = record s {
      heap = update s.heap peer (apply_join (join_payload parse msg.payload) (s.heap peer));
    } in
      if str_eq (s1.heap peer).room_id msg.room_id
      then fail s1 peer already_in_room "already in this room" now
      else let (rm, h, joined) = join_room s1.rooms s1.heap peer msg.room_id now in
        let s2 = record s1 { heap = h; rooms = rm } in
        elim joined [
          | none ↦ fail s2 peer room_full "room is full" now
          | some room ↦ (announce_join s2 peer msg.room_id msg room now, none)
        ]

abbrev pub left_note : String → String → ℕ → Message
left_note peer_id room_id now =
    with_room_id (with_peer_id (new_message Protocol.peer_left now) peer_id) room_id

-- Leave the room and tell those who remain.
unfoldable pub depart : State → ℕ → String → ℕ → State
depart s peer room_id now = elim (get s.rooms room_id) [
  | none ↦ s
  | some r ↦
      let (rm, h) = remove_from s.rooms s.heap room_id (s.heap peer).id in
      elim (get rm room_id) [
        | none ↦ record s { rooms = rm; heap = h }
        | some r' ↦ record s {
          rooms = rm;
          heap = broadcast r' h (left_note (s.heap peer).id room_id now) [];
        }
      ]
]

abbrev pub ack_to : State → ℕ → Message → Payload → ℕ → Handled
ack_to s peer msg payload now = sending s (
    send_to s.heap peer (
      with_payload
        (with_request_id (with_peer_id (new_message Protocol.ack now) (s.heap peer).id)
          msg.request_id)
        payload))

unfoldable pub handle_leave : State → ℕ → Message → ℕ → Handled
handle_leave s peer msg now =
    let room_id = (s.heap peer).room_id in
    if str_eq room_id ""
    then fail s peer not_in_room "not in any room" now
    else ack_to (depart s peer room_id now) peer msg (note "left room") now

unfoldable pub handle_discover : State → ℕ → Message → ℕ → Handled
handle_discover s peer msg now =
    let room_id = if str_eq msg.room_id "" then (s.heap peer).room_id else msg.room_id in
    if str_eq room_id ""
    then fail s peer not_in_room "no room specified and not in any room" now
    else elim (get s.rooms room_id) [
      | none ↦ fail s peer room_not_found "room not found" now
      | some r ↦ sending s (
          send_to s.heap peer (
            with_payload
              (with_request_id
                (with_room_id (with_peer_id (new_message Protocol.peer_list now) (s.heap peer).id)
                  room_id)
                msg.request_id)
              (peers room_id (peer_infos r s.heap))))
    ]

abbrev pub forwarded : MessageType → String → Message → ℕ → Message
forwarded t peer_id msg now =
    with_payload
      (with_request_id (with_target_id (with_peer_id (new_message t now) peer_id) msg.target_id)
        msg.request_id)
      msg.payload

-- handleOffer, handleAnswer and handleCandidate are one text with another message type.
unfoldable pub forward : MessageType → State → ℕ → Message → ℕ → Handled
forward t s peer msg now =
    if str_eq msg.target_id ""
    then fail s peer invalid_message "target_id is required" now
    else elim (lookup msg.target_id s.registry) [
      | none ↦ fail s peer peer_not_found "target peer not found" now
      | some target ↦ sending s (send_to s.heap target (forwarded t (s.heap peer).id msg now))
    ]

unfoldable pub handle_offer : State → ℕ → Message → ℕ → Handled
unfolding forward
handle_offer = forward Protocol.offer

unfoldable pub handle_answer : State → ℕ → Message → ℕ → Handled
unfolding forward
handle_answer = forward Protocol.answer

unfoldable pub handle_candidate : State → ℕ → Message → ℕ → Handled
unfolding forward
handle_candidate = forward Protocol.candidate

unfoldable pub handle_keep_alive : State → ℕ → Message → ℕ → Handled
handle_keep_alive s peer msg now = ack_to s peer msg empty now

unfoldable pub dispatch : (Payload → JoinPayload) → MessageType → State → ℕ → Message → ℕ → Handled
dispatch parse Protocol.join s peer msg now = handle_join parse s peer msg now
dispatch parse Protocol.leave s peer msg now = handle_leave s peer msg now
dispatch parse Protocol.discover s peer msg now = handle_discover s peer msg now
dispatch parse Protocol.offer s peer msg now = handle_offer s peer msg now
dispatch parse Protocol.answer s peer msg now = handle_answer s peer msg now
dispatch parse Protocol.candidate s peer msg now = handle_candidate s peer msg now
dispatch parse Protocol.keep_alive s peer msg now = handle_keep_alive s peer msg now
dispatch parse _ s peer msg now = fail s peer invalid_message "unknown message type" now

unfoldable pub handle_message : (Payload → JoinPayload) → State → ℕ → Message → ℕ → Handled
handle_message parse s peer msg now = dispatch parse msg.type s peer msg now

-- One round of `readLoop`; `none` is a message that is no JSON. The sender's ID is the server's.
unfoldable pub read_step : (Payload → JoinPayload) → State → ℕ → Option Message → ℕ → Handled
read_step parse s peer input now =
    let s1 = record s { heap = update s.heap peer (update_last_seen (s.heap peer) now) } in
    elim input [
      | none ↦ fail s1 peer invalid_message "invalid JSON" now
      | some msg ↦ handle_message parse s1 peer (record msg { peer_id = (s1.heap peer).id }) now
    ]

unfoldable pub handle_disconnect : State → ℕ → ℕ → State
handle_disconnect s peer now =
    let room_id = (s.heap peer).room_id in
    let s1 = if str_eq room_id "" then s else depart s peer room_id now in
    record s1 {
      heap = update s1.heap peer (close (s1.heap peer));
      registry = unregister s1.registry (s1.heap peer).id;
    }

-- `ServeHTTP` up to the read loop: a new peer behind `peer`, registered and welcomed; `none` if the
-- supply of random IDs has no free one.
unfoldable pub connect : State → ℕ → Conn → List String → ℕ → Option State
connect s peer conn supply now =
    elim (register s.registry (update s.heap peer (new_peer "" conn now)) peer supply) [
      | none ↦ none
      | some (r, h) ↦
          let s1 = record s { registry = r; heap = h } in
          some (record s1 {
            heap =
                (send_to h peer (
                  with_payload (with_peer_id (new_message Protocol.ack now) (h peer).id)
                    (note "connected"))).0;
          })
    ]
