-- ===== src/Signaling/Handler/Invariant.antt =====
-- backend/internal/signaling/handler.go: what every message, disconnection and connection keeps.
use text.Mathlib.Text.{◌==◌ as str_eq}
use text.Mathlib.TextEquality.{eq_iff}
use altair.Prelude.{
  inl, inr, ℕ, ◌≢◌, refl, String, [], Option, arith, Bool-cases, Option-cases, if◌then◌else◌,
}
use altair.Signaling.Protocol.{
  Message, MessageType, JoinPayload, Endpoint, Payload, new_error_message, ErrorCode,
}
use altair.Signaling.Protocol
use altair.Signaling.Peer.{update, send_to, send_error, update_last_seen}
use altair.Signaling.Dict.{lookup}
use altair.Signaling.Room.{Room}
use altair.Signaling.Manager.{get, join_room, remove_from}
use altair.Signaling.Manager.Consistent.{IsConsistent}
use altair.Signaling.Manager.Joining.{join_room-IsConsistent, remove_from-IsConsistent}
use altair.Signaling.Handler.{
  State, fail, sending, apply_join, join_payload, announce_join, handle_join, left_note, depart,
  handle_leave, handle_discover, forward, handle_offer, handle_answer, handle_candidate,
  handle_keep_alive, dispatch, handle_message, read_step, handle_disconnect,
}
use altair.Signaling.Handler.Kept.{
  Kept-IsConsistent, send_to-Kept, broadcast-Kept, apply_join-Kept, close-Kept, update-Kept,
  announce_join-Kept,
}

-- The rooms of a server and its peers agree.
abbrev pub Agrees : State → Type 0
Agrees s = IsConsistent s.rooms s.heap

sent-Agrees :
    (s : State) (peer : ℕ) (msg : Message)
    → Agrees s
    → Agrees (sending s (send_to s.heap peer msg)).0
sent-Agrees s peer msg v = Kept-IsConsistent s.rooms s.heap _ (send_to-Kept s.heap peer msg) v

fail-Agrees :
    (s : State) (peer : ℕ) (code : ErrorCode) (text : String) (now : ℕ)
    → Agrees s
    → Agrees (fail s peer code text now).0
unfolding send_error
fail-Agrees s peer code text now v = sent-Agrees s peer (new_error_message code text now) v

announce_join-Agrees :
    (s : State) (peer : ℕ) (room_id : String) (msg : Message) (room : Room) (now : ℕ)
    → Agrees s
    → Agrees (announce_join s peer room_id msg room now)
unfolding announce_join
announce_join-Agrees s peer room_id msg room now v =
    Kept-IsConsistent s.rooms s.heap _ (announce_join-Kept s peer room_id msg room now) v

handle_join-Agrees :
    (parse : Payload → JoinPayload) (s : State) (peer : ℕ) (msg : Message) (now : ℕ)
    → Agrees s
    → Agrees (handle_join parse s peer msg now).0
unfolding handle_join
handle_join-Agrees parse s peer msg now v = elim (Bool-cases (str_eq msg.room_id "")) [
  | inl e ↦
      rw (e, handle_join) (fail-Agrees s peer Protocol.invalid_message "room_id is required" now v)
  | inr e ↦
      let p = apply_join (join_payload parse msg.payload) (s.heap peer) in
      let h1 = update s.heap peer p in
      let s1 : State = record s { heap = h1 } in
      let v1 : Agrees s1 =
        Kept-IsConsistent s.rooms s.heap h1
          (apply_join-Kept s.heap peer (join_payload parse msg.payload)) v in
      elim (Bool-cases (str_eq (s1.heap peer).room_id msg.room_id)) [
        | inl f ↦
            rw (e, f, handle_join)
              (fail-Agrees s1 peer Protocol.already_in_room "already in this room" now v1)
        | inr f ↦
            let name : msg.room_id ≢ "" = ground (arith, e, eq_iff msg.room_id "") in
            let s2 : State = record s1 {
              heap = (join_room s1.rooms s1.heap peer msg.room_id now).1;
              rooms = (join_room s1.rooms s1.heap peer msg.room_id now).0;
            } in
            let v2 : Agrees s2 =
              join_room-IsConsistent s1.rooms s1.heap peer msg.room_id now v1 name in
            elim (Option-cases (join_room s1.rooms s1.heap peer msg.room_id now).2) [
              | inl g ↦
                  rw (e, f, g, handle_join)
                    (fail-Agrees s2 peer Protocol.room_full "room is full" now v2)
              | inr (room, g) ↦
                  rw (e, f, g, handle_join)
                    (announce_join-Agrees s2 peer msg.room_id msg room now v2)
            ]
      ]
]

depart-Agrees :
    (s : State) (peer : ℕ) (room_id : String) (now : ℕ)
    → Agrees s
    → Agrees (depart s peer room_id now)
unfolding depart
depart-Agrees s peer room_id now v =
    let id = (s.heap peer).id in
    let left = remove_from s.rooms s.heap room_id id in
    let w = remove_from-IsConsistent s.rooms s.heap room_id id v in
    elim (Option-cases (get s.rooms room_id)) [
      | inl e ↦ rw (e, depart) v
      | inr (r, e) ↦ elim (Option-cases (get left.0 room_id)) [
        | inl f ↦ rw (e, f, depart) w
        | inr (r', f) ↦
            rw (e, f, depart)
              (Kept-IsConsistent left.0 left.1 _
                (broadcast-Kept r' left.1 (left_note id room_id now) []) w)
      ]
    ]

handle_leave-Agrees :
    (s : State) (peer : ℕ) (msg : Message) (now : ℕ)
    → Agrees s
    → Agrees (handle_leave s peer msg now).0
unfolding handle_leave
handle_leave-Agrees s peer msg now v = elim (Bool-cases (str_eq (s.heap peer).room_id "")) [
  | inl e ↦ rw (e, handle_leave) (fail-Agrees s peer Protocol.not_in_room "not in any room" now v)
  | inr e ↦
      rw (e, handle_leave)
        (sent-Agrees (depart s peer (s.heap peer).room_id now) peer _
          (depart-Agrees s peer (s.heap peer).room_id now v))
]

handle_discover-Agrees :
    (s : State) (peer : ℕ) (msg : Message) (now : ℕ)
    → Agrees s
    → Agrees (handle_discover s peer msg now).0
unfolding handle_discover
handle_discover-Agrees s peer msg now v =
    let room_id = if str_eq msg.room_id "" then (s.heap peer).room_id else msg.room_id in
    elim (Bool-cases (str_eq room_id "")) [
      | inl e ↦
          rw (e, handle_discover)
            (fail-Agrees s peer Protocol.not_in_room "no room specified and not in any room" now v)
      | inr e ↦ elim (Option-cases (get s.rooms room_id)) [
        | inl f ↦
            rw (e, f, handle_discover)
              (fail-Agrees s peer Protocol.room_not_found "room not found" now v)
        | inr (r, f) ↦ rw (e, f, handle_discover) (sent-Agrees s peer _ v)
      ]
    ]

forward-Agrees :
    (t : MessageType) (s : State) (peer : ℕ) (msg : Message) (now : ℕ)
    → Agrees s
    → Agrees (forward t s peer msg now).0
unfolding forward
forward-Agrees t s peer msg now v = elim (Bool-cases (str_eq msg.target_id "")) [
  | inl e ↦
      rw (e, forward) (fail-Agrees s peer Protocol.invalid_message "target_id is required" now v)
  | inr e ↦ elim (Option-cases (lookup msg.target_id s.registry)) [
    | inl f ↦
        rw (e, f, forward)
          (fail-Agrees s peer Protocol.peer_not_found "target peer not found" now v)
    | inr (target, f) ↦ rw (e, f, forward) (sent-Agrees s target _ v)
  ]
]

dispatch-Agrees :
    (parse : Payload → JoinPayload) (t : MessageType) (s : State) (peer : ℕ) (msg : Message)
    (now : ℕ)
    → Agrees s
    → Agrees (dispatch parse t s peer msg now).0
unfolding dispatch handle_offer handle_answer handle_candidate handle_keep_alive
dispatch-Agrees parse Protocol.join s peer msg now v = handle_join-Agrees parse s peer msg now v
dispatch-Agrees parse Protocol.leave s peer msg now v = handle_leave-Agrees s peer msg now v
dispatch-Agrees parse Protocol.discover s peer msg now v = handle_discover-Agrees s peer msg now v
dispatch-Agrees parse Protocol.offer s peer msg now v =
    forward-Agrees Protocol.offer s peer msg now v
dispatch-Agrees parse Protocol.answer s peer msg now v =
    forward-Agrees Protocol.answer s peer msg now v
dispatch-Agrees parse Protocol.candidate s peer msg now v =
    forward-Agrees Protocol.candidate s peer msg now v
dispatch-Agrees parse Protocol.keep_alive s peer msg now v = sent-Agrees s peer _ v
dispatch-Agrees parse _ s peer msg now v =
    fail-Agrees s peer Protocol.invalid_message "unknown message type" now v

-- One round of the read loop, with any input and any parser of payloads.
pub read_step-Agrees :
    (parse : Payload → JoinPayload) (s : State) (peer : ℕ) (input : Option Message) (now : ℕ)
    → Agrees s
    → Agrees (read_step parse s peer input now).0
unfolding read_step handle_message update_last_seen
read_step-Agrees parse s peer input now v =
    let h1 = update s.heap peer (update_last_seen (s.heap peer) now) in
    let s1 : State = record s { heap = h1 } in
    let v1 : Agrees s1 =
      Kept-IsConsistent s.rooms s.heap h1 (update-Kept s.heap peer _ refl refl) v in
    elim (Option-cases input) [
      | inl e ↦
          rw (e, read_step) (fail-Agrees s1 peer Protocol.invalid_message "invalid JSON" now v1)
      | inr (msg, e) ↦
          rw (e, read_step)
            (dispatch-Agrees parse msg.type s1 peer (record msg { peer_id = (s1.heap peer).id }) now
              v1)
    ]

pub handle_disconnect-Agrees :
    (s : State) (peer : ℕ) (now : ℕ) → Agrees s → Agrees (handle_disconnect s peer now)
unfolding handle_disconnect
handle_disconnect-Agrees s peer now v = elim (Bool-cases (str_eq (s.heap peer).room_id "")) [
  | inl e ↦
      rw (e, handle_disconnect) (Kept-IsConsistent s.rooms s.heap _ (close-Kept s.heap peer) v)
  | inr e ↦
      let s1 = depart s peer (s.heap peer).room_id now in
      rw (e, handle_disconnect)
        (Kept-IsConsistent s1.rooms s1.heap _ (close-Kept s1.heap peer)
          (depart-Agrees s peer (s.heap peer).room_id now v))
]
