-- ===== src/Signaling/Spec/Refines.antt =====
-- backend/internal/signaling: every message, connection, disconnection and clean-up does to the rooms
-- what the assignment of rooms says.
use text.Mathlib.Text.{◌==◌ as str_eq}
use text.Mathlib.TextEquality.{eq_iff}
use altair.Prelude.{
  ℕ, ◌≡◌, ◌≢◌, refl, sym, ◌∙◌, String, Option, inl, inr, arith, Bool-cases, Option-cases,
  if◌then◌else◌,
}
use altair.Signaling.Protocol.{
  Message, MessageType, JoinPayload, Payload, ErrorCode, new_error_message,
}
use altair.Signaling.Protocol
use altair.Signaling.Peer.{update, send_to, send_error, update_last_seen}
use altair.Signaling.Dict.{lookup}
use altair.Signaling.Room.{Room}
use altair.Signaling.Manager.{get, join_room, remove_from}
use altair.Signaling.Handler.{
  State, fail, sending, apply_join, join_payload, announce_join, handle_join, depart, handle_leave,
  handle_discover, forward, handle_offer, handle_answer, handle_candidate, handle_keep_alive,
  dispatch, handle_message, read_step, handle_disconnect,
}
use altair.Signaling.Handler.Kept.{
  Kept, send_to-Kept, apply_join-Kept, close-Kept, update-Kept, announce_join-Kept,
}
use altair.Signaling.Handler.Gone.{depart-Kept}
use altair.Signaling.Server.{received}
use altair.Signaling.Spec.{Assignment, move, obey, assign}
use altair.Signaling.Spec.Placed.{IsPlaced, Kept-IsPlaced, same-IsPlaced}
use altair.Signaling.Spec.Leaving.{remove_from-IsPlaced}
use altair.Signaling.Spec.Joining.{join_room-IsPlaced}

abbrev pub Follows : State → Assignment → Type 0
Follows s f = IsPlaced s.rooms s.heap f

sent-Follows :
    (s : State) (f : Assignment) (peer : ℕ) (msg : Message)
    → Follows s f
    → Follows (sending s (send_to s.heap peer msg)).0 f
sent-Follows s f peer msg v = Kept-IsPlaced s.rooms s.heap _ f (send_to-Kept s.heap peer msg) v

fail-Follows :
    (s : State) (f : Assignment) (peer : ℕ) (code : ErrorCode) (text : String) (now : ℕ)
    → Follows s f
    → Follows (fail s peer code text now).0 f
unfolding send_error
fail-Follows s f peer code text now v = sent-Follows s f peer (new_error_message code text now) v

-- Who is in a room already is moved nowhere.
there-Follows :
    (s : State) (f : Assignment) (peer : ℕ) (room_id : String)
    → (s.heap peer).room_id ≡ room_id
    → Follows s f
    → Follows s (move f peer room_id)
there-Follows s f peer room_id e v =
    same-IsPlaced s.rooms s.heap f (move f peer room_id) (λ p. ground (arith, e, v.follows p)) v

announce_join-Follows :
    (s : State) (f : Assignment) (peer : ℕ) (room_id : String) (msg : Message) (room : Room)
    (now : ℕ)
    → Follows s f
    → Follows (announce_join s peer room_id msg room now) f
unfolding announce_join
announce_join-Follows s f peer room_id msg room now v =
    Kept-IsPlaced s.rooms s.heap _ f (announce_join-Kept s peer room_id msg room now) v

handle_join-Follows :
    (parse : Payload → JoinPayload) (s : State) (f : Assignment) (peer : ℕ) (msg : Message)
    (now : ℕ)
    → (s.heap peer).id ≢ ""
    → Follows s f
    → Follows (handle_join parse s peer msg now).0 (obey Protocol.join f peer msg.room_id)
unfolding handle_join Kept
handle_join-Follows parse s f peer msg now live v = elim (Bool-cases (str_eq msg.room_id "")) [
  | inl e ↦
      rw (e, handle_join)
        (fail-Follows s f peer Protocol.invalid_message "room_id is required" now v)
  | inr e ↦
      let payload = join_payload parse msg.payload in
      let s1 : State = record s { heap = update s.heap peer (apply_join payload (s.heap peer)) } in
      let k = apply_join-Kept s.heap peer payload in
      let v1 : Follows s1 f = Kept-IsPlaced s.rooms s.heap s1.heap f k v in
      elim (Bool-cases (str_eq (s1.heap peer).room_id msg.room_id)) [
        | inl g ↦
            rw (e, g, handle_join)
              (fail-Follows s1 _ peer Protocol.already_in_room "already in this room" now (
                there-Follows s1 f peer msg.room_id
                  ((eq_iff (s1.heap peer).room_id msg.room_id).0 g) v1))
        | inr g ↦
            let (v2, (room, joined)) =
              join_room-IsPlaced s1.rooms s1.heap f peer msg.room_id now v1
                (λ n. live (sym (k peer).0 ∙ n)) (ground (arith, e, eq_iff msg.room_id ""))
                (ground (arith, g, eq_iff (s1.heap peer).room_id msg.room_id)) in
            let s2 : State = record s1 {
              heap = (join_room s1.rooms s1.heap peer msg.room_id now).1;
              rooms = (join_room s1.rooms s1.heap peer msg.room_id now).0;
            } in
            rw (e, g, joined, handle_join)
              (announce_join-Follows s2 (move f peer msg.room_id) peer msg.room_id msg room now v2)
      ]
]

depart-Follows :
    (s : State) (f : Assignment) (peer : ℕ) (now : ℕ)
    → (s.heap peer).room_id ≢ ""
    → Follows s f
    → Follows (depart s peer (s.heap peer).room_id now) (move f peer "")
depart-Follows s f peer now ne v =
    let room_id = (s.heap peer).room_id in
    let (rooms, k, reg) = depart-Kept s peer room_id now in
    let (rm, h) = remove_from s.rooms s.heap room_id (s.heap peer).id in
    rw rooms
      (Kept-IsPlaced rm h _ (move f peer "") k (remove_from-IsPlaced s.rooms s.heap f peer v ne))

handle_leave-Follows :
    (s : State) (f : Assignment) (peer : ℕ) (msg : Message) (now : ℕ)
    → Follows s f
    → Follows (handle_leave s peer msg now).0 (move f peer "")
unfolding handle_leave
handle_leave-Follows s f peer msg now v = elim (Bool-cases (str_eq (s.heap peer).room_id "")) [
  | inl e ↦
      rw (e, handle_leave)
        (fail-Follows s _ peer Protocol.not_in_room "not in any room" now
          (there-Follows s f peer "" ((eq_iff (s.heap peer).room_id "").0 e) v))
  | inr e ↦
      rw (e, handle_leave)
        (sent-Follows (depart s peer (s.heap peer).room_id now) _ peer _
          (depart-Follows s f peer now (ground (arith, e, eq_iff (s.heap peer).room_id "")) v))
]

handle_discover-Follows :
    (s : State) (f : Assignment) (peer : ℕ) (msg : Message) (now : ℕ)
    → Follows s f
    → Follows (handle_discover s peer msg now).0 f
unfolding handle_discover
handle_discover-Follows s f peer msg now v =
    let room_id = if str_eq msg.room_id "" then (s.heap peer).room_id else msg.room_id in
    elim (Bool-cases (str_eq room_id "")) [
      | inl e ↦
          rw (e, handle_discover)
            (fail-Follows s f peer Protocol.not_in_room "no room specified and not in any room" now
              v)
      | inr e ↦ elim (Option-cases (get s.rooms room_id)) [
        | inl g ↦
            rw (e, g, handle_discover)
              (fail-Follows s f peer Protocol.room_not_found "room not found" now v)
        | inr (r, g) ↦ rw (e, g, handle_discover) (sent-Follows s f peer _ v)
      ]
    ]

forward-Follows :
    (t : MessageType) (s : State) (f : Assignment) (peer : ℕ) (msg : Message) (now : ℕ)
    → Follows s f
    → Follows (forward t s peer msg now).0 f
unfolding forward
forward-Follows t s f peer msg now v = elim (Bool-cases (str_eq msg.target_id "")) [
  | inl e ↦
      rw (e, forward) (fail-Follows s f peer Protocol.invalid_message "target_id is required" now v)
  | inr e ↦ elim (Option-cases (lookup msg.target_id s.registry)) [
    | inl g ↦
        rw (e, g, forward)
          (fail-Follows s f peer Protocol.peer_not_found "target peer not found" now v)
    | inr (target, g) ↦ rw (e, g, forward) (sent-Follows s f target _ v)
  ]
]

dispatch-Follows :
    (parse : Payload → JoinPayload) (t : MessageType) (s : State) (f : Assignment) (peer : ℕ)
    (msg : Message) (now : ℕ)
    → (s.heap peer).id ≢ ""
    → Follows s f
    → Follows (dispatch parse t s peer msg now).0 (obey t f peer msg.room_id)
unfolding dispatch handle_offer handle_answer handle_candidate handle_keep_alive
dispatch-Follows parse Protocol.join s f peer msg now live v =
    handle_join-Follows parse s f peer msg now live v
dispatch-Follows parse Protocol.leave s f peer msg now live v =
    handle_leave-Follows s f peer msg now v
dispatch-Follows parse Protocol.discover s f peer msg now live v =
    handle_discover-Follows s f peer msg now v
dispatch-Follows parse Protocol.offer s f peer msg now live v =
    forward-Follows Protocol.offer s f peer msg now v
dispatch-Follows parse Protocol.answer s f peer msg now live v =
    forward-Follows Protocol.answer s f peer msg now v
dispatch-Follows parse Protocol.candidate s f peer msg now live v =
    forward-Follows Protocol.candidate s f peer msg now v
dispatch-Follows parse Protocol.keep_alive s f peer msg now live v = sent-Follows s f peer _ v
dispatch-Follows parse _ s f peer msg now live v =
    fail-Follows s f peer Protocol.invalid_message "unknown message type" now v

pub seen-Follows :
    (s : State) (f : Assignment) (peer now : ℕ)
    → Follows s f
    → Follows (record s { heap = update s.heap peer (update_last_seen (s.heap peer) now) }) f
unfolding update_last_seen
seen-Follows s f peer now v =
    Kept-IsPlaced s.rooms s.heap _ f (update-Kept s.heap peer _ refl refl) v

pub read_step-Follows :
    (parse : Payload → JoinPayload) (s : State) (f : Assignment) (peer : ℕ) (input : Option Message)
    (now : ℕ)
    → (s.heap peer).id ≢ ""
    → Follows s f
    → Follows (read_step parse s peer input now).0 (assign f (received peer input now))
unfolding read_step handle_message update_last_seen
read_step-Follows parse s f peer input now live v =
    let s1 : State = record s { heap = update s.heap peer (update_last_seen (s.heap peer) now) } in
    let v1 = seen-Follows s f peer now v in
    elim (Option-cases input) [
      | inl e ↦
          rw (e, read_step) (fail-Follows s1 f peer Protocol.invalid_message "invalid JSON" now v1)
      | inr (msg, e) ↦
          rw (e, read_step)
            (dispatch-Follows parse msg.type s1 f peer (record msg { peer_id = (s1.heap peer).id })
              now (λ n. live (ground (arith, n))) v1)
    ]

pub handle_disconnect-Follows :
    (s : State) (f : Assignment) (peer now : ℕ)
    → Follows s f
    → Follows (handle_disconnect s peer now) (move f peer "")
unfolding handle_disconnect
handle_disconnect-Follows s f peer now v = elim (Bool-cases (str_eq (s.heap peer).room_id "")) [
  | inl e ↦
      rw (e, handle_disconnect)
        (Kept-IsPlaced s.rooms s.heap _ _ (close-Kept s.heap peer)
          (there-Follows s f peer "" ((eq_iff (s.heap peer).room_id "").0 e) v))
  | inr e ↦
      let s1 = depart s peer (s.heap peer).room_id now in
      rw (e, handle_disconnect)
        (Kept-IsPlaced s1.rooms s1.heap _ _ (close-Kept s1.heap peer)
          (depart-Follows s f peer now (ground (arith, e, eq_iff (s.heap peer).room_id "")) v))
]
