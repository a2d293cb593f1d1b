-- ===== src/Signaling/Handler/Ids.antt =====
-- backend/internal/signaling/handler.go: a message changes no peer's ID, and not the registry.
use text.Mathlib.Text.{◌==◌ as str_eq}
use altair.Prelude.{
  ℕ, ◌≡◌, inl, inr, refl, ◌∙◌, String, Option, arith, Bool-cases, Option-cases, if◌then◌else◌,
}
use altair.Signaling.Protocol.{
  Message, MessageType, JoinPayload, Payload, ErrorCode, new_error_message,
}
use altair.Signaling.Protocol
use altair.Signaling.Peer.{Heap, update, set_room_id, send_to, send_error, update_last_seen}
use altair.Signaling.Dict.{lookup}
use altair.Signaling.Room.{Room, add}
use altair.Signaling.Manager.{Manager, get, leave_current, enter, join_room}
use altair.Signaling.Manager.Joining.{remove_from-peer}
use altair.Signaling.Handler.{
  State, fail, sending, apply_join, join_payload, announce_join, handle_join, depart, handle_leave,
  handle_discover, forward, handle_offer, handle_answer, handle_candidate, handle_keep_alive,
  dispatch, handle_message, read_step,
}
use altair.Signaling.Handler.Kept.{Kept, send_to-Kept, announce_join-Kept, apply_join-Kept}
use altair.Signaling.Handler.Gone.{depart-Kept}

-- Every peer has the ID that it had.
unfoldable pub SameIds : Heap → Heap → Type 0
SameIds h h' = (p : ℕ) → (h' p).id ≡ (h p).id

unfoldable pub Same : State → State → Type 0
Same s s' = (s'.registry ≡ s.registry) × SameIds s.heap s'.heap

Kept-SameIds : (h h' : Heap) → Kept h h' → SameIds h h'
unfolding Kept SameIds
Kept-SameIds h h' k p = (k p).0

pub join_room-SameIds :
    (rm : Manager) (h : Heap) (peer : ℕ) (room_id : String) (now : ℕ)
    → SameIds h (join_room rm h peer room_id now).1
unfolding join_room leave_current enter add set_room_id SameIds
join_room-SameIds rm h peer room_id now p =
    ground (arith, remove_from-peer rm h (h peer).room_id (h peer).id p)

sent-Same : (s : State) (peer : ℕ) (msg : Message) → Same s (sending s (send_to s.heap peer msg)).0
unfolding Same
sent-Same s peer msg = (refl, Kept-SameIds s.heap _ (send_to-Kept s.heap peer msg))

fail-Same :
    (s : State) (peer : ℕ) (code : ErrorCode) (text : String) (now : ℕ)
    → Same s (fail s peer code text now).0
unfolding send_error
fail-Same s peer code text now = sent-Same s peer (new_error_message code text now)

Same-trans : (a b c : State) → Same a b → Same b c → Same a c
unfolding Same SameIds
Same-trans a b c (r, u) (q, v) = (q ∙ r, λ p. v p ∙ u p)

announce_join-Same :
    (s : State) (peer : ℕ) (room_id : String) (msg : Message) (room : Room) (now : ℕ)
    → Same s (announce_join s peer room_id msg room now)
unfolding announce_join Same
announce_join-Same s peer room_id msg room now =
    (refl, Kept-SameIds s.heap _ (announce_join-Kept s peer room_id msg room now))

joined-Same :
    (s : State) (peer : ℕ) (msg : Message) (now : ℕ)
    → let (rm, h, joined) = join_room s.rooms s.heap peer msg.room_id now in
      Same s (record s { heap = h; rooms = rm })
unfolding Same
joined-Same s peer msg now = (refl, join_room-SameIds s.rooms s.heap peer msg.room_id now)

handle_join-Same :
    (parse : Payload → JoinPayload) (s : State) (peer : ℕ) (msg : Message) (now : ℕ)
    → Same s (handle_join parse s peer msg now).0
unfolding handle_join
handle_join-Same parse s peer msg now = elim (Bool-cases (str_eq msg.room_id "")) [
  | inl e ↦
      rw (e, handle_join) (fail-Same s peer Protocol.invalid_message "room_id is required" now)
  | inr e ↦
      let payload = join_payload parse msg.payload in
      let s1 : State = record s { heap = update s.heap peer (apply_join payload (s.heap peer)) } in
      let v1 : Same s s1 =
        unfold Same in (refl, Kept-SameIds s.heap s1.heap (apply_join-Kept s.heap peer payload)) in
      elim (Bool-cases (str_eq (s1.heap peer).room_id msg.room_id)) [
        | inl f ↦
            rw (e, f, handle_join)
              (Same-trans s s1 _ v1
                (fail-Same s1 peer Protocol.already_in_room "already in this room" now))
        | inr f ↦
            let s2 : State = record s1 {
              heap = (join_room s1.rooms s1.heap peer msg.room_id now).1;
              rooms = (join_room s1.rooms s1.heap peer msg.room_id now).0;
            } in
            let v2 : Same s s2 = Same-trans s s1 s2 v1 (joined-Same s1 peer msg now) in
            elim (Option-cases (join_room s1.rooms s1.heap peer msg.room_id now).2) [
              | inl g ↦
                  rw (e, f, g, handle_join)
                    (Same-trans s s2 _ v2 (fail-Same s2 peer Protocol.room_full "room is full" now))
              | inr (room, g) ↦
                  rw (e, f, g, handle_join)
                    (Same-trans s s2 _ v2 (announce_join-Same s2 peer msg.room_id msg room now))
            ]
      ]
]

pub depart-Same :
    (s : State) (peer : ℕ) (room_id : String) (now : ℕ) → Same s (depart s peer room_id now)
unfolding Same SameIds Kept
depart-Same s peer room_id now =
    let (rooms, kept, reg) = depart-Kept s peer room_id now in
    (reg, λ p. (kept p).0 ∙ (remove_from-peer s.rooms s.heap room_id (s.heap peer).id p).0)

handle_leave-Same :
    (s : State) (peer : ℕ) (msg : Message) (now : ℕ) → Same s (handle_leave s peer msg now).0
unfolding handle_leave
handle_leave-Same s peer msg now = elim (Bool-cases (str_eq (s.heap peer).room_id "")) [
  | inl e ↦ rw (e, handle_leave) (fail-Same s peer Protocol.not_in_room "not in any room" now)
  | inr e ↦
      let s1 = depart s peer (s.heap peer).room_id now in
      rw (e, handle_leave)
        (Same-trans s s1 _ (depart-Same s peer (s.heap peer).room_id now) (sent-Same s1 peer _))
]

handle_discover-Same :
    (s : State) (peer : ℕ) (msg : Message) (now : ℕ) → Same s (handle_discover s peer msg now).0
unfolding handle_discover
handle_discover-Same s peer msg now =
    let room_id = if str_eq msg.room_id "" then (s.heap peer).room_id else msg.room_id in
    elim (Bool-cases (str_eq room_id "")) [
      | inl e ↦
          rw (e, handle_discover)
            (fail-Same s peer Protocol.not_in_room "no room specified and not in any room" now)
      | inr e ↦ elim (Option-cases (get s.rooms room_id)) [
        | inl f ↦
            rw (e, f, handle_discover)
              (fail-Same s peer Protocol.room_not_found "room not found" now)
        | inr (r, f) ↦ rw (e, f, handle_discover) (sent-Same s peer _)
      ]
    ]

forward-Same :
    (t : MessageType) (s : State) (peer : ℕ) (msg : Message) (now : ℕ)
    → Same s (forward t s peer msg now).0
unfolding forward
forward-Same t s peer msg now = elim (Bool-cases (str_eq msg.target_id "")) [
  | inl e ↦ rw (e, forward) (fail-Same s peer Protocol.invalid_message "target_id is required" now)
  | inr e ↦ elim (Option-cases (lookup msg.target_id s.registry)) [
    | inl f ↦
        rw (e, f, forward) (fail-Same s peer Protocol.peer_not_found "target peer not found" now)
    | inr (target, f) ↦ rw (e, f, forward) (sent-Same s target _)
  ]
]

dispatch-Same :
    (parse : Payload → JoinPayload) (t : MessageType) (s : State) (peer : ℕ) (msg : Message)
    (now : ℕ)
    → Same s (dispatch parse t s peer msg now).0
unfolding dispatch handle_offer handle_answer handle_candidate handle_keep_alive
dispatch-Same parse Protocol.join s peer msg now = handle_join-Same parse s peer msg now
dispatch-Same parse Protocol.leave s peer msg now = handle_leave-Same s peer msg now
dispatch-Same parse Protocol.discover s peer msg now = handle_discover-Same s peer msg now
dispatch-Same parse Protocol.offer s peer msg now = forward-Same Protocol.offer s peer msg now
dispatch-Same parse Protocol.answer s peer msg now = forward-Same Protocol.answer s peer msg now
dispatch-Same parse Protocol.candidate s peer msg now =
    forward-Same Protocol.candidate s peer msg now
dispatch-Same parse Protocol.keep_alive s peer msg now = sent-Same s peer _
dispatch-Same parse _ s peer msg now =
    fail-Same s peer Protocol.invalid_message "unknown message type" now

seen-Same :
    (s : State) (peer now : ℕ)
    → Same s (record s { heap = update s.heap peer (update_last_seen (s.heap peer) now) })
unfolding Same SameIds update_last_seen
seen-Same s peer now = (refl, λ p. ground arith)

pub read_step-Same :
    (parse : Payload → JoinPayload) (s : State) (peer : ℕ) (input : Option Message) (now : ℕ)
    → Same s (read_step parse s peer input now).0
unfolding read_step handle_message
read_step-Same parse s peer input now =
    let s1 : State = record s { heap = update s.heap peer (update_last_seen (s.heap peer) now) } in
    let v1 : Same s s1 = seen-Same s peer now in
    elim (Option-cases input) [
      | inl e ↦
          rw (e, read_step)
            (Same-trans s s1 _ v1 (fail-Same s1 peer Protocol.invalid_message "invalid JSON" now))
      | inr (msg, e) ↦
          rw (e, read_step)
            (Same-trans s s1 _ v1 (
              dispatch-Same parse msg.type s1 peer (record msg { peer_id = (s1.heap peer).id })
                now))
    ]
