-- ===== src/Signaling/Handler/Forwarding.antt =====
-- backend/internal/signaling/handler.go: where OFFER, ANSWER and CANDIDATE go.
use text.Mathlib.Text.{◌==◌ as str_eq}
use text.Mathlib.TextEquality.{eq_iff}
use altair.Prelude.{ℕ, ◌≡◌, ◌≢◌, refl, String, true, false, [], ◌∷◌, ◌++◌, none, some, arith}
use altair.Signaling.Protocol.{
  MessageType, Message, ErrorCode, Payload, JoinPayload, offer, answer, candidate, invalid_message,
  peer_not_found, new_error_message,
}
use altair.Signaling.Peer.{Peer, send, send_to, send_error, update, update_last_seen}
use altair.Signaling.Dict.{lookup}
use altair.Signaling.Handler.{
  State, fail, forward, forwarded, handle_offer, handle_answer, handle_candidate, dispatch,
  handle_message, read_step,
}
use altair.Signaling.Registry.{Registry}

-- A connection that is up and takes the next write.
abbrev pub IsWritable : Peer → Type 0
IsWritable p = (p.closed ≡ false) × (p.conn.deadline_ok ≡ true) × (p.conn.write_ok ≡ true)

-- `Send` to a peer whose connection takes the write adds the message, as the last, and nothing else.
pub send_writable :
    (p : Peer) (msg : Message)
    → IsWritable p
    → send p msg
      ≡ (record p { conn = record (p.conn) { written = p.conn.written ++ msg ∷ [] } }, none)
unfolding send
send_writable p msg v = ground (arith, v)

-- An OFFER, ANSWER or CANDIDATE whose target is named, registered and takes the write reaches it:
-- the last message written to the target has the type of the handler, the sender's ID, the
-- target's ID, and the payload and the request ID of the original. No other peer, and neither the
-- registry nor a room, changes, and no error is returned.
pub forward_delivers :
    (t : MessageType) (s : State) (peer target : ℕ) (msg : Message) (now : ℕ)
    → msg.target_id ≢ ""
    → lookup msg.target_id s.registry ≡ some target
    → IsWritable (s.heap target)
    → let (s', e) = forward t s peer msg now in
      let sent = (s'.heap target).conn.written in
      (e ≡ none)
      × ((m : Message) × (sent ≡ (s.heap target).conn.written ++ m ∷ [])
          × (m.type ≡ t)
          × (m.peer_id ≡ (s.heap peer).id)
          × (m.target_id ≡ msg.target_id)
          × (m.payload ≡ msg.payload)
          × (m.request_id ≡ msg.request_id))
      × ((q : ℕ) → target ≢ q → s'.heap q ≡ s.heap q)
      × (s'.registry ≡ s.registry)
      × (s'.rooms ≡ s.rooms)
unfolding forward send_to
forward_delivers t s peer target msg now ne e v =
    let m = forwarded t (s.heap peer).id msg now in
    let named : str_eq msg.target_id "" ≡ false = ground (arith, eq_iff msg.target_id "", ne) in
    let (c, d, w) = v in
    let closed = send_writable (s.heap target) m v in
    rw (named, e, forward, send_to, closed)
      (refl, (m, ground arith, refl, refl, refl, refl, refl), λ q n. ground (arith, n), refl, refl)

-- Which refusal a target ID earns: its code and its text.
pub data IsRefused (r : Registry) (target_id : String) : ErrorCode → String → Type 0 where
  unnamed : target_id ≡ "" → IsRefused r target_id invalid_message "target_id is required"
  unknown :
      target_id ≢ ""
      → lookup target_id r ≡ none
      → IsRefused r target_id peer_not_found "target peer not found"

forward_fails :
    (t : MessageType) (s : State) (peer : ℕ) (msg : Message) (code : ErrorCode) (text : String)
    (now : ℕ)
    → IsRefused s.registry msg.target_id code text
    → forward t s peer msg now ≡ fail s peer code text now
unfolding forward
forward_fails t s peer msg code text now (unnamed e) =
    let named : str_eq msg.target_id "" ≡ true = ground (arith, eq_iff msg.target_id "", e) in
    rw named refl
forward_fails t s peer msg code text now (unknown ne e) =
    let named : str_eq msg.target_id "" ≡ false = ground (arith, eq_iff msg.target_id "", ne) in
    rw (named, e, forward) refl

-- The messages that are meant for another peer.
pub data IsForwarded : MessageType → Type 0 where
  offers : IsForwarded offer
  answers : IsForwarded answer
  candidates : IsForwarded candidate

dispatch_forwards :
    (parse : Payload → JoinPayload) (t : MessageType) (s : State) (peer : ℕ) (msg : Message)
    (now : ℕ)
    → IsForwarded t
    → dispatch parse t s peer msg now ≡ forward t s peer msg now
unfolding dispatch handle_offer handle_answer handle_candidate
dispatch_forwards parse _ s peer msg now offers = refl
dispatch_forwards parse _ s peer msg now answers = refl
dispatch_forwards parse _ s peer msg now candidates = refl

-- An OFFER, ANSWER or CANDIDATE that is read from a peer whose connection takes the next write,
-- and that cannot be forwarded, is refused for the right reason: the sender gets one message more,
-- as its last, the ERROR with INVALID_MESSAGE and its text if no target is named, and with
-- PEER_NOT_FOUND and its text if one is named and not registered. The sender is marked as seen, no
-- other peer, and neither the registry nor a room, changes, and the handler returns no error.
pub forward_refused :
    (parse : Payload → JoinPayload) (s : State) (peer : ℕ) (msg : Message) (code : ErrorCode)
    (text : String) (now : ℕ)
    → IsForwarded msg.type
    → IsRefused s.registry msg.target_id code text
    → IsWritable (s.heap peer)
    → let (s', e) = read_step parse s peer (some msg) now in
      (e ≡ none)
      × ((s'.heap peer).conn.written
          ≡ (s.heap peer).conn.written ++ new_error_message code text now ∷ [])
      × ((s'.heap peer).last_seen ≡ now)
      × ((q : ℕ) → peer ≢ q → s'.heap q ≡ s.heap q)
      × (s'.registry ≡ s.registry)
      × (s'.rooms ≡ s.rooms)
unfolding read_step handle_message send_error send_to update_last_seen
forward_refused parse s peer msg code text now forwards refused v =
    let seen : Peer = update_last_seen (s.heap peer) now in
    let s1 : State = record s { heap = update s.heap peer seen } in
    let input : Message = record msg { peer_id = (s1.heap peer).id } in
    let sent = send_writable seen (new_error_message code text now) v in
    rw
      (
        dispatch_forwards parse msg.type s1 peer input now forwards,
        forward_fails msg.type s1 peer input code text now refused,
      )
      (ground (arith, sent))
