-- ===== src/Signaling/Spec/Tests.antt =====
-- The theorems on the assignment of rooms at concrete inputs.
use text.Mathlib.TextEquality.{eq_iff}
use altair.Prelude.{sym, ◌++◌, true, ◌≡◌, ◌≢◌, refl, List, [], ◌∷◌, some, arith}
use altair.Signaling.Protocol.{Message, empty, raw, discover, offer}
use altair.Signaling.Peer.{Heap, new_peer, send_to, send, update_last_seen, set_room_id, info}
use altair.Signaling.Dict.{lookup, insert}
use altair.Signaling.Room.{new_room, add, broadcast, send_all, recipients, excluded, peer_infos}
use altair.Signaling.Manager.{new_manager, get, put, get_or_create, leave_current, enter, join_room}
use altair.Signaling.Registry.{register, free_id}
use altair.Signaling.Handler.{
  handle_discover, forward, State, connect, left_note, handle_disconnect, read_step, handle_message,
  dispatch, handle_join, apply_join, join_payload, announce_join,
}
use altair.Signaling.Server.{new_state, Event, connected, received, step}
use altair.Signaling.Spec.{Run, opened, after, AllNewIds, IsSound, assigns, is_in}
use altair.Signaling.Spec.Runs.{rooms_refine}
use altair.Signaling.Spec.Told.{disconnect_told}
use altair.Signaling.Spec.Meeting.{Listing, peers_meet}
use altair.Signaling.Handler.Forwarding.{IsWritable}
use altair.Signaling.Spec.Welcome.{Announcement, join_told}
use altair.Signaling.Tests.{up, parse_nothing, a_join}

abbrev pub blank : Heap
blank i = new_peer "" up 0

abbrev the_start : State
the_start = new_state blank

abbrev a_connected : State
a_connected = step parse_nothing the_start (connected 0 up ("a" ∷ []) 1)

abbrev pub a_there : State
a_there = step parse_nothing a_connected (received 0 (some a_join) 2)

abbrev b_connected : State
b_connected = step parse_nothing a_there (connected 1 up ("b" ∷ []) 3)

abbrev pub a_events : List Event
a_events = received 0 (some a_join) 2 ∷ connected 0 up ("a" ∷ []) 1 ∷ []

abbrev b_events : List Event
b_events = connected 1 up ("b" ∷ []) 3 ∷ a_events

opened-Run : Run parse_nothing [] the_start
opened-Run = opened blank (unfold new_peer in λ q. (refl, refl))

a_connected-Run : Run parse_nothing (connected 0 up ("a" ∷ []) 1 ∷ []) a_connected
unfolding IsSound new_state new_peer
a_connected-Run =
    after (connected 0 up ("a" ∷ []) 1) opened-Run
      (refl, ((ground (arith, eq_iff "a" ""), λ q. ground (arith, eq_iff "" "a")), tt))

pub a_there-Run : Run parse_nothing a_events a_there
unfolding step connect register free_id lookup insert new_peer send_to send read_step
    update_last_seen handle_message dispatch handle_join apply_join join_payload join_room
    leave_current enter get get_or_create put new_room add set_room_id announce_join broadcast
    send_all recipients excluded new_state new_manager info peer_infos IsSound
a_there-Run = after (received 0 (some a_join) 2) a_connected-Run (ground (arith, eq_iff "a" ""))

pub b_unused : (a_there.heap 1).id ≡ ""
unfolding step connect register free_id lookup insert new_peer send_to send read_step
    update_last_seen handle_message dispatch handle_join apply_join join_payload join_room
    leave_current enter get get_or_create put new_room add set_room_id announce_join broadcast
    send_all recipients excluded new_state new_manager info peer_infos IsSound
b_unused = refl

pub b_new : AllNewIds a_there.heap ("b" ∷ [])
unfolding step connect register free_id lookup insert new_peer send_to send read_step
    update_last_seen handle_message dispatch handle_join apply_join join_payload join_room
    leave_current enter get get_or_create put new_room add set_room_id announce_join broadcast
    send_all recipients excluded new_state new_manager info peer_infos IsSound
b_new = ((ground (arith, eq_iff "b" ""), λ q. ground (arith, eq_iff "" "b", eq_iff "a" "b")), tt)

b_connected-Run : Run parse_nothing b_events b_connected
unfolding IsSound
b_connected-Run = after (connected 1 up ("b" ∷ []) 3) a_there-Run (b_unused, b_new)

-- "a" has joined, "b" has not.
rooms_refine_example :
    ((b_connected.heap 0).room_id ≡ "lobby") × (is_in b_connected.rooms "lobby" 0 ≡ true)
rooms_refine_example =
    rooms_refine parse_nothing b_events b_connected "lobby" 0 b_connected-Run
      (ground (arith, eq_iff "lobby" ""))

-- "b" joins, and "a" is told.
b_named : (b_connected.heap 1).id ≢ ""
unfolding step connect register free_id lookup insert new_peer send_to send read_step
    update_last_seen handle_message dispatch handle_join apply_join join_payload join_room
    leave_current enter get get_or_create put new_room add set_room_id announce_join broadcast
    send_all recipients excluded new_state new_manager info peer_infos
b_named = ground (arith, eq_iff "b" "")

join_told_example :
    Announcement b_connected
      (read_step parse_nothing b_connected 1 (some a_join) 4).0
      (assigns b_events)
      1
      (set_room_id
        (apply_join (join_payload parse_nothing empty) (update_last_seen (b_connected.heap 1) 4))
        "lobby")
      "lobby"
join_told_example =
    join_told parse_nothing b_events b_connected 1 a_join 4 b_connected-Run b_named refl
      (ground (arith, eq_iff "lobby" "")) (ground (arith, eq_iff "" "lobby"))

abbrev both_events : List Event
both_events = received 1 (some a_join) 4 ∷ b_events

abbrev both_there : State
both_there = step parse_nothing b_connected (received 1 (some a_join) 4)

both_there-Run : Run parse_nothing both_events both_there
unfolding IsSound
both_there-Run = after (received 1 (some a_join) 4) b_connected-Run b_named

-- "b" goes, and "a" is told.
disconnect_told_example :
    (handle_disconnect both_there 1 5).heap 0
    ≡ (send (both_there.heap 0) (left_note (both_there.heap 1).id "lobby" 5)).0
disconnect_told_example =
    disconnect_told parse_nothing both_events both_there 1 5 0 both_there-Run
      (ground (arith, eq_iff "lobby" ""))

-- "a" asks for the peers of its room, and sends an offer to "b".
abbrev an_ask : Message
an_ask = record {
  type = discover;
  peer_id = "a";
  target_id = "";
  room_id = "";
  payload = empty;
  timestamp = 5;
  request_id = "1";
}

abbrev an_offer : Message
an_offer = record an_ask { type = offer; target_id = "b"; payload = raw "{}" }

b_is : (both_there.heap 1).id ≡ "b"
unfolding step connect register free_id lookup insert new_peer send_to send read_step
    update_last_seen handle_message dispatch handle_join apply_join join_payload join_room
    leave_current enter get get_or_create put new_room add set_room_id announce_join broadcast
    send_all recipients excluded new_state new_manager info peer_infos
b_is = refl

b_registered : lookup "b" both_there.registry ≡ some 1
unfolding step connect register free_id lookup insert new_peer send_to send read_step
    update_last_seen handle_message dispatch handle_join apply_join join_payload join_room
    leave_current enter get get_or_create put new_room add set_room_id announce_join broadcast
    send_all recipients excluded new_state new_manager info peer_infos
b_registered = refl

both-IsWritable : IsWritable (both_there.heap 0) × IsWritable (both_there.heap 1)
unfolding step connect register free_id lookup insert new_peer send_to send read_step
    update_last_seen handle_message dispatch handle_join apply_join join_payload join_room
    leave_current enter get get_or_create put new_room add set_room_id announce_join broadcast
    send_all recipients excluded new_state new_manager info peer_infos
both-IsWritable = ((refl, refl, refl), (refl, refl, refl))

peers_meet_example :
    let s1 = (handle_discover both_there 0 an_ask 6).0 in
    let s2 = (forward offer s1 0 an_offer 7).0 in
    Listing both_there s1 0 "lobby" (both_there.heap 1).id
    × ((m : Message) × ((s2.heap 1).conn.written ≡ (both_there.heap 1).conn.written ++ m ∷ [])
        × (m.type ≡ offer)
        × (m.peer_id ≡ (both_there.heap 0).id)
        × (m.payload ≡ raw "{}"))
peers_meet_example =
    peers_meet parse_nothing both_events both_there 0 1 an_ask an_offer offer 6 7 both_there-Run
      (ground arith) (ground (arith, eq_iff "lobby" "")) refl refl (sym b_is) (rw b_is b_registered)
      both-IsWritable.0 both-IsWritable.1
