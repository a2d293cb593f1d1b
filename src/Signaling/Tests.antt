-- ===== src/Signaling/Tests.antt =====
-- The theorems on rooms, registry and handlers at concrete inputs.
mod Rooms
mod Lasting
use text.Mathlib.Text.{◌==◌ as str_eq}
use text.Mathlib.TextEquality.{eq_iff}
use altair.Prelude.{
  false, ℕ, ◌+◌, ◌≡◌, ◌≢◌, inr, refl, ◌==◌, if◌then◌else◌, length, String, true, [], ◌∷◌, ◌++◌,
  some, none, arith,
}
use altair.Signaling.Protocol.{
  Message, Payload, JoinPayload, join, offer, raw, empty, peer_not_found, new_error_message,
}
use altair.Signaling.Dict.{lookup, insert}
use altair.Signaling.Peer.{
  close, Conn, Heap, new_peer, send_to, send, update_last_seen, set_room_id, info,
}
use altair.Signaling.Room.{
  Room, new_room, add, broadcast, send_all, recipients, excluded, peer_infos,
}
use altair.Signaling.Manager.{
  Manager, new_manager, get, put, get_or_create, leave_current, enter, join_room,
}
use altair.Signaling.Manager.Consistent.{IsConsistent}
use altair.Signaling.Manager.Joined.{JoinOutcome, join_room_outcome}
use altair.Signaling.Registry.{cleanup_stale, Registry, register, free_id}
use altair.Signaling.Registry.Laws.{register_fresh}
use altair.Signaling.Handler.{
  joined_note, left_note, depart, handle_disconnect, State, forward, connect, read_step,
  handle_message, dispatch, handle_join, apply_join, join_payload, announce_join,
}
use altair.Signaling.Handler.Announce.{announce_join_lem, depart_lem}
use altair.Signaling.Handler.Gone.{handle_disconnect_gone}
use altair.Signaling.Registry.Cleanup.{cleanup_stale_lem}
use altair.Signaling.Server.Shutdown.{shutdown_closes}
use altair.Signaling.Room.Broadcast.{holds}
use altair.Signaling.Manager.Consistent.{IsRoom}
use altair.Signaling.Handler.Forwarding.{offers, unknown, forward_delivers, forward_refused}
use altair.Signaling.Server.{shutdown, new_state, Event, connected, received, step}
use altair.Signaling.Server.Reachable.{
  Reachable, start, next, IsNew, Reachable-IsConsistent, one_room,
}

abbrev pub up : Conn
up = record { deadline_ok = true; write_ok = true; written = []; is_open = true }

-- Two peers, "a" and "b".
abbrev pub two_peers : Heap
two_peers i = if i == 0 then new_peer "a" up 0 else new_peer "b" up 0

abbrev two_registered : State
two_registered = record {
  heap = two_peers;
  registry = ("a", 0) ∷ ("b", 1) ∷ [];
  rooms = new_manager;
}

abbrev pub parse_nothing : Payload → JoinPayload
parse_nothing payload = record { display_name = ""; endpoint = none }

fresh_rooms : IsConsistent new_manager two_peers
unfolding new_state
fresh_rooms = Reachable-IsConsistent parse_nothing (new_state two_peers) (start two_peers)

join_room_outcome_example :
    let (rm', h', joined) = join_room new_manager two_peers 0 "lobby" 5 in
    JoinOutcome rm' h' 0 (two_peers 0).id "lobby" joined
join_room_outcome_example = join_room_outcome new_manager two_peers 0 "lobby" 5 fresh_rooms

-- An empty room of age 400 s and a time to live of 300 s.
abbrev pub one_room_left : Manager
one_room_left = record {
  rooms = ("lobby", new_room "lobby" 0) ∷ [];
  default_max_peers = 0;
  empty_room_ttl = 300;
}

abbrev one_registered : Registry
one_registered = ("a", 0) ∷ []

abbrev an_offer : Message
an_offer = record {
  type = offer;
  peer_id = "";
  target_id = "b";
  room_id = "";
  payload = raw "{}";
  timestamp = 1;
  request_id = "7";
}

forward_delivers_example :
    let (s', e) = forward offer two_registered 0 an_offer 9 in
    let sent = (s'.heap 1).conn.written in
    (e ≡ none)
    × ((m : Message) × (sent ≡ (two_peers 1).conn.written ++ m ∷ [])
        × (m.type ≡ offer)
        × (m.peer_id ≡ (two_peers 0).id)
        × (m.target_id ≡ "b")
        × (m.payload ≡ raw "{}")
        × (m.request_id ≡ "7"))
    × ((q : ℕ) → 1 ≢ q → s'.heap q ≡ two_peers q)
    × (s'.registry ≡ two_registered.registry)
    × (s'.rooms ≡ new_manager)
forward_delivers_example =
    forward_delivers offer two_registered 0 1 an_offer 9 (ground (arith, eq_iff "b" ""))
      (unfold lookup in refl) (unfold new_peer in (refl, refl, refl))

abbrev to_nobody : Message
to_nobody = record an_offer { target_id = "z" }

forward_refused_example :
    let (s', e) = read_step parse_nothing two_registered 0 (some to_nobody) 9 in
    let text : String = "target peer not found" in
    (e ≡ none)
    × ((s'.heap 0).conn.written ≡ new_error_message peer_not_found text 9 ∷ [])
    × ((s'.heap 0).last_seen ≡ 9)
    × ((q : ℕ) → 0 ≢ q → s'.heap q ≡ two_peers q)
    × (s'.registry ≡ two_registered.registry)
    × (s'.rooms ≡ new_manager)
unfolding new_peer
forward_refused_example =
    forward_refused parse_nothing two_registered 0 to_nobody peer_not_found "target peer not found"
      9 offers (unknown (ground (arith, eq_iff "z" "")) (unfold lookup in refl)) (refl, refl, refl)

-- A peer connects and joins a room.
abbrev pub a_join : Message
a_join = record {
  type = join;
  peer_id = "";
  target_id = "";
  room_id = "lobby";
  payload = empty;
  timestamp = 1;
  request_id = "";
}

abbrev pub first_event : Event
first_event = connected 0 up ("a" ∷ []) 1

abbrev pub second_event : Event
second_event = received 0 (some a_join) 2

abbrev pub joined_state : State
joined_state =
    step parse_nothing (step parse_nothing (new_state two_peers) first_event) second_event

pub joined-Reachable : Reachable parse_nothing joined_state
unfolding new_state new_manager get lookup IsNew
joined-Reachable =
    next second_event
      (next first_event (start two_peers)
        ((λ room_id id r e. ground (arith, e)), λ id e. ground (arith, e)))
      tt

Reachable-IsConsistent_example : IsConsistent joined_state.rooms joined_state.heap
Reachable-IsConsistent_example = Reachable-IsConsistent parse_nothing joined_state joined-Reachable

-- A second peer connects and joins the room.
abbrev pub both_joined : State
both_joined =
    step parse_nothing (step parse_nothing joined_state (connected 1 up ("b" ∷ []) 3))
      (received 1 (some a_join) 4)

both_joined-Reachable : Reachable parse_nothing both_joined
unfolding step connect register free_id lookup insert new_peer send_to send read_step
    update_last_seen handle_message dispatch handle_join apply_join join_payload join_room
    leave_current enter get get_or_create put new_room add set_room_id announce_join broadcast
    send_all recipients excluded new_state new_manager info peer_infos IsNew
both_joined-Reachable =
    next (received 1 (some a_join) 4)
      (next (connected 1 up ("b" ∷ []) 3) joined-Reachable
        ((λ room_id id r e. ground (arith, e)), λ id e. ground (arith, e)))
      tt

abbrev pub full_lobby : Room
full_lobby = record {
  id = "lobby";
  created_at = 2;
  max_peers = 0;
  peers = ("a", 0) ∷ ("b", 1) ∷ [];
}

full_lobby_there : get both_joined.rooms "lobby" ≡ some full_lobby
unfolding step connect register free_id lookup insert new_peer send_to send read_step
    update_last_seen handle_message dispatch handle_join apply_join join_payload join_room
    leave_current enter get get_or_create put new_room add set_room_id announce_join broadcast
    send_all recipients excluded new_state new_manager info peer_infos
full_lobby_there = refl

both_joined-IsConsistent : IsConsistent both_joined.rooms both_joined.heap
both_joined-IsConsistent = Reachable-IsConsistent parse_nothing both_joined both_joined-Reachable

pub full_lobby-IsRoom : IsRoom both_joined.heap "lobby" full_lobby
unfolding get
full_lobby-IsRoom = both_joined-IsConsistent.at_room "lobby" full_lobby full_lobby_there

handle_disconnect_gone_example :
    let s' = handle_disconnect both_joined 1 5 in
    ((s'.heap 1).closed ≡ true)
    × (lookup (both_joined.heap 1).id s'.registry ≡ none)
    × ((room_id id : String) (r : Room)
        → get s'.rooms room_id ≡ some r
        → lookup id r.peers ≢ some 1)
handle_disconnect_gone_example = handle_disconnect_gone both_joined 1 5 both_joined-IsConsistent

-- At 100 s nothing was heard of "a" for 90 s: it is closed, as a timeout of 60 s says.
cleanup_stale_lem_example :
    let (kept, h', removed) = cleanup_stale one_registered two_peers 60 100 in
    (lookup "a" kept ≡ none) × (h' 0 ≡ close (two_peers 0)) × (length kept + removed ≡ 1)
unfolding holds lookup new_peer
cleanup_stale_lem_example =
    cleanup_stale_lem one_registered two_peers 60 100 "a" 0 (unfold lookup in (refl, tt))

shutdown_closes_example :
    let (s', done) = shutdown two_registered false in
    (s'.heap 1 ≡ close (two_peers 1)) × (shutdown s' done ≡ (s', true))
shutdown_closes_example = shutdown_closes two_registered 1
