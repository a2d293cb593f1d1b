-- ===== src/Signaling/Tests/Lasting.antt =====
-- How long a registration lasts, at a concrete run.
use altair.Prelude.{◌≡◌, refl, String, [], ◌∷◌, some, arith}
use altair.Signaling.Dict.{lookup, insert}
use altair.Signaling.Peer.{close, new_peer, send, send_to, update_last_seen, set_room_id, info}
use altair.Signaling.Room.{new_room, add, broadcast, send_all, recipients, excluded, peer_infos}
use altair.Signaling.Manager.{new_manager, get, put, get_or_create, leave_current, enter, join_room}
use altair.Signaling.Registry.{register, free_id}
use altair.Signaling.Handler.{
  State, connect, read_step, handle_message, dispatch, handle_join, apply_join, join_payload,
  announce_join, handle_disconnect,
}
use altair.Signaling.Server.{Event, connected, disconnected, cleaned, step, new_state}
use altair.Signaling.Server.Reachable.{IsNew}
use altair.Signaling.Server.Lasting.{Spares, Sparing, now_here, later, registered_stays}
use altair.Signaling.Tests.{up, parse_nothing, joined_state, joined-Reachable}

-- The first random ID for the second peer is "a", which the first peer has.
abbrev clash : Event
clash = connected 1 up ("a" ∷ "b" ∷ []) 3

abbrev after_clash : State
after_clash = step parse_nothing joined_state clash

abbrev after_gone : State
after_gone = step parse_nothing after_clash (disconnected 1 4)

abbrev after_cleanup : State
after_cleanup = step parse_nothing after_gone (cleaned 60 50)

after_cleanup-Sparing : Sparing parse_nothing 0 joined_state after_cleanup
unfolding step connect register free_id lookup insert new_peer send_to send read_step
    update_last_seen handle_message dispatch handle_join apply_join join_payload join_room
    leave_current enter get get_or_create put new_room add set_room_id announce_join broadcast
    send_all recipients excluded new_state new_manager info peer_infos IsNew Spares
    handle_disconnect close
after_cleanup-Sparing =
    later (cleaned 60 50)
      (later (disconnected 1 4)
        (later clash now_here ((λ room_id id r e. ground (arith, e)), λ id e. ground (arith, e)) tt)
        tt (omega arith, refl))
      tt refl

registered_first : lookup "a" joined_state.registry ≡ some 0
unfolding step connect register free_id lookup insert new_peer send_to send read_step
    update_last_seen handle_message dispatch handle_join apply_join join_payload join_room
    leave_current enter get get_or_create put new_room add set_room_id announce_join broadcast
    send_all recipients excluded new_state new_manager info peer_infos
registered_first = refl

registered_stays_example :
    (lookup "a" after_cleanup.registry ≡ some 0)
    × ((after_cleanup.heap 0).id ≡ "a")
    × ((other : String) → lookup other after_cleanup.registry ≡ some 0 → other ≡ "a")
registered_stays_example =
    registered_stays parse_nothing joined_state after_cleanup "a" 0 joined-Reachable
      registered_first after_cleanup-Sparing
