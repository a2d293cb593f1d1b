-- ===== src/Signaling/Startup/Tests.antt =====
-- The life of a server at concrete inputs.
use text.Mathlib.TextEquality.{eq_iff}
use altair.Prelude.{ℕ, ◌+◌, ◌*◌, ◌≡◌, refl, true, false, [], ◌∷◌, some, length, arith}
use altair.Retry.{second}
use altair.Signaling.Peer.{Heap}
use altair.Signaling.Handler.{State}
use altair.Signaling.Http.{serve, route, get_method, websocket, no_upgrader}
use altair.Signaling.Startup.{
  Flags, Server, server_closed, listen_failed, new_handler, new_server, main_config, main_server,
  main, start, listen_addr, cleanup_loop, default_config,
}
use altair.Signaling.Startup.Idle.{stale_logged, empty_logged, cleanup_loop_idle}
use altair.Signaling.Spec.{is_in}
use altair.Signaling.Spec.Tests.{a_events, a_there, a_there-Run, blank}
use altair.Signaling.Tests.{parse_nothing}

-- "a" is in the lobby, and is heard of no more for an hour.
cleanup_loop_idle_example :
    let (s', lines) = cleanup_loop a_there (300 * second) (60 * second ∷ 3600 * second ∷ []) in
    ((s'.heap 0).room_id ≡ (a_there.heap 0).room_id)
    × (is_in s'.rooms "lobby" 0 ≡ is_in a_there.rooms "lobby" 0)
    × (length s'.registry + stale_logged lines ≡ length a_there.registry)
    × (length s'.rooms.rooms + empty_logged lines ≡ length a_there.rooms.rooms)
cleanup_loop_idle_example =
    cleanup_loop_idle parse_nothing a_events a_there (300 * second)
      (60 * second ∷ 3600 * second ∷ []) "lobby" 0 a_there-Run (ground (arith, eq_iff "lobby" ""))

-- The server of the command has no upgrader: whatever the flags, it answers every request for a
-- WebSocket with an internal error.
main_server_refuses :
    (flags : Flags) (h : Heap) (server : Server) (s : State) (now : ℕ)
    → main_server flags h ≡ some server
    → serve s server.handler.upgrader get_method websocket now
      ≡ some (record { status = 500; body = no_upgrader })
unfolding main_server new_server main_config new_handler serve route
main_server_refuses flags h server s now e = ground (arith, e)

listen_addr_default : listen_addr (new_server default_config blank) ≡ "http://localhost:8080"
unfolding listen_addr new_server default_config
listen_addr_default = refl

main_failed :
    main (record { addr = ":80"; verbose = true; version = false }) (listen_failed "denied") ≡ 1
unfolding main start
main_failed = refl

main_stopped : main (record { addr = ":80"; verbose = true; version = false }) server_closed ≡ 0
unfolding main start
main_stopped = refl
