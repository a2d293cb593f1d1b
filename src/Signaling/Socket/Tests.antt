-- ===== src/Signaling/Socket/Tests.antt =====
-- The life of a connection at concrete inputs.
use text.Mathlib.TextEquality.{eq_iff}
use altair.Prelude.{◌≡◌, ◌⊎◌, refl, true, [], ◌∷◌, some, none, arith}
use altair.Signaling.Handler.{State}
use altair.Signaling.Socket.{Reads, serve_http}
use altair.Signaling.Socket.Traceless.{serve_http_traceless}
use altair.Signaling.Spec.{is_in}
use altair.Signaling.Spec.Tests.{a_events, a_there, a_there-Run, b_unused, b_new}
use altair.Signaling.Tests.{up, parse_nothing, a_join}

-- A join, and something that is no JSON.
abbrev b_reads : Reads
b_reads = (some a_join, 4) ∷ (none, 5) ∷ []

-- "b" connects while "a" is in the lobby, joins it and goes.
serve_http_traceless_example :
    let served = serve_http parse_nothing a_there (some (some up)) 1 ("b" ∷ []) 3 b_reads 6 in
    (served ≡ none)
    ⊎ ((s' : State) × (served ≡ some (s', none))
        × ((s'.heap 1).closed ≡ true)
        × ((s'.heap 0).room_id ≡ (a_there.heap 0).room_id)
        × (is_in s'.rooms "lobby" 0 ≡ is_in a_there.rooms "lobby" 0))
serve_http_traceless_example =
    serve_http_traceless parse_nothing a_events a_there 1 up ("b" ∷ []) 3 b_reads 6 "lobby" 0
      a_there-Run b_unused b_new (ground (arith, eq_iff "lobby" ""))

-- Without an upgrader the answer is an internal error.
no_upgrader :
    serve_http parse_nothing a_there none 1 ("b" ∷ []) 3 b_reads 6 ≡ some (a_there, some 500)
unfolding serve_http
no_upgrader = refl
