-- ===== src/Signaling/Socket.antt =====
-- backend/internal/signaling/handler.go: one connection from the upgrade to its end.
pub mod Traceless
mod Tests
use altair.Prelude.{
  ℕ, ◌+◌, String, Bool, true, false, not, ◌&&◌, List, [], ◌∷◌, Option, none, some, if◌then◌else◌,
}
use altair.Signaling.Protocol.{Message, JoinPayload, Payload}
use altair.Signaling.Peer.{Conn}
use altair.Signaling.Handler.{State, read_step, handle_disconnect, connect}

-- No upgrader, one that fails, or one that makes a connection.
abbrev pub Upgrader : Type 0
Upgrader = Option (Option Conn)

-- The messages that are read before the first error, each with its time; `none` is no JSON.
abbrev pub Reads : Type 0
Reads = List (Option Message × ℕ)

unfoldable pub read_loop : (Payload → JoinPayload) → State → ℕ → Reads → State
read_loop parse s peer [] = s
read_loop parse s peer ((input, now) ∷ rest) =
    read_loop parse (read_step parse s peer input now).0 peer rest

-- The state once ServeHTTP returns, and the status that it writes itself; `none` if no ID is free.
unfoldable pub serve_http :
    (Payload → JoinPayload)
    → State
    → Upgrader
    → ℕ
    → List String
    → ℕ
    → Reads
    → ℕ
    → Option (State × Option ℕ)
serve_http parse s none peer supply now reads ended = some (s, some 500)
serve_http parse s (some none) peer supply now reads ended = some (s, none)
serve_http parse s (some (some conn)) peer supply now reads ended =
    elim (connect s peer conn supply now) [
      | none ↦ none
      | some s' ↦ some (handle_disconnect (read_loop parse s' peer reads) peer ended, none)
    ]

-- What a tick of `pingLoop` finds: whether the peer is closed, and whether the write succeeds. The
-- number of pings that are written.
unfoldable pub ping_loop : List (Bool × Bool) → ℕ
ping_loop [] = 0
ping_loop ((closed, write_ok) ∷ rest) =
    let later = ping_loop rest in if not closed && write_ok then 1 + later else 0
