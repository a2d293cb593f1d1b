-- ===== src/Signaling/Mock.antt =====
-- backend/internal/signaling/mock.go: the connection and the upgrader that stand in for WebSockets.
-- A pointer to a connection is a number, as for peers; deadlines, limits and delays do nothing.
pub mod Queue
use altair.Prelude.{
  ℕ, ◌≡◌, Bool, true, false, List, [], ◌∷◌, ◌++◌, Option, none, some, ◌==◌, if◌then◌else◌,
}
use altair.Outcome.{Outcome, ok, err}

pub data MockError : Type 0 where
  connection_closed no_messages : MockError
  given : ℕ → MockError

-- A message is its bytes; `pong_handler` says what the handler returns, if one is set.
pub record MockConn : Type 0 where
  pub closed : Bool
  pub read_queue : List (List ℕ)
  pub write_queue : List (List ℕ)
  pub read_err : Option MockError
  pub write_err : Option MockError
  pub pong_handler : Option (Option MockError)

unfoldable pub new_mock_conn : MockConn
new_mock_conn = record {
  closed = false;
  read_queue = [];
  write_queue = [];
  read_err = none;
  write_err = none;
  pong_handler = none;
}

unfoldable pub write_message : MockConn → List ℕ → MockConn × Option MockError
write_message m bytes = if m.closed then (m, some connection_closed) else elim m.write_err [
  | some e ↦ (m, some e)
  | none ↦ (record m { write_queue = m.write_queue ++ bytes ∷ [] }, none)
]

unfoldable pub read_message : MockConn → MockConn × Outcome MockError (List ℕ)
read_message m = if m.closed then (m, err connection_closed) else elim m.read_err [
  | some e ↦ (m, err e)
  | none ↦ elim m.read_queue [
    | [] ↦ (m, err no_messages)
    | bytes ∷ rest ↦ (record m { read_queue = rest }, ok bytes)
  ]
]

unfoldable pub close : MockConn → MockConn
close m = record m { closed = true }

unfoldable pub enqueue_read : MockConn → List ℕ → MockConn
enqueue_read m bytes = record m { read_queue = m.read_queue ++ bytes ∷ [] }

unfoldable pub set_write_deadline : MockConn → ℕ → Option MockError
set_write_deadline m time = none

unfoldable pub set_read_deadline : MockConn → ℕ → Option MockError
set_read_deadline m time = none

unfoldable pub set_pong_handler : MockConn → Option (Option MockError) → MockConn
set_pong_handler m h = record m { pong_handler = h }

unfoldable pub get_written : MockConn → List (List ℕ)
get_written m = m.write_queue

unfoldable pub set_read_error : MockConn → Option MockError → MockConn
set_read_error m e = record m { read_err = e }

unfoldable pub set_write_error : MockConn → Option MockError → MockConn
set_write_error m e = record m { write_err = e }

unfoldable pub is_closed : MockConn → Bool
is_closed m = m.closed

-- `none` is nil.
unfoldable pub last_of {ℓ} : {A : Type ℓ} → List A → Option A
last_of [] = none
last_of (a ∷ rest) = let further = last_of rest in elim further [ none ↦ some a | some b ↦ some b ]

unfoldable pub last_written : MockConn → Option (List ℕ)
last_written m = last_of m.write_queue

unfoldable pub simulate_pong : MockConn → Option MockError
simulate_pong m = elim m.pong_handler [ none ↦ none | some result ↦ result ]

pub record MockUpgrader : Type 0 where
  pub connections : List ℕ
  pub next_conn : Option ℕ
  pub error : Option MockError

unfoldable pub new_mock_upgrader : MockUpgrader
new_mock_upgrader = record { connections = []; next_conn = none; error = none }

unfoldable pub set_next_connection : MockUpgrader → Option ℕ → MockUpgrader
set_next_connection u conn = record u { next_conn = conn }

unfoldable pub set_error : MockUpgrader → Option MockError → MockUpgrader
set_error u e = record u { error = e }

-- `fresh` is the pointer of a connection that is made now; `heap` gives the connections behind pointers.
unfoldable pub upgrade :
    MockUpgrader → (ℕ → MockConn) → ℕ → MockUpgrader × (ℕ → MockConn) × Outcome MockError ℕ
upgrade u heap fresh = elim u.error [
  | some e ↦ (u, heap, err e)
  | none ↦ elim u.next_conn [
    | some conn ↦
        (record u { connections = u.connections ++ conn ∷ []; next_conn = none }, heap, ok conn)
    | none ↦ (
      record u { connections = u.connections ++ fresh ∷ [] },
      (λ q. if q == fresh then new_mock_conn else heap q),
      ok fresh,
    )
  ]
]

unfoldable pub last_connection : MockUpgrader → Option ℕ
last_connection u = last_of u.connections
