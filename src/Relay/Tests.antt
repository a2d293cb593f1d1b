-- ===== src/Relay/Tests.antt =====
-- The theorems on the relay client at concrete inputs.
use altair.Prelude.{◌≡◌, inl, refl, true, false, List, [], ◌∷◌, none, arith}
use altair.Outcome.{err}
use altair.Net.{UdpAddr, datagram, timed_out, ip_equal, bytes_eq}
use altair.Relay.{Client, Round, receive_failed, receive_from, is_from}
use altair.Relay.Lease.{
  Call, allocates, refreshes, sends, closes, calls, lease_calls, lease_of, calls-lease_calls,
}
use altair.Relay.Receive.{answer, receive_from_first}

abbrev relay_server : UdpAddr
relay_server = record { ip = 74 ∷ 125 ∷ 250 ∷ 129 ∷ []; port = 3478 }

abbrev one_peer : UdpAddr
one_peer = record { ip = 203 ∷ 0 ∷ 113 ∷ 9 ∷ []; port = 50000 }

abbrev other_peer : UdpAddr
other_peer = record { ip = 203 ∷ 0 ∷ 113 ∷ 9 ∷ []; port = 50001 }

abbrev a_client : Client
a_client = record {
  server_addr = relay_server;
  local_addr = one_peer;
  allocation = none;
  timeout = 5;
  closed = false;
}

-- Allocate, send in time, refresh too late, close, and allocate again.
abbrev some_calls : List Call
some_calls =
    allocates 10 0 1
    ∷ sends (7 ∷ []) other_peer 5 true
    ∷ refreshes 10 11 12
    ∷ closes true
    ∷ allocates 10 20 21
    ∷ []

calls-lease_calls_example :
    (lease_of (calls a_client some_calls).0 ≡ (lease_calls (lease_of a_client) some_calls).0)
    × ((calls a_client some_calls).1 ≡ (lease_calls (lease_of a_client) some_calls).1)
calls-lease_calls_example = calls-lease_calls a_client some_calls (inl refl)

abbrev foreign_round : Round
foreign_round = record { now = 1; deadline_set = true; read = datagram (9 ∷ []) other_peer }

abbrev silent_round : Round
silent_round = record { now = 2; deadline_set = true; read = timed_out }

-- A timeout of one read ends the call long before its own.
receive_from_first_example :
    receive_from a_client one_peer 100 0 (foreign_round ∷ silent_round ∷ [])
    ≡ err (receive_failed timed_out)
receive_from_first_example =
    receive_from_first a_client one_peer 100 0 (foreign_round ∷ []) [] silent_round
      (err (receive_failed timed_out)) refl
      ((omega arith, refl, 9 ∷ [], other_peer, refl, unfold is_from ip_equal bytes_eq in refl), tt)
      (omega arith) refl (unfold answer in refl)

abbrev late_round : Round
late_round = record { now = 100; deadline_set = true; read = timed_out }
