-- ===== src/Relay/Receive.antt =====
-- backend/pkg/relay/client.go, `ReceiveFrom`: which round ends the loop, and with what.
use altair.Prelude.{
  ℕ, ◌+◌, ◌≤◌, ◌<◌, ◌≡◌, ◌∙◌, refl, true, false, List, [], ◌∷◌, ◌++◌, Option, none, some, arith,
  All, lt→ltb, le→ltb, if◌then◌else◌, take,
}
use altair.Outcome.{ok, err, Meets}
use altair.Net.{UdpAddr, Read, datagram, timed_out, failed}
use altair.Relay.{
  Client, Round, receive_failed, is_from, is_timeout, receive, receive_until, receive_from, Relayed,
}

-- A round in time that brings a datagram of another sender.
abbrev pub IsForeign : UdpAddr → ℕ → Round → Type 0
IsForeign peer deadline r =
    (r.now < deadline)
    × (r.deadline_set ≡ true)
    × (bytes : List ℕ) × (addr : UdpAddr) × (r.read ≡ datagram bytes addr)
    × (is_from peer addr ≡ false)

-- What a read in time ends the loop with; `none` for a datagram of another sender.
unfoldable pub answer : UdpAddr → Read → Option (Relayed (List ℕ))
answer peer (datagram bytes addr) = if is_from peer addr then some (ok (take 65536 bytes)) else none
answer peer timed_out = some (err (receive_failed timed_out))
answer peer failed = some (err (receive_failed failed))

foreign_step :
    (c : Client) (peer : UdpAddr) (deadline : ℕ) (r : Round) (rounds : List Round)
    → c.closed ≡ false
    → IsForeign peer deadline r
    → receive_until c peer deadline (r ∷ rounds) ≡ receive_until c peer deadline rounds
unfolding receive_until receive
foreign_step c peer deadline r rounds up (now, set, bytes, addr, got, other) =
    rw (lt→ltb r.now deadline now, up, set, got, other, receive_until, receive) refl

foreign_steps :
    (c : Client) (peer : UdpAddr) (deadline : ℕ) (before rounds : List Round)
    → c.closed ≡ false
    → All (IsForeign peer deadline) before
    → receive_until c peer deadline (before ++ rounds) ≡ receive_until c peer deadline rounds
foreign_steps c peer deadline [] rounds up v = refl
foreign_steps c peer deadline (r ∷ before) rounds up (v, vs) =
    foreign_step c peer deadline r (before ++ rounds) up v
    ∙ foreign_steps c peer deadline before rounds up vs

answer_step :
    (c : Client) (peer : UdpAddr) (deadline : ℕ) (r : Round) (rounds : List Round)
    (result : Relayed (List ℕ))
    → c.closed ≡ false
    → r.now < deadline
    → r.deadline_set ≡ true
    → answer peer r.read ≡ some result
    → receive_until c peer deadline (r ∷ rounds) ≡ result
unfolding receive_until receive is_timeout answer
answer_step c peer deadline r rounds result up now set e = ground arith

-- ReceiveFrom of an open client passes over datagrams of other senders that come in time; the
-- first other round in time ends it: with the first 65536 bytes of a datagram of the peer, and
-- with the error of the read otherwise, a timeout of one read included.
pub receive_from_first :
    (c : Client) (peer : UdpAddr) (timeout start : ℕ) (before after : List Round) (r : Round)
    (result : Relayed (List ℕ))
    → c.closed ≡ false
    → All (IsForeign peer (start + timeout)) before
    → r.now < start + timeout
    → r.deadline_set ≡ true
    → answer peer r.read ≡ some result
    → receive_from c peer timeout start (before ++ r ∷ after) ≡ result
unfolding receive_from
receive_from_first c peer timeout start before after r result up v now set e =
    foreign_steps c peer (start + timeout) before (r ∷ after) up v
    ∙ answer_step c peer (start + timeout) r after result up now set e

late_step :
    (c : Client) (peer : UdpAddr) (deadline : ℕ) (before after : List Round) (r : Round)
    → deadline ≤ r.now
    → Meets (λ bytes. Unit {0}) (receive_until c peer deadline (before ++ r ∷ after))
unfolding receive_until receive is_timeout
late_step c peer deadline [] after r h = rw (le→ltb r.now deadline h, receive_until) tt
late_step c peer deadline (q ∷ before) after r h =
    ground (arith, late_step c peer deadline before after r h)

-- If among the rounds of ReceiveFrom there is one that starts when its timeout is over, the call
-- ends with data or an error.
pub receive_from-Meets :
    (c : Client) (peer : UdpAddr) (timeout start : ℕ) (before after : List Round) (r : Round)
    → start + timeout ≤ r.now
    → Meets (λ bytes. Unit {0}) (receive_from c peer timeout start (before ++ r ∷ after))
unfolding receive_from
receive_from-Meets c peer timeout start before after r h =
    late_step c peer (start + timeout) before after r h
