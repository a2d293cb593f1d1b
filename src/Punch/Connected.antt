-- ===== src/Punch/Connected.antt =====
-- backend/pkg/punch/puncher.go, `PunchHole`: what a connection rests on, and that there is a result.
use altair.Prelude.{
  ℕ, ◌+◌, ◌≡◌, ◌≢◌, ◌⊎◌, inl, inr, refl, true, List, [], ◌∷◌, Option, none, some, arith, Bool-cases,
  Option-cases,
}
use altair.Outcome.{ok, Meets}
use altair.Net.{UdpAddr}
use altair.Detector.{NatType, unknown, Mapping, can_hole_punch}
use altair.Punch.{
  Puncher, PeerInfo, Connection, PunchError, Punched, Direct, Attempt, Answer, found, broken, quiet,
  Choice, by_receiver, by_sender, by_timer, try_direct, select_from, simultaneous_punch, try_locals,
  check_pair, is_unknown, punch_hole,
}
use altair.Punch.Loops.{
  FromPong, direct_until-FromPong, listen_until-FromPong, try_direct-Meets, Reaches,
}

-- The exchange in which a PONG made the connection: a direct attempt, of two seconds, or the punching.
pub data Rests (p : Puncher) (x : Attempt) (c : Connection) : Type 0 where
  direct :
      (i : ℕ)
      → FromPong p (x.direct i).start ((x.direct i).start + 2000000000) c (x.direct i).rounds
      → Rests p x c
  punched : FromPong p x.punch.start (x.punch.start + p.timeout) c x.punch.rounds → Rests p x c

select_inv :
    (choice : Choice) (answer : Answer) (sent : Option PunchError) (c : Connection)
    → select_from choice answer sent ≡ ok c
    → answer ≡ found c
unfolding select_from
select_inv by_receiver (found a) sent c h = cc
select_inv by_receiver (broken e) sent c h = cc
select_inv by_receiver quiet sent c h = cc
select_inv by_sender answer none c h = cc
select_inv by_sender answer (some e) c h = cc
select_inv by_timer answer sent c h = cc

simultaneous_sound :
    (p : Puncher) (x : Attempt) (c : Connection) → simultaneous_punch p x.punch ≡ ok c → Rests p x c
unfolding simultaneous_punch
simultaneous_sound p x c h = punched (
    listen_until-FromPong p x.punch.start (x.punch.start + p.timeout) c x.punch.rounds
      (select_inv x.punch.choice _ _ c h))

direct_sound :
    (p : Puncher) (x : Attempt) (i : ℕ) (c : Connection)
    → try_direct p 2000000000 (x.direct i) ≡ ok c
    → Rests p x c
unfolding try_direct
direct_sound p x i c h = direct i (
    direct_until-FromPong p (x.direct i).start ((x.direct i).start + 2000000000) c
      (x.direct i).rounds (ground (arith, h)))

locals_inv :
    (p : Puncher) (x : Attempt) (i : ℕ) (addr : UdpAddr) (rest : List UdpAddr)
    (last : Punched Connection) (c : Connection)
    → try_locals p x.direct i (addr ∷ rest) last ≡ ok c
    → (try_direct p 2000000000 (x.direct i) ≡ ok c)
      ⊎ (try_locals p x.direct (i + 1) rest last ≡ ok c)
unfolding try_locals
locals_inv p x i addr rest last c h = ground arith

locals_sound :
    (p : Puncher) (x : Attempt) (i : ℕ) (addrs : List UdpAddr) (last : Punched Connection)
    (c : Connection)
    → (last ≡ ok c → Rests p x c)
    → try_locals p x.direct i addrs last ≡ ok c
    → Rests p x c
unfolding try_locals
locals_sound p x i [] last c k h = k h
locals_sound p x i (addr ∷ rest) last c k h = elim (locals_inv p x i addr rest last c h) [
  | inl d ↦ direct_sound p x i c d
  | inr l ↦ locals_sound p x (i + 1) rest last c k l
]

-- The pair of NAT types speaks for an attempt, or nothing is known of it.
abbrev pub IsLikely : Puncher → PeerInfo → Type 0
IsLikely p peer =
    (p.mapping ≡ none)
    ⊎ ((m : Mapping) × (p.mapping ≡ some m)
        × ((peer.nat_type ≡ unknown) ⊎ (can_hole_punch m.type peer.nat_type ≡ true)))

is_unknown-eq : (t : NatType) → is_unknown t ≡ true → t ≡ unknown
is_unknown-eq unknown h = refl
is_unknown-eq t h = cc

check_pair-IsLikely : (p : Puncher) (peer : PeerInfo) → check_pair p peer ≡ none → IsLikely p peer
unfolding check_pair
check_pair-IsLikely p peer h = elim (Option-cases p.mapping) [
  | inl e ↦ inl e
  | inr (m, e) ↦ elim (Bool-cases (is_unknown peer.nat_type)) [
    | inl u ↦ inr (m, e, inl (is_unknown-eq peer.nat_type u))
    | inr u ↦ inr (m, e, inr (ground (arith, h, e, u)))
  ]
]

-- A connection that PunchHole returns rests on a PONG: a round of one of the direct attempts,
-- before its two seconds are over, or of the punching, before the timeout, brought a datagram that
-- starts with PONG, and the connection goes to its sender with the time since that start. The peer
-- has a public address, and the pair of NAT types can punch holes unless one of them is not known.
pub punch_hole_sound :
    (p : Puncher) (peer : PeerInfo) (x : Attempt) (c : Connection)
    → punch_hole p (some peer) x ≡ ok c
    → (peer.public_addr ≢ none) × IsLikely p peer × Rests p x c
unfolding punch_hole
punch_hole_sound p peer x c h = elim (Option-cases peer.public_addr) [
  | inl e ↦ absurd (ground (arith, h, e))
  | inr (addr, e) ↦ elim (Option-cases (check_pair p peer)) [
    | inl f ↦ (
      (λ k. ground (arith, e, k)),
      check_pair-IsLikely p peer f,
      locals_sound p x 0 peer.local_addrs (simultaneous_punch p x.punch) c
          (simultaneous_sound p x c) (ground (arith, h, e, f)),
    )
    | inr (g, f) ↦ absurd (ground (arith, h, e, f))
  ]
]

select-Meets :
    (choice : Choice) (answer : Answer) (sent : Option PunchError)
    → Meets (λ c. Unit {0}) (select_from choice answer sent)
unfolding select_from
select-Meets by_receiver (found a) sent = tt
select-Meets by_receiver (broken e) sent = tt
select-Meets by_receiver quiet sent = tt
select-Meets by_sender answer none = tt
select-Meets by_sender answer (some e) = tt
select-Meets by_timer answer sent = tt

locals-Meets :
    (p : Puncher) (attempts : ℕ → Direct) (i : ℕ) (addrs : List UdpAddr) (last : Punched Connection)
    → ((k : ℕ) → Reaches 2000000000 (attempts k))
    → Meets (λ c. Unit {0}) last
    → Meets (λ c. Unit {0}) (try_locals p attempts i addrs last)
unfolding try_locals
locals-Meets p attempts i [] last v h = h
locals-Meets p attempts i (addr ∷ rest) last v h = ground (
  arith,
  try_direct-Meets p 2000000000 (attempts i) (v i),
  locals-Meets p attempts (i + 1) rest last v h,
)

-- If the rounds of every direct attempt reach its two seconds, PunchHole ends, for any peer and
-- whatever the punching that may follow meets, in a connection or an error.
pub punch_hole-Meets :
    (p : Puncher) (peer : Option PeerInfo) (x : Attempt)
    → ((i : ℕ) → Reaches 2000000000 (x.direct i))
    → Meets (λ c. Unit {0}) (punch_hole p peer x)
unfolding punch_hole
punch_hole-Meets p none x v = tt
punch_hole-Meets p (some peer) x v = elim (Option-cases peer.public_addr) [
  | inl e ↦ rw (e, punch_hole) tt
  | inr (addr, e) ↦ elim (Option-cases (check_pair p peer)) [
    | inl f ↦
        rw (e, f, punch_hole)
          (locals-Meets p x.direct 0 peer.local_addrs (simultaneous_punch p x.punch) v
            (unfold simultaneous_punch in select-Meets x.punch.choice _ _))
    | inr (g, f) ↦ rw (e, f, punch_hole) tt
  ]
]
