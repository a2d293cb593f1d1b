-- ===== src/Punch/Connects.antt =====
-- backend/pkg/punch/puncher.go, `PunchHole`: a peer that answers in time is connected.
use altair.Prelude.{
  ℕ, ◌+◌, ◌≡◌, ◌≢◌, ◌∙◌, inl, inr, refl, List, [], ◌∷◌, ◌++◌, none, some, All, Bool-cases,
}
use altair.Outcome.{ok, err, panic, no_fuel, Meets}
use altair.Net.{UdpAddr}
use altair.Punch.{
  Puncher, PeerInfo, Connection, Round, Direct, Attempt, Punched, PunchError, by_receiver,
  connection, is_unknown, check_pair, try_locals, try_direct, simultaneous_punch, select_from,
  punch_hole,
}
use altair.Punch.Loops.{
  IsMute, Reaches, ArePings, IsPong, try_direct-Meets, try_direct_mute, listen_until_answers,
}
use altair.Punch.Connected.{IsLikely}

failed_one :
    (m : Punched Connection)
    → Meets (λ c. Unit {0}) m
    → ((c : Connection) → m ≢ ok c)
    → (e : PunchError) × (m ≡ err e)
failed_one (ok c) v h = absurd (h c refl)
failed_one (err e) v h = (e, refl)
failed_one panic v h = absurd v
failed_one no_fuel v h = absurd v

-- The attempts at the local addresses that all fail lead to what follows them.
try_locals_mute :
    (p : Puncher) (direct : ℕ → Direct) (i : ℕ) (addrs : List UdpAddr) (last : Punched Connection)
    → ((k : ℕ) → All IsMute (direct k).rounds)
    → ((k : ℕ) → Reaches 2000000000 (direct k))
    → try_locals p direct i addrs last ≡ last
unfolding try_locals
try_locals_mute p direct i [] last v w = refl
try_locals_mute p direct i (a ∷ addrs) last v w =
    let (e, f) =
      failed_one (try_direct p 2000000000 (direct i))
        (try_direct-Meets p 2000000000 (direct i) (w i))
        (λ c. try_direct_mute p 2000000000 (direct i) c (v i)) in
    rw (f, try_locals) (try_locals_mute p direct (i + 1) addrs last v w)

likely_none : (p : Puncher) (peer : PeerInfo) → IsLikely p peer → check_pair p peer ≡ none
unfolding check_pair
likely_none p peer (inl e) = rw (e, check_pair) refl
likely_none p peer (inr (m, e, inl t)) = rw (e, t, check_pair) refl
likely_none p peer (inr (m, e, inr t)) = elim (Bool-cases (is_unknown peer.nat_type)) [
  | inl u ↦ rw (e, t, u, check_pair) refl
  | inr u ↦ rw (e, t, u, check_pair) refl
]

-- PunchHole connects to a peer that answers: if the peer has a public address and the pair of NAT
-- types is not known to be hopeless, if the direct attempts reach their two seconds and bring
-- nothing but PINGs and timeouts, and if the receiver of the punching gets any number of PINGs in
-- time and then a PONG in time and its channel is the one that is read, the result is the
-- connection to the sender of the PONG.
pub punch_hole_connects :
    (p : Puncher) (peer : PeerInfo) (public addr : UdpAddr) (x : Attempt)
    (before after : List Round) (r : Round) (senders : List UdpAddr)
    → peer.public_addr ≡ some public
    → IsLikely p peer
    → ((i : ℕ) → All IsMute (x.direct i).rounds)
    → ((i : ℕ) → Reaches 2000000000 (x.direct i))
    → x.punch.rounds ≡ before ++ r ∷ after
    → ArePings (x.punch.start + p.timeout) before senders
    → IsPong (x.punch.start + p.timeout) addr r
    → x.punch.choice ≡ by_receiver
    → punch_hole p (some peer) x ≡ ok (connection p x.punch.start addr r)
unfolding punch_hole simultaneous_punch select_from
punch_hole_connects p peer public addr x before after r senders there likely mute late rounds calls
      answer chosen =
    let heard =
      listen_until_answers p x.punch.start (x.punch.start + p.timeout) before after senders r addr
        calls answer in
    rw (there, likely_none p peer likely, punch_hole)
      (try_locals_mute p x.direct 0 peer.local_addrs _ mute late
        ∙ rw (chosen, rounds, heard, select_from) refl)
