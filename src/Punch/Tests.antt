-- ===== src/Punch/Tests.antt =====
-- The theorems on hole punching at concrete inputs.
use altair.Prelude.{All, inl, ℕ, ◌≡◌, ◌≢◌, inr, refl, true, false, [], ◌∷◌, none, some, arith}
use altair.Outcome.{ok, Meets}
use altair.Net.{UdpAddr, datagram, timed_out, bytes_eq}
use altair.Detector.{restricted_cone}
use altair.Punch.{
  Puncher, PeerInfo, Connection, Round, Direct, Attempt, by_receiver, connection, ping, pong,
  is_tagged, punch_hole, check_pair, try_locals, try_direct, direct_until, simultaneous_punch,
  select_from, ping_until, listen_until,
}
use altair.Punch.Loops.{Reaches}
use altair.Punch.Packets.{
  IsAimed, hole_packets, local_packets, direct_packets, simultaneous_packets, hole_packets-IsAimed,
}
use altair.Punch.Connects.{punch_hole_connects}
use altair.Punch.Connected.{Rests, IsLikely, punch_hole_sound, punch_hole-Meets}

abbrev own_addr : UdpAddr
own_addr = record { ip = 192 ∷ 168 ∷ 1 ∷ 5 ∷ []; port = 40000 }

abbrev far_addr : UdpAddr
far_addr = record { ip = 203 ∷ 0 ∷ 113 ∷ 9 ∷ []; port = 50000 }

abbrev some_puncher : Puncher
some_puncher = record {
  local_addr = own_addr;
  mapping = none;
  timeout = 100;
  ping_interval = 10;
  max_attempts = 5;
}

abbrev some_peer : PeerInfo
some_peer = record {
  public_addr = some far_addr;
  local_addrs = own_addr ∷ [];
  nat_type = restricted_cone;
}

abbrev ping_round : Round
ping_round = record { now = 3; read = datagram ping far_addr; measured = 4; stamped = 5 }

abbrev pong_round : Round
pong_round = record { now = 6; read = datagram pong far_addr; measured = 7; stamped = 8 }

-- A timeout at the end of the two seconds, and a reading of the clock after them.
abbrev silent_direct : Direct
silent_direct = record {
  start = 0;
  written = true;
  rounds =
      record { now = 1; read = timed_out; measured = 2000000000; stamped = 2000000000 }
      ∷ record { now = 2000000001; read = timed_out; measured = 0; stamped = 0 }
      ∷ [];
}

abbrev an_attempt : Attempt
an_attempt = record {
  direct = λ i. silent_direct;
  punch = record {
    start = 0;
    pings = (1, true) ∷ [];
    rounds = ping_round ∷ pong_round ∷ [];
    choice = by_receiver;
  };
}

abbrev made : Connection
made = record {
  local_addr = own_addr;
  remote_addr = far_addr;
  rtt = 7;
  is_relayed = false;
  established_at = 8;
}

punched : punch_hole some_puncher (some some_peer) an_attempt ≡ ok made
unfolding punch_hole check_pair try_locals try_direct direct_until simultaneous_punch select_from
    ping_until listen_until is_tagged bytes_eq connection
punched = refl

punch_hole_sound_example :
    (some_peer.public_addr ≢ none)
    × IsLikely some_puncher some_peer
    × Rests some_puncher an_attempt made
punch_hole_sound_example = punch_hole_sound some_puncher some_peer an_attempt made punched

reaches : (i : ℕ) → Reaches 2000000000 (an_attempt.direct i)
reaches i = (
  record { now = 1; read = timed_out; measured = 2000000000; stamped = 2000000000 } ∷ [],
  [],
  record { now = 2000000001; read = timed_out; measured = 0; stamped = 0 },
  refl,
  omega arith,
)

punch_hole-Meets_example :
    Meets (λ c. Unit {0}) (punch_hole some_puncher (some some_peer) an_attempt)
punch_hole-Meets_example = punch_hole-Meets some_puncher (some some_peer) an_attempt reaches

-- After the silent direct attempt a PING is answered, and the PONG connects.
punch_hole_connects_example : punch_hole some_puncher (some some_peer) an_attempt ≡ ok made
unfolding connection
punch_hole_connects_example =
    punch_hole_connects some_puncher some_peer far_addr far_addr an_attempt (ping_round ∷ []) []
      pong_round (far_addr ∷ []) refl (inl refl) (λ i. (inr refl, (inr refl, tt))) reaches refl
      ((omega arith, ping, refl, unfold is_tagged bytes_eq in refl), tt)
      (omega arith, pong, refl, unfold is_tagged bytes_eq in refl) refl

-- A PING to the local address, one to the public one, and the PONG.
sent_packets :
    hole_packets some_puncher (some some_peer) an_attempt
    ≡ (ping, own_addr) ∷ (ping, far_addr) ∷ (pong, far_addr) ∷ []
unfolding hole_packets local_packets direct_packets simultaneous_packets check_pair try_direct
    direct_until ping_until listen_until is_tagged bytes_eq
sent_packets = refl

hole_packets-IsAimed_example :
    All (IsAimed some_peer an_attempt) (hole_packets some_puncher (some some_peer) an_attempt)
hole_packets-IsAimed_example = hole_packets-IsAimed some_puncher some_peer an_attempt
