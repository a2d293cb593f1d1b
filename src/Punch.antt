-- ===== src/Punch.antt =====
-- backend/pkg/punch/puncher.go: UDP hole punching. The socket is known by its local address; what it
-- answers, what the clock shows and which case the `select` takes are arguments.
pub mod Loops
pub mod Connected
pub mod Connects
pub mod Pair
pub mod Packets
pub mod Tests
use altair.Prelude.{
  ℕ, ◌+◌, ◌-◌, Bool, true, false, not, ◌&&◌, List, [], ◌∷◌, Option, none, some, ltb, leb,
  if◌then◌else◌, length, take,
}
use altair.Outcome.{Outcome, ok, err, panic, no_fuel, ◌>>=◌}
use altair.Net.{UdpAddr, Read, datagram, timed_out, failed, bytes_eq}
use altair.Retry.{Retried, retry}
use altair.Detector.{NatType, unknown, Mapping, can_hole_punch}

pub record PeerInfo : Type 0 where
  pub public_addr : Option UdpAddr
  pub local_addrs : List UdpAddr
  pub nat_type : NatType

pub record Connection : Type 0 where
  pub local_addr : UdpAddr
  pub remote_addr : UdpAddr
  pub rtt : ℕ
  pub is_relayed : Bool
  pub established_at : ℕ

pub record Puncher : Type 0 where
  pub local_addr : UdpAddr
  pub mapping : Option Mapping
  pub timeout : ℕ
  pub ping_interval : ℕ
  pub max_attempts : ℕ

pub record PuncherConfig : Type 0 where
  pub local_addr : Option UdpAddr
  pub mapping : Option Mapping
  pub timeout : ℕ
  pub ping_interval : ℕ
  pub max_attempts : ℕ
  pub conn : Option UdpAddr

pub data PunchError : Type 0 where
  socket_failed nil_peer no_public_addr : PunchError
  unlikely : NatType → NatType → PunchError
  ping_failed read_failed no_response punch_timed_out : PunchError

abbrev pub Punched : Type 0 → Type 0
Punched A = Outcome PunchError A

-- Thirty seconds and 200 milliseconds, in nanoseconds.
unfoldable pub default_puncher_config : PuncherConfig
default_puncher_config = record {
  local_addr = none;
  mapping = none;
  timeout = 30000000000;
  ping_interval = 200000000;
  max_attempts = 50;
  conn = none;
}

abbrev pub any_addr : UdpAddr
any_addr = record { ip = 0 ∷ 0 ∷ 0 ∷ 0 ∷ []; port = 0 }

-- The local address of the socket: the one given, or what `listen` makes of the address to bind to.
unfoldable pub punch_socket : PuncherConfig → (UdpAddr → Option UdpAddr) → Option UdpAddr
punch_socket config listen = elim config.conn [
  | some conn ↦ some conn
  | none ↦ listen (elim config.local_addr [ some addr ↦ addr | none ↦ any_addr ])
]

unfoldable pub new_puncher : Option PuncherConfig → (UdpAddr → Option UdpAddr) → Punched Puncher
unfolding default_puncher_config
new_puncher given listen =
    let config : PuncherConfig = elim given [ some c ↦ c | none ↦ default_puncher_config ] in
    elim (punch_socket config listen) [
      | none ↦ err socket_failed
      | some addr ↦ ok (record {
        local_addr = addr;
        mapping = config.mapping;
        timeout = config.timeout;
        ping_interval = config.ping_interval;
        max_attempts = config.max_attempts;
      })
    ]

-- "PING" and "PONG".
abbrev pub ping : List ℕ
ping = 80 ∷ 73 ∷ 78 ∷ 71 ∷ []

abbrev pub pong : List ℕ
pong = 80 ∷ 79 ∷ 78 ∷ 71 ∷ []

-- n >= 4 && string(buf[:4]) == tag, for a datagram read into a buffer of 1500 bytes.
unfoldable pub is_tagged : List ℕ → List ℕ → Bool
is_tagged tag bytes = leb 4 (length (take 1500 bytes)) && bytes_eq (take 4 bytes) tag

-- A round of a read loop: the time of its test, what is read, and the two times read afterwards.
pub record Round : Type 0 where
  pub now : ℕ
  pub read : Read
  pub measured : ℕ
  pub stamped : ℕ

unfoldable pub connection : Puncher → ℕ → UdpAddr → Round → Connection
connection p start addr r = record {
  local_addr = p.local_addr;
  remote_addr = addr;
  rtt = r.measured - start;
  is_relayed = false;
  established_at = r.stamped;
}

-- The loop of `tryDirectConnection`. `no_fuel` if the rounds end before it does.
unfoldable pub direct_until : Puncher → ℕ → ℕ → List Round → Punched Connection
direct_until p start deadline [] = no_fuel
direct_until p start deadline (r ∷ rounds) =
    let later = direct_until p start deadline rounds in
    if ltb r.now deadline
    then (elim r.read [
      | datagram bytes addr ↦ if is_tagged pong bytes then ok (connection p start addr r) else later
      | timed_out ↦ later
      | failed ↦ err read_failed
    ])
    else err no_response

-- What one direct attempt meets: the time of its start, whether the PING is written, and the rounds.
pub record Direct : Type 0 where
  pub start : ℕ
  pub written : Bool
  pub rounds : List Round

unfoldable pub try_direct : Puncher → ℕ → Direct → Punched Connection
try_direct p timeout x =
    if x.written then direct_until p x.start (x.start + timeout) x.rounds else err ping_failed

-- The sender's rounds: the time of the test, and whether the PING is written. The number of PINGs that
-- are written, and the error that is put on the channel.
unfoldable pub ping_until : ℕ → ℕ → ℕ → List (ℕ × Bool) → ℕ × Option PunchError
ping_until max_attempts deadline attempt [] = (attempt, none)
ping_until max_attempts deadline attempt ((now, written) ∷ rounds) =
    let later = ping_until max_attempts deadline (attempt + 1) rounds in
    if ltb now deadline && ltb attempt max_attempts
    then (if written then later else (attempt, some ping_failed))
    else (attempt, none)

-- What the receiver puts on a channel; `quiet` for nothing.
pub data Answer : Type 0 where
  found : Connection → Answer
  broken : PunchError → Answer
  quiet : Answer

-- The receiver's loop: to whom a PONG is sent, in order, and what it ends with.
unfoldable pub listen_until : Puncher → ℕ → ℕ → List Round → List UdpAddr × Answer
listen_until p start deadline [] = ([], quiet)
listen_until p start deadline (r ∷ rounds) =
    let later = listen_until p start deadline rounds in
    if ltb r.now deadline
    then (elim r.read [
      | datagram bytes addr ↦
          if is_tagged ping bytes
          then (addr ∷ later.0, later.1)
          else if is_tagged pong bytes
          then ([], found (connection p start addr r))
          else later
      | timed_out ↦ ([], broken punch_timed_out)
      | failed ↦ ([], broken read_failed)
    ])
    else ([], quiet)

-- Which case the `select` takes: the receiver's channel entry, the sender's, or the timer's. A channel
-- with no entry is never ready, and then the timer is.
pub data Choice : Type 0 where
  by_receiver by_sender by_timer : Choice

pub record Simultaneous : Type 0 where
  pub start : ℕ
  pub pings : List (ℕ × Bool)
  pub rounds : List Round
  pub choice : Choice

unfoldable pub select_from : Choice → Answer → Option PunchError → Punched Connection
select_from by_receiver (found c) sent = ok c
select_from by_receiver (broken e) sent = err e
select_from by_receiver quiet sent = err punch_timed_out
select_from by_sender answer none = err punch_timed_out
select_from by_sender answer (some e) = err e
select_from by_timer answer sent = err punch_timed_out

unfoldable pub simultaneous_punch : Puncher → Simultaneous → Punched Connection
simultaneous_punch p x =
    let deadline = x.start + p.timeout in
    select_from x.choice (listen_until p x.start deadline x.rounds).1
      (ping_until p.max_attempts deadline 0 x.pings).1

-- The loop over the local addresses, from the one with number `i` on; `last` is what follows it.
unfoldable pub try_locals :
    Puncher → (ℕ → Direct) → ℕ → List UdpAddr → Punched Connection → Punched Connection
try_locals p direct i [] last = last
try_locals p direct i (addr ∷ rest) last =
    let later = try_locals p direct (i + 1) rest last in
    elim (try_direct p 2000000000 (direct i)) [
      | ok c ↦ ok c
      | err e ↦ later
      | panic ↦ panic
      | no_fuel ↦ no_fuel
    ]

abbrev pub is_unknown : NatType → Bool
is_unknown unknown = true
is_unknown _ = false

-- Whether the pair of NAT types lets the attempt go on.
unfoldable pub check_pair : Puncher → PeerInfo → Option PunchError
check_pair p peer = elim p.mapping [
  | none ↦ none
  | some m ↦
      if not (is_unknown peer.nat_type) && not (can_hole_punch m.type peer.nat_type)
      then some (unlikely m.type peer.nat_type)
      else none
]

-- The direct attempts by number, and the punching that follows them.
pub record Attempt : Type 0 where
  pub direct : ℕ → Direct
  pub punch : Simultaneous

unfoldable pub punch_hole : Puncher → Option PeerInfo → Attempt → Punched Connection
punch_hole p none x = err nil_peer
punch_hole p (some peer) x = elim peer.public_addr [
  | none ↦ err no_public_addr
  | some addr ↦ elim (check_pair p peer) [
    | some e ↦ err e
    | none ↦ try_locals p x.direct 0 peer.local_addrs (simultaneous_punch p x.punch)
  ]
]

unfoldable pub punch_with_retry :
    Puncher → Option PeerInfo → (ℕ → Attempt) → ℕ → Retried PunchError Connection
punch_with_retry p peer x retries = retry (λ i. punch_hole p peer (x i)) retries

-- `none` if the socket cannot be made.
unfoldable pub quick_punch :
    Option PeerInfo
    → Option Mapping
    → (UdpAddr → Option UdpAddr)
    → (ℕ → Attempt)
    → Option (Retried PunchError Connection)
quick_punch peer mapping listen x =
    elim (new_puncher (some (record default_puncher_config { mapping = mapping })) listen) [
      | ok p ↦ some (punch_with_retry p peer x 3)
      | err e ↦ none
      | panic ↦ none
      | no_fuel ↦ none
    ]
