-- ===== src/Demo.antt =====
-- backend/examples/chat/main.go: the demo that puts NAT detection, hole punching and the relay
-- together. Flags, sockets and the exchanges with the network are arguments; printing is left out.
pub mod Messages
pub mod Connecting
pub mod Sending
pub mod Delivery
pub mod Tests
use text.Mathlib.Text.{◌==◌ as str_eq}
use altair.Prelude.{
  ℕ, Bool, true, false, not, ◌&&◌, ◌||◌, String, List, [], ◌∷◌, Option, none, some, ltb, ◌==◌,
  if◌then◌else◌, length, take, map,
}
use altair.Outcome.{Outcome, ok, err, panic, no_fuel, ◌>>=◌, wrap_err}
use altair.Net.{UdpAddr, Read, datagram, timed_out, failed, bytes_eq}
use altair.Retry.{Retried, RetryError}
use altair.Stun.Client.{Exchange}
use altair.Detector.{
  NatType, full_cone, is_symmetric, is_blocked, Mapping, DetectError, detect_once,
}
use altair.Addresses.{Iface, AddrError, get_private_addresses}
use altair.Relay.{RelayError, quick_relay, is_from}
use altair.Relay
use altair.Punch.{
  Puncher, PuncherConfig, PeerInfo, PunchError, Connection, Attempt, any_addr, is_tagged, ping,
  pong, new_puncher, punch_with_retry,
}

pub record ChatConnection : Type 0 where
  pub conn : UdpAddr
  pub remote_addr : UdpAddr
  pub is_relayed : Bool
  pub relay_client : Option Relay.Client

pub data DemoError : Type 0 where
  no_detector invalid_peer no_relay no_connection dummy_failed listen_failed read_failed : DemoError
  relay_failed : RelayError → DemoError
  puncher_failed : PunchError → DemoError
  detect_failed : RetryError DetectError → DemoError

abbrev pub Connected : Type 0
Connected = Outcome DemoError ChatConnection

-- Ten seconds, in nanoseconds; the rest is what a detector that is made and used meets.
unfoldable pub detect_nat :
    String
    → (String → Option UdpAddr)
    → (Option UdpAddr → Option UdpAddr)
    → (Option UdpAddr → Option UdpAddr)
    → (ℕ → Exchange)
    → (ℕ → Exchange)
    → (ℕ → ℕ)
    → Option (Retried DetectError Mapping)
detect_nat stun_server = detect_once (record {
  primary_server = stun_server;
  secondary_server = "stun1.l.google.com:19302";
  timeout = 10000000000;
  retry_count = 3;
})

unfoldable pub with_port_zero : List (List ℕ) → List UdpAddr
with_port_zero [] = []
with_port_zero (ip ∷ rest) = record { ip = ip; port = 0 } ∷ with_port_zero rest

unfoldable pub get_local_addresses : Option (List Iface) → Outcome AddrError (List UdpAddr)
get_local_addresses ifaces = get_private_addresses ifaces >>= λ ips. ok (with_port_zero ips)

-- What the run meets: the resolver, the sockets that are opened, two readings of the clock, and the
-- attempts of the puncher.
pub record World : Type 0 where
  pub resolve : String → Option UdpAddr
  pub relay_socket : Option UdpAddr
  pub dummy_socket : Option UdpAddr
  pub bind : UdpAddr → Option UdpAddr
  pub now : ℕ
  pub later : ℕ
  pub attempts : ℕ → Attempt

unfoldable pub connect_via_relay : World → String → UdpAddr → Connected
connect_via_relay w relay_server peer =
    if str_eq relay_server ""
    then err no_relay
    else (wrap_err relay_failed
          (quick_relay relay_server 600000000000 w.resolve w.relay_socket w.now w.later)
        >>= λ made. elim w.dummy_socket [
          | none ↦ err dummy_failed
          | some addr ↦ ok (record {
            conn = addr;
            remote_addr = peer;
            is_relayed = true;
            relay_client = some made.0;
          })
        ])

abbrev demo_config : Mapping → PuncherConfig
demo_config m = record {
  local_addr = none;
  mapping = some m;
  timeout = 15000000000;
  ping_interval = 200000000;
  max_attempts = 50;
  conn = none;
}

abbrev demo_peer : UdpAddr → List UdpAddr → PeerInfo
demo_peer peer local_addrs = record {
  public_addr = some peer;
  local_addrs = local_addrs;
  nat_type = full_cone;
}

-- Hole punching, and the relay if it fails and there is one.
unfoldable pub punch_or_relay : World → String → UdpAddr → Mapping → List UdpAddr → Connected
punch_or_relay w relay_server peer m local_addrs =
    wrap_err puncher_failed (new_puncher (some (demo_config m)) w.bind) >>= λ p.
    elim (punch_with_retry p (some (demo_peer peer local_addrs)) w.attempts 2).result [
      | ok c ↦ ok (record {
        conn = c.local_addr;
        remote_addr = c.remote_addr;
        is_relayed = false;
        relay_client = none;
      })
      | err e ↦
          if str_eq relay_server ""
          then err no_connection
          else connect_via_relay w relay_server peer
      | panic ↦ panic
      | no_fuel ↦ no_fuel
    ]

unfoldable pub connect_to_peer : World → String → String → Mapping → List UdpAddr → Connected
connect_to_peer w relay_server peer_addr m local_addrs = elim (w.resolve peer_addr) [
  | none ↦ err invalid_peer
  | some peer ↦
      if not (is_symmetric m.type) || is_blocked m.type
      then connect_via_relay w relay_server peer
      else punch_or_relay w relay_server peer m local_addrs
]

-- The loop of `waitForPeer`: to whom PONG is sent, in order, and the first sender of anything else,
-- who is sent CONNECTED. `no_fuel` if the reads end before it does.
unfoldable pub wait_until : List Read → List UdpAddr × Outcome DemoError UdpAddr
wait_until [] = ([], no_fuel)
wait_until (read ∷ reads) =
    let later = wait_until reads in
    elim read [
      | datagram bytes addr ↦
          if is_tagged ping bytes then (addr ∷ later.0, later.1) else ([], ok addr)
      | timed_out ↦ ([], err read_failed)
      | failed ↦ ([], err read_failed)
    ]

-- `own` is the socket on the port of the mapping, `spare` one on any port.
unfoldable pub wait_for_peer : Option UdpAddr → Option UdpAddr → List Read → Connected
wait_for_peer own spare reads =
    let socket : Option UdpAddr = elim own [ none ↦ spare | some addr ↦ some addr ] in
    elim socket [
      | none ↦ err listen_failed
      | some addr ↦ (wait_until reads).1 >>= λ peer.
          ok (record { conn = addr; remote_addr = peer; is_relayed = false; relay_client = none })
    ]

-- What a round of `receiveMessages` does.
pub data Shown : Type 0 where
  shown : List ℕ → Shown
  skipped exits panics : Shown

-- "CONNECTED"
abbrev pub connected_tag : List ℕ
connected_tag = 67 ∷ 79 ∷ 78 ∷ 78 ∷ 69 ∷ 67 ∷ 84 ∷ 69 ∷ 68 ∷ []

unfoldable pub is_protocol : List ℕ → Bool
is_protocol m = bytes_eq m ping || (bytes_eq m pong || bytes_eq m connected_tag)

-- After the read: `bytes` has length n, and the buffer has 1500 bytes.
unfoldable pub show_message : UdpAddr → List ℕ → UdpAddr → Shown
show_message remote bytes addr =
    if not (is_from remote addr)
    then skipped
    else if ltb 1500 (length bytes)
    then panics
    else if is_protocol bytes
    then skipped
    else shown bytes

unfoldable pub receive_relayed : ChatConnection → Relay.Client → Bool → Read → Shown
receive_relayed c client deadline_set read = elim (Relay.receive client deadline_set read) [
  | ok (bytes, addr) ↦ show_message c.remote_addr bytes addr
  | err e ↦ exits
  | panic ↦ panics
  | no_fuel ↦ exits
]

unfoldable pub receive_direct : ChatConnection → Read → Shown
receive_direct c (datagram bytes addr) = show_message c.remote_addr (take 1500 bytes) addr
receive_direct c timed_out = exits
receive_direct c failed = exits

unfoldable pub receive_message : ChatConnection → Bool → Read → Shown
receive_message c deadline_set read =
    if c.is_relayed
    then (elim c.relay_client [
      | some client ↦ receive_relayed c client deadline_set read
      | none ↦ receive_direct c read
    ])
    else receive_direct c read

-- What is put on the socket for a line of input, given as its text with the user's name in front.
-- A write that fails puts nothing there.
unfoldable pub send_direct : ChatConnection → List ℕ → Bool → List (List ℕ × UdpAddr)
send_direct c message written = if written then (message, c.remote_addr) ∷ [] else []

unfoldable pub send_message : ChatConnection → List ℕ → ℕ → Bool → List (List ℕ × UdpAddr)
send_message c message now written =
    if c.is_relayed
    then (elim c.relay_client [
      | some client ↦ (Relay.send client message c.remote_addr now written).0
      | none ↦ send_direct c message written
    ])
    else send_direct c message written

-- `none` if the detector cannot be made.
unfoldable pub mapping_from : Option (Retried DetectError Mapping) → Outcome DemoError Mapping
mapping_from none = err no_detector
mapping_from (some detected) = wrap_err detect_failed detected.result

-- What `main` does before the chat starts: an empty `peer_addr` stands for the missing flag, and an
-- error of the interfaces leaves no local address.
unfoldable pub establish :
    World
    → String
    → String
    → Option (Retried DetectError Mapping)
    → Option (List Iface)
    → Option UdpAddr
    → Option UdpAddr
    → List Read
    → Connected
establish w relay_server peer_addr detected ifaces own spare reads = mapping_from detected >>= λ m.
    (let local_addrs : List UdpAddr = elim (get_local_addresses ifaces) [
      | ok addrs ↦ addrs
      | err e ↦ []
      | panic ↦ []
      | no_fuel ↦ []
    ] in
      if str_eq peer_addr ""
      then wait_for_peer own spare reads
      else connect_to_peer w relay_server peer_addr m local_addrs)
