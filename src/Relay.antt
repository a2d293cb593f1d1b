-- ===== src/Relay.antt =====
-- backend/pkg/relay/client.go: the relay client. The socket is known by its local address, and what
-- it answers and what the clock shows are arguments. Durations are not negative. An allocation's ID
-- stands for the number in its text.
pub mod Lease
pub mod Receive
pub mod Tests
use altair.Prelude.{
  ℕ, ◌+◌, ◌-◌, String, Bool, true, false, not, ◌&&◌, List, [], ◌∷◌, Option, none, some, ltb, ◌==◌,
  if◌then◌else◌, take,
}
use altair.Outcome.{Outcome, ok, err, panic, no_fuel, ◌>>=◌}
use altair.Net.{UdpAddr, Read, datagram, timed_out, failed, ip_equal}

pub record Allocation : Type 0 where
  pub relay_addr : UdpAddr
  pub reflexive_addr : UdpAddr
  pub lifetime : ℕ
  pub expires_at : ℕ
  pub id : ℕ

-- `none` is the nil allocation.
unfoldable pub is_valid : Option Allocation → ℕ → Bool
is_valid none now = false
is_valid (some a) now = ltb now a.expires_at

unfoldable pub time_remaining : Option Allocation → ℕ → ℕ
time_remaining none now = 0
time_remaining (some a) now = if is_valid (some a) now then a.expires_at - now else 0

pub record Client : Type 0 where
  pub server_addr : UdpAddr
  pub local_addr : UdpAddr
  pub allocation : Option Allocation
  pub timeout : ℕ
  pub closed : Bool

pub record ClientConfig : Type 0 where
  pub server_addr : String
  pub lifetime : ℕ
  pub timeout : ℕ
  pub conn : Option UdpAddr

pub data RelayError : Type 0 where
  nil_config resolve_failed listen_failed client_closed no_allocation expired : RelayError
  send_failed deadline_failed close_failed no_data : RelayError
  receive_failed : Read → RelayError

abbrev pub Relayed : Type 0 → Type 0
Relayed A = Outcome RelayError A

abbrev pub or_err {ℓ} : {A : Type ℓ} → RelayError → Option A → Outcome RelayError A
or_err e none = err e
or_err e (some a) = ok a

-- Ten minutes and five seconds, in nanoseconds.
unfoldable pub default_client_config : String → ClientConfig
default_client_config server_addr = record {
  server_addr = server_addr;
  lifetime = 600000000000;
  timeout = 5000000000;
  conn = none;
}

-- `resolve` is net.ResolveUDPAddr and `listen` the address of a new socket; `none` is their failure.
unfoldable pub new_client :
    Option ClientConfig → (String → Option UdpAddr) → Option UdpAddr → Relayed Client
new_client none resolve listen = err nil_config
new_client (some config) resolve listen =
    or_err resolve_failed (resolve config.server_addr) >>= λ server.
    or_err listen_failed (elim config.conn [ some conn ↦ some conn | none ↦ listen ]) >>= λ conn.
    ok (record {
      server_addr = server;
      local_addr = conn;
      allocation = none;
      timeout = config.timeout;
      closed = false;
    })

-- The clock is read twice: for the ID and for the expiry.
unfoldable pub new_allocation : Client → ℕ → ℕ → ℕ → Allocation
new_allocation c lifetime now now' = record {
  relay_addr = record { ip = c.server_addr.ip; port = c.server_addr.port + 1 };
  reflexive_addr = c.local_addr;
  lifetime = lifetime;
  expires_at = now' + lifetime;
  id = now;
}

unfoldable pub allocate : Client → ℕ → ℕ → ℕ → Client × Relayed Allocation
allocate c lifetime now now' =
    if c.closed
    then (c, err client_closed)
    else let a = new_allocation c lifetime now now' in (record c { allocation = some a }, ok a)

unfoldable pub refresh : Client → ℕ → ℕ → ℕ → Client × Option RelayError
refresh c duration now now' = elim c.allocation [
  | none ↦ (c, some no_allocation)
  | some a ↦
      if is_valid (some a) now
      then (
        record c {
          allocation = some (record a { expires_at = now' + duration; lifetime = duration });
        },
        none,
      )
      else (c, some expired)
]

-- What is written to the socket, and the error. `written` says whether the write succeeds.
unfoldable pub send :
    Client → List ℕ → UdpAddr → ℕ → Bool → List (List ℕ × UdpAddr) × Option RelayError
send c bytes peer now written = if c.closed then ([], some client_closed) else elim c.allocation [
  | none ↦ ([], some no_allocation)
  | some a ↦
      if is_valid (some a) now
      then (if written then ((bytes, peer) ∷ [], none) else ([], some send_failed))
      else ([], some expired)
]

-- The datagram as far as the buffer of 65536 bytes reaches; the error of a read is wrapped.
unfoldable pub receive : Client → Bool → Read → Relayed (List ℕ × UdpAddr)
receive c deadline_set read =
    if c.closed
    then err client_closed
    else if not deadline_set
    then err deadline_failed
    else elim read [
      | datagram bytes addr ↦ ok (take 65536 bytes, addr)
      | timed_out ↦ err (receive_failed timed_out)
      | failed ↦ err (receive_failed failed)
    ]

-- `err.(net.Error)` with `Timeout()`: an error made by fmt.Errorf is no net.Error, and so is none of
-- those that `Receive` returns.
unfoldable pub is_timeout : RelayError → Bool
is_timeout e = false

-- A round of the loop: the time of its test, and what the socket answers.
pub record Round : Type 0 where
  pub now : ℕ
  pub deadline_set : Bool
  pub read : Read

unfoldable pub is_from : UdpAddr → UdpAddr → Bool
is_from peer addr = ip_equal addr.ip peer.ip && addr.port == peer.port

-- The loop of `ReceiveFrom`. `no_fuel` if the rounds end before it does.
unfoldable pub receive_until : Client → UdpAddr → ℕ → List Round → Relayed (List ℕ)
receive_until c peer deadline [] = no_fuel
receive_until c peer deadline (r ∷ rounds) =
    let later = receive_until c peer deadline rounds in
    if ltb r.now deadline
    then (elim (receive c r.deadline_set r.read) [
      | ok (bytes, addr) ↦ if is_from peer addr then ok bytes else later
      | err e ↦ if is_timeout e then later else err e
      | panic ↦ panic
      | no_fuel ↦ no_fuel
    ])
    else err no_data

unfoldable pub receive_from : Client → UdpAddr → ℕ → ℕ → List Round → Relayed (List ℕ)
receive_from c peer timeout now rounds = receive_until c peer (now + timeout) rounds

unfoldable pub create_permission : Client → ℕ → Option RelayError
create_permission c now = elim c.allocation [
  | none ↦ some no_allocation
  | some a ↦ if is_valid (some a) now then none else some expired
]

-- `released` says whether the socket closes without an error.
unfoldable pub close : Client → Bool → Client × Option RelayError
close c released = if c.closed then (c, none) else (
  record c { closed = true; allocation = none },
  if released then none else some close_failed,
)

-- With a client, the error of `Allocate` closes it.
unfoldable pub quick_relay :
    String → ℕ → (String → Option UdpAddr) → Option UdpAddr → ℕ → ℕ → Relayed (Client × Allocation)
quick_relay server_addr lifetime resolve listen now now' =
    new_client
      (some (record {
        server_addr = server_addr;
        lifetime = lifetime;
        timeout = 5000000000;
        conn = none;
      }))
      resolve listen
    >>= λ c. (let (c', made) = allocate c lifetime now now' in made >>= λ a. ok (c', a))
