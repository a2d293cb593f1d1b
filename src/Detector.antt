-- ===== src/Detector.antt =====
-- backend/pkg/nat/detector.go: the NAT types, the detection from two STUN rounds, and the table of
-- pairs that can punch holes.
pub mod Punching
pub mod Detection
pub mod Sockets
pub mod Names
pub mod Tests
use altair.Prelude.{
  ℕ, String, Bool, true, false, not, ◌&&◌, ◌||◌, Option, none, some, ltb, ◌==◌, ◌-◌, if◌then◌else◌,
}
use altair.Outcome.{Outcome, ok, err, panic, no_fuel, wrap_err, ◌>>=◌}
use altair.Net.{UdpAddr, ip_equal}
use altair.Retry.{Retried, retry}
use altair.Stun.Client.{
  ClientConfig, ClientError, new_client, Client, Endpoint, Exchange, DiscoverError, discover,
}

-- `undeclared n` is any value of Go's `Type` beside the constants.
pub data NatType : Type 0 where
  unknown open_internet full_cone restricted_cone port_restricted_cone symmetric blocked : NatType
  undeclared : ℕ → NatType

-- `==` against a constant.
abbrev pub is_open : NatType → Bool
is_open open_internet = true
is_open _ = false

abbrev pub is_full : NatType → Bool
is_full full_cone = true
is_full _ = false

abbrev pub is_restricted : NatType → Bool
is_restricted restricted_cone = true
is_restricted _ = false

abbrev pub is_port_restricted : NatType → Bool
is_port_restricted port_restricted_cone = true
is_port_restricted _ = false

abbrev pub is_symmetric : NatType → Bool
is_symmetric symmetric = true
is_symmetric _ = false

abbrev pub is_blocked : NatType → Bool
is_blocked blocked = true
is_blocked _ = false

unfoldable pub supports_p2p : NatType → Bool
supports_p2p open_internet = true
supports_p2p full_cone = true
supports_p2p restricted_cone = true
supports_p2p port_restricted_cone = true
supports_p2p symmetric = false
supports_p2p _ = false

unfoldable pub difficulty : NatType → ℕ
difficulty open_internet = 0
difficulty full_cone = 1
difficulty restricted_cone = 3
difficulty port_restricted_cone = 5
difficulty symmetric = 9
difficulty _ = 10

unfoldable pub can_hole_punch : NatType → NatType → Bool
can_hole_punch t u =
    if is_blocked t || is_blocked u
    then false
    else if is_open t || is_open u
    then true
    else if is_full t || is_full u
    then true
    else if is_restricted t && is_restricted u
    then true
    else if is_port_restricted t && is_port_restricted u
    then true
    else if is_symmetric t || is_symmetric u
    then (if is_symmetric t && is_symmetric u then false else false)
    else false

pub record Mapping : Type 0 where
  pub local_addr : UdpAddr
  pub public_addr : Option UdpAddr
  pub type : NatType
  pub detected_at : ℕ

-- `none` is the nil mapping; `now` is the time of the call.
unfoldable pub is_valid : Option Mapping → ℕ → ℕ → Bool
is_valid none now max_age = false
is_valid (some m) now max_age = elim m.public_addr [
  | none ↦ false
  | some addr ↦ ltb (now - m.detected_at) max_age
]

pub record Detector : Type 0 where
  pub primary : Client
  pub secondary : Client
  pub retry_count : ℕ

pub data DetectError : Type 0 where
  test1_failed test2_failed : DiscoverError → DetectError

pub record DetectorConfig : Type 0 where
  pub primary_server : String
  pub secondary_server : String
  pub timeout : ℕ
  pub retry_count : ℕ

-- Five seconds, in nanoseconds.
unfoldable pub default_config : DetectorConfig
default_config = record {
  primary_server = "stun.l.google.com:19302";
  secondary_server = "stun1.l.google.com:19302";
  timeout = 5000000000;
  retry_count = 3;
}

abbrev pub client_config : String → ℕ → ClientConfig
client_config server timeout = record { server_addr = server; local_addr = ""; timeout = timeout }

pub data DetectorError : Type 0 where
  primary_failed secondary_failed : ClientError → DetectorError

-- `listen1` and `listen2` make the sockets of the two clients.
unfoldable pub new_detector :
    Option DetectorConfig
    → (String → Option UdpAddr)
    → (Option UdpAddr → Option UdpAddr)
    → (Option UdpAddr → Option UdpAddr)
    → Outcome DetectorError Detector
unfolding default_config
new_detector given resolve listen1 listen2 =
    let config : DetectorConfig = elim given [ some c ↦ c | none ↦ default_config ] in
    wrap_err primary_failed
      (new_client (client_config config.primary_server config.timeout) resolve listen1)
    >>= λ primary.
        wrap_err secondary_failed
          (new_client (client_config config.secondary_server config.timeout) resolve listen2)
        >>= λ secondary.
            ok (record {
              primary = primary;
              secondary = secondary;
              retry_count = config.retry_count;
            })

-- The type that two endpoints show, once the first is known to be behind a NAT.
unfoldable pub classify : Endpoint → Endpoint → NatType
classify e1 e2 =
    let same_ip = ip_equal e1.public_addr.ip e2.public_addr.ip in
    let same_port = e1.public_addr.port == e2.public_addr.port in
    if not same_ip || not same_port then symmetric else restricted_cone

abbrev pub mapping_of : Endpoint → NatType → ℕ → Mapping
mapping_of e type now = record {
  local_addr = e.local_addr;
  public_addr = some e.public_addr;
  type = type;
  detected_at = now;
}

-- Test 2 and what follows it, behind a NAT.
unfoldable pub detect_second : Detector → Exchange → ℕ → Endpoint → Outcome DetectError Mapping
detect_second d x2 now e1 = wrap_err test2_failed (discover d.secondary x2) >>= λ e2.
    ok (mapping_of e1 (classify e1 e2) now)

-- `x1` and `x2` are the exchanges with the two servers, `now` the time at the end.
unfoldable pub detect : Detector → Exchange → Exchange → ℕ → Outcome DetectError Mapping
detect d x1 x2 now = wrap_err test1_failed (discover d.primary x1) >>= λ e1.
    if ip_equal e1.local_addr.ip e1.public_addr.ip
    then ok (mapping_of e1 open_internet now)
    else detect_second d x2 now e1

-- Attempt `i` has the exchanges `x1 i` and `x2 i` and ends at `now i`.
unfoldable pub detect_with_retry :
    Detector → (ℕ → Exchange) → (ℕ → Exchange) → (ℕ → ℕ) → Retried DetectError Mapping
detect_with_retry d x1 x2 now = retry (λ i. detect d (x1 i) (x2 i) (now i)) d.retry_count

-- A detector that is made, used and closed; `none` if it cannot be made.
unfoldable pub detect_once :
    DetectorConfig
    → (String → Option UdpAddr)
    → (Option UdpAddr → Option UdpAddr)
    → (Option UdpAddr → Option UdpAddr)
    → (ℕ → Exchange)
    → (ℕ → Exchange)
    → (ℕ → ℕ)
    → Option (Retried DetectError Mapping)
detect_once config resolve listen1 listen2 x1 x2 now =
    elim (new_detector (some config) resolve listen1 listen2) [
      | ok d ↦ some (detect_with_retry d x1 x2 now)
      | err e ↦ none
      | panic ↦ none
      | no_fuel ↦ none
    ]

unfoldable pub detect_with_servers :
    String
    → String
    → (String → Option UdpAddr)
    → (Option UdpAddr → Option UdpAddr)
    → (Option UdpAddr → Option UdpAddr)
    → (ℕ → Exchange)
    → (ℕ → Exchange)
    → (ℕ → ℕ)
    → Option (Retried DetectError Mapping)
detect_with_servers primary secondary = detect_once (record {
  primary_server = primary;
  secondary_server = secondary;
  timeout = 5000000000;
  retry_count = 3;
})

unfoldable pub quick_detect :
    (String → Option UdpAddr)
    → (Option UdpAddr → Option UdpAddr)
    → (Option UdpAddr → Option UdpAddr)
    → (ℕ → Exchange)
    → (ℕ → Exchange)
    → (ℕ → ℕ)
    → Option (Retried DetectError Mapping)
quick_detect = detect_once default_config
