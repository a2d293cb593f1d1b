-- ===== src/Stun/Client.antt =====
-- backend/pkg/stun/client.go: one discovery round and its retries. Randomness, the socket and the
-- network are the answers of an `Exchange`, one for each call of `Discover`.
pub mod Discover
use text.Mathlib.Text.{◌==◌ as str_eq}
use altair.Prelude.{
  String, ℕ, Bool, true, false, not, List, Option, none, some, ◌==◌, if◌then◌else◌, take,
}
use altair.Outcome.{Outcome, ok, err, or_panic, wrap_err, ◌>>=◌}
use altair.Net.{UdpAddr, bytes_eq}
use altair.Retry.{Retried, retry}
use altair.Stun.Message.{
  Message, new_message, get_attribute, type_binding_request, type_binding_success,
  attr_mapped_address, attr_xor_mapped_address,
}
use altair.Stun.Encode.{encode}
use altair.Stun.Decode.{DecodeError, decode}
use altair.Stun.Address.{AddressError, decode_mapped_address, decode_xor_mapped_address}

pub record Endpoint : Type 0 where
  pub local_addr : UdpAddr
  pub public_addr : UdpAddr
  pub server_addr : UdpAddr

-- The socket is known by its local address.
pub record Client : Type 0 where
  pub local_addr : UdpAddr
  pub server_addr : UdpAddr
  pub timeout : ℕ

pub record ClientConfig : Type 0 where
  pub server_addr : String
  pub local_addr : String
  pub timeout : ℕ

pub data ClientError : Type 0 where
  server_unresolved local_unresolved no_socket : ClientError

-- A timeout of zero is five seconds, in nanoseconds.
unfoldable pub timeout_of : ClientConfig → ℕ
timeout_of config = if config.timeout == 0 then 5000000000 else config.timeout

-- The address to bind to, if one is named and resolves.
unfoldable pub local_of :
    (String → Option UdpAddr) → ClientConfig → Outcome ClientError (Option UdpAddr)
local_of resolve config =
    if str_eq config.local_addr "" then ok none else elim (resolve config.local_addr) [
      | none ↦ err local_unresolved
      | some addr ↦ ok (some addr)
    ]

-- `resolve` is net.ResolveUDPAddr and `listen` gives the local address of a new socket.
unfoldable pub new_client :
    ClientConfig
    → (String → Option UdpAddr)
    → (Option UdpAddr → Option UdpAddr)
    → Outcome ClientError Client
new_client config resolve listen = elim (resolve config.server_addr) [
  | none ↦ err server_unresolved
  | some server ↦ local_of resolve config >>= λ bound. elim (listen bound) [
    | none ↦ err no_socket
    | some addr ↦
        ok (record { local_addr = addr; server_addr = server; timeout = timeout_of config })
  ]
]

-- What ReadFromUDP returns: a datagram, a timeout or another error.
pub data Read : Type 0 where
  datagram : List ℕ → Read
  timed_out failed : Read

pub record Exchange : Type 0 where
  pub random : Option (List ℕ)
  pub sent : Bool
  pub deadline_set : Bool
  pub read : Read

pub data DiscoverError : Type 0 where
  create_failed send_failed deadline_failed request_timed_out read_failed : DiscoverError
  decode_failed : DecodeError → DiscoverError
  id_mismatch no_address : DiscoverError
  error_response : ℕ → DiscoverError
  mapped_failed xor_failed : AddressError → DiscoverError

abbrev pub Discovered : Type 0 → Type 0
Discovered A = Outcome DiscoverError A

abbrev pub or_err : Option (List ℕ) → DiscoverError → Discovered (List ℕ)
or_err none e = err e
or_err (some a) e = ok a

-- A call of the socket that reports an error `e`, or none.
abbrev pub guard : Bool → DiscoverError → Discovered (Unit {0})
guard fine e = if fine then ok tt else err e

-- The datagram as far as the buffer of 1500 bytes reaches.
unfoldable pub receive : Read → Discovered (List ℕ)
receive (datagram bytes) = ok (take 1500 bytes)
receive timed_out = err request_timed_out
receive failed = err read_failed

-- The address attribute: XOR-MAPPED-ADDRESS, or else MAPPED-ADDRESS.
unfoldable pub public_address : Message → List ℕ → Discovered UdpAddr
public_address response id = elim (get_attribute response attr_xor_mapped_address) [
  | some attr ↦ wrap_err xor_failed (decode_xor_mapped_address attr id)
  | none ↦ elim (get_attribute response attr_mapped_address) [
    | some attr ↦ wrap_err mapped_failed (decode_mapped_address attr)
    | none ↦ err no_address
  ]
]

-- What is done with a decoded response.
unfoldable pub check_response : Client → List ℕ → Message → Discovered Endpoint
check_response c id response =
    if not (bytes_eq response.transaction_id id)
    then err id_mismatch
    else if not (response.type == type_binding_success)
    then err (error_response response.type)
    else (public_address response id >>= λ addr.
        ok (record { local_addr = c.local_addr; public_addr = addr; server_addr = c.server_addr }))

-- What follows the request: the socket calls and the response.
unfoldable pub await_response : Client → Exchange → List ℕ → Discovered Endpoint
await_response c x id = guard x.sent send_failed >>= λ _.
    guard x.deadline_set deadline_failed >>= λ _. receive x.read >>= λ bytes.
    wrap_err decode_failed (decode bytes) >>= λ response. check_response c id response

unfoldable pub discover : Client → Exchange → Discovered Endpoint
discover c x = elim (new_message type_binding_request x.random) [
  | none ↦ err create_failed
  | some request ↦ or_panic (encode request) >>= λ bytes. await_response c x request.transaction_id
]

-- `x i` is the exchange of attempt `i`.
unfoldable pub discover_with_retry : Client → (ℕ → Exchange) → ℕ → Retried DiscoverError Endpoint
discover_with_retry c x max_retries = retry (λ i. discover c (x i)) max_retries
