-- ===== src/Stun/Address.antt =====
-- backend/pkg/stun/address.go: MAPPED-ADDRESS and XOR-MAPPED-ADDRESS. Where the source fills a
-- buffer of known size byte by byte in a loop, the model makes the list of these bytes.
pub mod Xor
pub mod RoundTrip
pub mod Mapped
use altair.Prelude.{
  ℕ, zero, suc, ◌+◌, ◌/◌, ◌%◌, ◌^◌, bit_xor, Bool, not, List, [], ◌∷◌, Option, none, some, ltb,
  ◌==◌, if◌then◌else◌, length, drop, replicate,
}
use altair.Bytes.{be_u32, copy_into, put_u16, put_u32, uint16, slice, be_u16}
use altair.Bytes
use altair.Outcome.{Outcome, err, or_panic}
use altair.Outcome
use altair.Net.{UdpAddr, to4, to16}
use altair.Stun.Message.{Attribute, attr_mapped_address, attr_xor_mapped_address, magic_cookie}

abbrev pub family_ipv4 : ℕ
family_ipv4 = 1

abbrev pub family_ipv6 : ℕ
family_ipv6 = 2

-- uint16(MagicCookie >> 16)
abbrev pub cookie_high : ℕ
cookie_high = magic_cookie / 2 ^ 16

-- `n` rounds of out[i] = xs[i] ^ ks[i]; `none` is an index out of range.
unfoldable pub xor_bytes : ℕ → List ℕ → List ℕ → Option (List ℕ)
xor_bytes zero xs ks = some []
xor_bytes (suc n) [] ks = none
xor_bytes (suc n) (x ∷ xs) [] = none
xor_bytes (suc n) (x ∷ xs) (k ∷ ks) =
    Bytes.◌>>=◌ (xor_bytes n xs ks) λ rest. some (bit_xor x k ∷ rest)

-- The magic cookie and the transaction ID as one key of sixteen bytes.
unfoldable pub xor_key : List ℕ → Option (List ℕ)
xor_key id = Bytes.◌>>=◌ (put_u32 (replicate 16 0) 0 magic_cookie) λ key. copy_into key 4 16 id

pub data AddressError : Type 0 where
  wrong_type : AddressError
  value_short ipv4_short ipv6_short bad_family : ℕ → AddressError

abbrev pub Resolved : Type 0 → Type 0
Resolved A = Outcome AddressError A

unfoldable pub decode_xor_ip : ℕ → List ℕ → List ℕ → Resolved (List ℕ)
decode_xor_ip family value id =
    if family == family_ipv4
    then (if ltb (length value) 8
        then err (ipv4_short (length value))
        else or_panic (
            Bytes.◌>>=◌ (Bytes.◌>>=◌ (slice value 4 8) be_u32)
              λ addr. put_u32 (replicate 4 0) 0 (bit_xor addr magic_cookie)))
    else if family == family_ipv6
    then (if ltb (length value) 20
        then err (ipv6_short (length value))
        else or_panic (Bytes.◌>>=◌ (xor_key id) λ key. xor_bytes 16 (drop 4 value) key))
    else err (bad_family family)

unfoldable pub decode_mapped_ip : ℕ → List ℕ → Resolved (List ℕ)
decode_mapped_ip family value =
    if family == family_ipv4
    then (if ltb (length value) 8
        then err (ipv4_short (length value))
        else or_panic (Bytes.◌>>=◌ (slice value 4 8) λ src. copy_into (replicate 4 0) 0 4 src))
    else if family == family_ipv6
    then (if ltb (length value) 20
        then err (ipv6_short (length value))
        else or_panic (Bytes.◌>>=◌ (slice value 4 20) λ src. copy_into (replicate 16 0) 0 16 src))
    else err (bad_family family)

-- Family and port, the first four bytes of a value.
unfoldable pub read_family_port : List ℕ → Resolved (ℕ × ℕ)
read_family_port value = or_panic (
    Bytes.◌>>=◌ (Bytes.◌>>=◌ (slice value 0 2) be_u16)
      λ family. Bytes.◌>>=◌ (Bytes.◌>>=◌ (slice value 2 4) be_u16) λ port. some (family, port))

unfoldable pub decode_xor_mapped_address : Attribute → List ℕ → Resolved UdpAddr
decode_xor_mapped_address attr id =
    if not (attr.type == attr_xor_mapped_address)
    then err wrong_type
    else if ltb (length attr.value) 4
    then err (value_short (length attr.value))
    else Outcome.◌>>=◌ (read_family_port attr.value) λ fp.
      Outcome.◌>>=◌ (decode_xor_ip fp.0 attr.value id)
        λ ip. Outcome.ok (record { ip = ip; port = bit_xor fp.1 cookie_high })

unfoldable pub decode_mapped_address : Attribute → Resolved UdpAddr
decode_mapped_address attr =
    if not (attr.type == attr_mapped_address)
    then err wrong_type
    else if ltb (length attr.value) 4
    then err (value_short (length attr.value))
    else Outcome.◌>>=◌ (read_family_port attr.value) λ fp.
      Outcome.◌>>=◌ (decode_mapped_ip fp.0 attr.value)
        λ ip. Outcome.ok (record { ip = ip; port = fp.1 })

-- The values, family last as in the source; `none` is the panic on an IP of another length.
unfoldable pub xor_value : UdpAddr → List ℕ → Option (List ℕ)
xor_value addr id = elim (to4 addr.ip) [
  | some ip ↦
      Bytes.◌>>=◌ (put_u16 (replicate 8 0) 2 (bit_xor (uint16 addr.port) cookie_high)) λ value1.
        Bytes.◌>>=◌ (be_u32 ip) λ addr_int.
          Bytes.◌>>=◌ (put_u32 value1 4 (bit_xor addr_int magic_cookie))
            λ value2. put_u16 value2 0 family_ipv4
  | none ↦
      Bytes.◌>>=◌ (put_u16 (replicate 20 0) 2 (bit_xor (uint16 addr.port) cookie_high)) λ value1.
        Bytes.◌>>=◌ (xor_key id) λ key. Bytes.◌>>=◌ (to16 addr.ip) λ ip.
          Bytes.◌>>=◌ (xor_bytes 16 ip key) λ bytes.
            Bytes.◌>>=◌ (copy_into value1 4 20 bytes) λ value2. put_u16 value2 0 family_ipv6
]

unfoldable pub encode_xor_mapped_address : UdpAddr → List ℕ → Option Attribute
encode_xor_mapped_address addr id = Bytes.◌>>=◌ (xor_value addr id) λ value.
    some (record { type = attr_xor_mapped_address; length = uint16 (length value); value = value })

-- copy(value[4:20], ip) of a nil `ip` copies nothing.
unfoldable pub mapped_value : UdpAddr → Option (List ℕ)
mapped_value addr = elim (to4 addr.ip) [
  | some ip ↦
      Bytes.◌>>=◌ (put_u16 (replicate 8 0) 2 (uint16 addr.port))
        λ value1. Bytes.◌>>=◌ (copy_into value1 4 8 ip) λ value2. put_u16 value2 0 family_ipv4
  | none ↦ Bytes.◌>>=◌ (put_u16 (replicate 20 0) 2 (uint16 addr.port)) λ value1.
      Bytes.◌>>=◌ (copy_into value1 4 20 (elim (to16 addr.ip) [ none ↦ [] | some ip ↦ ip ]))
        λ value2. put_u16 value2 0 family_ipv6
]

unfoldable pub encode_mapped_address : UdpAddr → Option Attribute
encode_mapped_address addr = Bytes.◌>>=◌ (mapped_value addr) λ value.
    some (record { type = attr_mapped_address; length = uint16 (length value); value = value })
