-- ===== src/Addresses.antt =====
-- backend/pkg/netutil/netutil.go: which addresses a host has and what kind they are. The kinds that
-- package net tells apart (loopback, link-local) and IP.Mask are written out.
pub mod Blocks
pub mod Network
pub mod Tests
use text.Mathlib.Text.{◌==◌ as str_eq}
use altair.Prelude.{
  ℕ, ◌/◌, ◌%◌, Bool, true, false, not, ◌&&◌, ◌||◌, String, List, [], ◌∷◌, ◌++◌, Option, none, some,
  leb, ◌==◌, if◌then◌else◌, length, take, drop, bit_and,
}
use altair.Outcome.{Outcome, ok, err}
use altair.Net.{UdpAddr, to4, ip_equal, bytes_eq, v4_in_v6_prefix}

-- The cases of `IsPrivateIP` for an IPv4 and an IPv6 address, by their first two bytes.
unfoldable pub is_private_v4 : List ℕ → Bool
is_private_v4 (a ∷ b ∷ rest) =
    (a == 10)
    || ((a == 172 && leb 16 b && leb b 31) || ((a == 192 && b == 168) || (a == 169 && b == 254)))
is_private_v4 _ = false

unfoldable pub is_private_v6 : List ℕ → Bool
is_private_v6 (a ∷ b ∷ rest) = (leb 0xfc a && leb a 0xfd) || (a == 0xfe && leb 0x80 b && leb b 0xbf)
is_private_v6 _ = false

-- nil is the empty list.
unfoldable pub is_private_ip : List ℕ → Bool
is_private_ip ip = elim (to4 ip) [
  | some v ↦ is_private_v4 v
  | none ↦ length ip == 16 && is_private_v6 ip
]

abbrev loopback_v6 : List ℕ
loopback_v6 = 0 ∷ 0 ∷ 0 ∷ 0 ∷ 0 ∷ 0 ∷ 0 ∷ 0 ∷ 0 ∷ 0 ∷ 0 ∷ 0 ∷ 0 ∷ 0 ∷ 0 ∷ 1 ∷ []

first_is : ℕ → List ℕ → Bool
first_is x [] = false
first_is x (a ∷ rest) = a == x

-- IP.IsLoopback
unfoldable pub is_loopback : List ℕ → Bool
unfolding first_is
is_loopback ip = elim (to4 ip) [ some v ↦ first_is 127 v | none ↦ ip_equal ip loopback_v6 ]

-- ip[1]&0xc0 == 0x80, for a byte.
link_local_v6 : List ℕ → Bool
link_local_v6 (a ∷ b ∷ rest) = a == 0xfe && b / 64 == 2
link_local_v6 _ = false

link_local_v4 : List ℕ → Bool
link_local_v4 (a ∷ b ∷ rest) = a == 169 && b == 254
link_local_v4 _ = false

-- IP.IsLinkLocalUnicast
unfoldable pub is_link_local_unicast : List ℕ → Bool
unfolding link_local_v4 link_local_v6
is_link_local_unicast ip = elim (to4 ip) [
  | some v ↦ link_local_v4 v
  | none ↦ length ip == 16 && link_local_v6 ip
]

-- ip[1]&0x0f == 0x02
multicast_v6 : List ℕ → Bool
multicast_v6 (a ∷ b ∷ rest) = a == 0xff && b % 16 == 2
multicast_v6 _ = false

multicast_v4 : List ℕ → Bool
multicast_v4 (a ∷ b ∷ c ∷ rest) = a == 224 && b == 0 && c == 0
multicast_v4 _ = false

-- IP.IsLinkLocalMulticast
unfoldable pub is_link_local_multicast : List ℕ → Bool
unfolding multicast_v4 multicast_v6
is_link_local_multicast ip = elim (to4 ip) [
  | some v ↦ multicast_v4 v
  | none ↦ length ip == 16 && multicast_v6 ip
]

unfoldable pub is_public_ip : List ℕ → Bool
is_public_ip ip =
    if length ip == 0
    then false
    else if is_loopback ip || (is_link_local_unicast ip || is_link_local_multicast ip)
    then false
    else not (is_private_ip ip)

-- An entry of iface.Addrs(): the IP of a net.IPNet or a net.IPAddr, or an address of another type.
pub data IfaceAddr : Type 0 where
  ip_net ip_addr : List ℕ → IfaceAddr
  other : IfaceAddr

-- `addrs` is `none` if Addrs fails.
pub record Iface : Type 0 where
  pub loopback : Bool
  pub up : Bool
  pub addrs : Option (List IfaceAddr)

unfoldable pub ip_of : IfaceAddr → List ℕ
ip_of (ip_net ip) = ip
ip_of (ip_addr ip) = ip
ip_of other = []

unfoldable pub keep_addrs : List IfaceAddr → List (List ℕ)
keep_addrs [] = []
keep_addrs (a ∷ rest) =
    let later = keep_addrs rest in
    if length (ip_of a) == 0 || is_loopback (ip_of a) then later else ip_of a ∷ later

unfoldable pub addrs_of : List Iface → List (List ℕ)
addrs_of [] = []
addrs_of (i ∷ rest) =
    let later = addrs_of rest in
    if i.loopback || not i.up
    then later
    else elim i.addrs [ none ↦ later | some addrs ↦ keep_addrs addrs ++ later ]

pub data AddrError : Type 0 where
  interfaces_failed no_addresses empty_address unresolved no_ip : AddrError

-- `none` if net.Interfaces fails.
unfoldable pub get_local_addresses : Option (List Iface) → Outcome AddrError (List (List ℕ))
get_local_addresses none = err interfaces_failed
get_local_addresses (some ifaces) = ok (addrs_of ifaces)

unfoldable pub keep_ips : (List ℕ → Bool) → List (List ℕ) → List (List ℕ)
keep_ips wanted [] = []
keep_ips wanted (ip ∷ rest) =
    let later = keep_ips wanted rest in if wanted ip then ip ∷ later else later

unfoldable pub get_private_addresses : Option (List Iface) → Outcome AddrError (List (List ℕ))
get_private_addresses none = err interfaces_failed
get_private_addresses (some ifaces) = ok (keep_ips is_private_ip (addrs_of ifaces))

unfoldable pub get_public_addresses : Option (List Iface) → Outcome AddrError (List (List ℕ))
get_public_addresses none = err interfaces_failed
get_public_addresses (some ifaces) = ok (keep_ips (λ ip. not (is_private_ip ip)) (addrs_of ifaces))

-- `dialed` is the local address of the socket to 8.8.8.8:80, or none.
unfoldable pub get_preferred_local_address :
    Option (List ℕ) → Option (List Iface) → Outcome AddrError (List ℕ)
get_preferred_local_address (some ip) ifaces = ok ip
get_preferred_local_address none none = err interfaces_failed
get_preferred_local_address none (some ifaces) = elim (addrs_of ifaces) [
  | [] ↦ err no_addresses
  | ip ∷ rest ↦ ok ip
]

unfoldable pub and_bytes : List ℕ → List ℕ → List ℕ
and_bytes [] ys = []
and_bytes (x ∷ xs) [] = []
and_bytes (x ∷ xs) (y ∷ ys) = bit_and x y ∷ and_bytes xs ys

abbrev all_ff : List ℕ
all_ff = 255 ∷ 255 ∷ 255 ∷ 255 ∷ 255 ∷ 255 ∷ 255 ∷ 255 ∷ 255 ∷ 255 ∷ 255 ∷ 255 ∷ []

-- IP.Mask: nil if the lengths do not fit.
unfoldable pub apply_mask : List ℕ → List ℕ → List ℕ
apply_mask ip mask =
    let mask' =
      if length mask == 16 && (length ip == 4 && bytes_eq (take 12 mask) all_ff)
      then drop 12 mask
      else mask in
    let ip' =
      if length mask' == 4 && (length ip == 16 && bytes_eq (take 12 ip) v4_in_v6_prefix)
      then drop 12 ip
      else ip in
    if length ip' == length mask' then and_bytes ip' mask' else []

abbrev is_some {ℓ} : {A : Type ℓ} → Option A → Bool
is_some none = false
is_some (some a) = true

unfoldable pub same_network : List ℕ → List ℕ → List ℕ → Bool
same_network ip1 ip2 mask =
    if length ip1 == 0 || (length ip2 == 0 || length mask == 0)
    then false
    else if is_some (to4 ip1) && not (is_some (to4 ip2))
    then false
    else if not (is_some (to4 ip1)) && is_some (to4 ip2)
    then false
    else ip_equal (apply_mask ip1 mask) (apply_mask ip2 mask)

unfoldable pub validate_udp_addr : (String → Option UdpAddr) → String → Option AddrError
validate_udp_addr resolve addr =
    if str_eq addr ""
    then some empty_address
    else elim (resolve addr) [ none ↦ some unresolved | some a ↦ none ]

unfoldable pub resolve_udp_addr : (String → Option UdpAddr) → String → Outcome AddrError UdpAddr
resolve_udp_addr resolve addr = elim (resolve addr) [
  | none ↦ err unresolved
  | some a ↦ if length a.ip == 0 then err no_ip else ok a
]
