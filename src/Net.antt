-- ===== src/Net.antt =====
-- What the program uses of Go's package `net`: an IP address is a slice of 4 or 16 bytes, nil is
-- the empty list; a UDP address is an IP address and a port.
pub mod Laws
use altair.Prelude.{
  ℕ, Bool, true, false, not, ◌&&◌, List, [], ◌∷◌, ◌++◌, Option, none, some, ◌==◌, if◌then◌else◌,
  length, take, drop,
}

pub record UdpAddr : Type 0 where
  pub ip : List ℕ
  pub port : ℕ

-- What ReadFromUDP returns, its errors told apart by `Timeout()`.
pub data Read : Type 0 where
  datagram : List ℕ → UdpAddr → Read
  timed_out failed : Read

unfoldable pub bytes_eq : List ℕ → List ℕ → Bool
bytes_eq [] [] = true
bytes_eq [] (y ∷ ys) = false
bytes_eq (x ∷ xs) [] = false
bytes_eq (x ∷ xs) (y ∷ ys) = x == y && bytes_eq xs ys

-- The first twelve bytes of an IPv4 address in its IPv6 form.
abbrev pub v4_in_v6_prefix : List ℕ
v4_in_v6_prefix = 0 ∷ 0 ∷ 0 ∷ 0 ∷ 0 ∷ 0 ∷ 0 ∷ 0 ∷ 0 ∷ 0 ∷ 255 ∷ 255 ∷ []

-- IP.To4; `none` is nil.
unfoldable pub to4 : List ℕ → Option (List ℕ)
to4 ip =
    if length ip == 4
    then some ip
    else if length ip == 16 && bytes_eq (take 12 ip) v4_in_v6_prefix
    then some (drop 12 ip)
    else none

-- IP.To16; `none` is nil.
unfoldable pub to16 : List ℕ → Option (List ℕ)
to16 ip =
    if length ip == 4
    then some (v4_in_v6_prefix ++ ip)
    else if length ip == 16
    then some ip
    else none

-- IP.Equal: an IPv4 address and its IPv6 form are equal.
unfoldable pub ip_equal : List ℕ → List ℕ → Bool
ip_equal a b =
    if length a == length b
    then bytes_eq a b
    else if length a == 4 && length b == 16
    then bytes_eq v4_in_v6_prefix (take 12 b) && bytes_eq a (drop 12 b)
    else if length a == 16 && length b == 4
    then bytes_eq v4_in_v6_prefix (take 12 a) && bytes_eq (drop 12 a) b
    else false
