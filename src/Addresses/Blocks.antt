-- ===== src/Addresses/Blocks.antt =====
-- backend/pkg/netutil/netutil.go, `IsPrivateIP` and `IsPublicIP`, against blocks of addresses.
use altair.Prelude.{
  ℕ, ◌+◌, ◌*◌, ◌/◌, ◌^◌, ◌<◌, ◌≡◌, Bool, false, not, ◌||◌, List, [], ◌∷◌, arith, ◌==◌,
}
use altair.Net.{to4}
use altair.Addresses.{
  is_private_ip, is_private_v4, is_public_ip, is_loopback, is_link_local_unicast,
  is_link_local_multicast,
}

-- A block of IPv4 addresses, by one of them and the number of bits that are not fixed.
pub record Block : Type 0 where
  pub base : ℕ
  pub free : ℕ

abbrev pub number : ℕ → ℕ → ℕ → ℕ → ℕ
number a b c d = ((a * 256 + b) * 256 + c) * 256 + d

abbrev pub in_block : ℕ → Block → Bool
in_block n k = n / 2 ^ k.free == k.base / 2 ^ k.free

abbrev pub in_blocks : ℕ → List Block → Bool
in_blocks n [] = false
in_blocks n (k ∷ rest) = in_block n k || in_blocks n rest

-- 10.0.0.0/8, 172.16.0.0/12, 192.168.0.0/16, 169.254.0.0/16.
abbrev pub private_blocks : List Block
private_blocks =
    record { base = number 10 0 0 0; free = 24 }
    ∷ record { base = number 172 16 0 0; free = 20 }
    ∷ record { base = number 192 168 0 0; free = 16 }
    ∷ record { base = number 169 254 0 0; free = 16 }
    ∷ []

-- Those, 127.0.0.0/8 and 224.0.0.0/24.
abbrev pub local_blocks : List Block
local_blocks =
    record { base = number 127 0 0 0; free = 24 }
    ∷ record { base = number 224 0 0 0; free = 8 }
    ∷ private_blocks

-- IsPrivateIP of an IPv4 address is membership in one of the four private blocks.
pub private_v4_lem :
    (a b c d : ℕ)
    → b < 256
    → c < 256
    → d < 256
    → is_private_ip (a ∷ b ∷ c ∷ d ∷ []) ≡ in_blocks (number a b c d) private_blocks
unfolding is_private_ip is_private_v4 to4
private_v4_lem a b c d hb hc hd = ground arith

-- For an IPv4 address of four bytes, IsPublicIP is false exactly in the blocks 10.0.0.0/8,
-- 172.16.0.0/12, 192.168.0.0/16, 169.254.0.0/16, 127.0.0.0/8 and 224.0.0.0/24, by the number that
-- its bytes make.
pub public_v4_lem :
    (a b c d : ℕ)
    → b < 256
    → c < 256
    → d < 256
    → is_public_ip (a ∷ b ∷ c ∷ d ∷ []) ≡ not (in_blocks (number a b c d) local_blocks)
unfolding is_public_ip is_loopback is_link_local_unicast is_link_local_multicast is_private_ip
    is_private_v4 to4
public_v4_lem a b c d hb hc hd = ground arith
