-- ===== src/Addresses/Network.antt =====
-- backend/pkg/netutil/netutil.go, `SameNetwork`, with a mask of the wrong length.
use altair.Prelude.{ℕ, ◌≡◌, refl, true, List, [], none, arith, length}
use altair.Net.{to4, ip_equal, bytes_eq}
use altair.Addresses.{apply_mask, same_network}

-- A mask of four bytes makes nil of an IPv6 address.
no_network :
    (ip mask : List ℕ) → length ip ≡ 16 → to4 ip ≡ none → length mask ≡ 4 → apply_mask ip mask ≡ []
unfolding apply_mask to4
no_network ip mask size v6 four = ground (arith, size, v6, four)

-- SameNetwork is true of any two IPv6 addresses, with a mask of four bytes.
pub same_network_mismatch :
    (ip1 ip2 mask : List ℕ)
    → length ip1 ≡ 16
    → length ip2 ≡ 16
    → to4 ip1 ≡ none
    → to4 ip2 ≡ none
    → length mask ≡ 4
    → same_network ip1 ip2 mask ≡ true
unfolding same_network
same_network_mismatch ip1 ip2 mask l1 l2 n1 n2 four =
    rw (no_network ip1 mask l1 n1 four, no_network ip2 mask l2 n2 four, n1, n2, l1, l2, four)
      (unfold ip_equal bytes_eq in refl)
