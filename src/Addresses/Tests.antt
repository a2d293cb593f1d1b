-- ===== src/Addresses/Tests.antt =====
-- The theorems on addresses at concrete inputs.
use altair.Prelude.{◌≡◌, refl, true, not, [], ◌∷◌, arith}
use altair.Net.{to4, bytes_eq}
use altair.Addresses.{is_public_ip, same_network}
use altair.Addresses.Blocks.{number, in_blocks, local_blocks, public_v4_lem}
use altair.Addresses.Network.{same_network_mismatch}

-- An address of 100.64.0.0/10, behind a carrier's NAT.
public_v4_lem_example :
    is_public_ip (100 ∷ 64 ∷ 0 ∷ 1 ∷ []) ≡ not (in_blocks (number 100 64 0 1) local_blocks)
public_v4_lem_example = public_v4_lem 100 64 0 1 (omega arith) (omega arith) (omega arith)

-- Two IPv6 networks that a mask of four bytes does not tell apart.
two_networks :
    same_network
      (32 ∷ 1 ∷ 13 ∷ 184 ∷ 0 ∷ 0 ∷ 0 ∷ 0 ∷ 0 ∷ 0 ∷ 0 ∷ 0 ∷ 0 ∷ 0 ∷ 0 ∷ 1 ∷ [])
      (254 ∷ 128 ∷ 0 ∷ 0 ∷ 0 ∷ 0 ∷ 0 ∷ 0 ∷ 0 ∷ 0 ∷ 0 ∷ 0 ∷ 0 ∷ 0 ∷ 0 ∷ 9 ∷ [])
      (255 ∷ 255 ∷ 255 ∷ 0 ∷ [])
    ≡ true
two_networks =
    same_network_mismatch _ _ _ refl refl (unfold to4 bytes_eq in refl)
      (unfold to4 bytes_eq in refl) refl
