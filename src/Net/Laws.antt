-- ===== src/Net/Laws.antt =====
-- The two lengths of an IP address, and equality across them.
use altair.Prelude.{
  ◌⊎◌, inl, inr, none, inl, inr, drop, ℕ, ◌≡◌, refl, ◌⊎◌, inl, inr, true, List, [], ◌∷◌, some,
  arith, length, length-drop, ◌++◌,
}
use altair.Bytes.Laws.{IsBytes, IsBytes-drop}
use altair.Net.{
  Read, datagram, timed_out, failed, UdpAddr, bytes_eq, to4, to16, ip_equal, v4_in_v6_prefix,
}

pub bytes_eq_refl : (xs : List ℕ) → bytes_eq xs xs ≡ true
unfolding bytes_eq
bytes_eq_refl [] = refl
bytes_eq_refl (x ∷ xs) = ground (arith, bytes_eq_refl xs)

-- What To4 returns has four bytes.
pub length-to4 : (ip v : List ℕ) → to4 ip ≡ some v → length v ≡ 4
unfolding to4
length-to4 ip v h = ground (arith, length-drop {0} 12 ip)

to4_cases : (ip v : List ℕ) → to4 ip ≡ some v → (v ≡ ip) ⊎ (v ≡ drop 12 ip)
unfolding to4
to4_cases ip v h = ground arith

pub to4-IsBytes : (ip v : List ℕ) → IsBytes ip → to4 ip ≡ some v → IsBytes v
to4-IsBytes ip v b h = elim (to4_cases ip v h) [
  | inl e ↦ rw e b
  | inr e ↦ rw e (IsBytes-drop 12 ip b)
]

pub to16_sixteen : (ip : List ℕ) → length ip ≡ 16 → to16 ip ≡ some ip
unfolding to16
to16_sixteen ip h = ground arith

-- An address of one of the two lengths that is no IPv4 address has sixteen bytes.
pub to4-none_sixteen :
    (ip : List ℕ) → to4 ip ≡ none → (length ip ≡ 4) ⊎ (length ip ≡ 16) → length ip ≡ 16
unfolding to4
to4-none_sixteen ip h k = ground arith

pub length-to16 : (ip v : List ℕ) → to16 ip ≡ some v → length v ≡ 16
unfolding to16
length-to16 ip v h = ground arith

-- An address of one of the two lengths has a sixteen-byte form.
pub to16_total :
    (ip : List ℕ) → (length ip ≡ 4) ⊎ (length ip ≡ 16) → (v : List ℕ) × (to16 ip ≡ some v)
unfolding to16
to16_total ip (inl h) = (v4_in_v6_prefix ++ ip, ground arith)
to16_total ip (inr h) = (ip, ground arith)

pub ip_equal_refl : (ip : List ℕ) → ip_equal ip ip ≡ true
unfolding ip_equal
ip_equal_refl ip = ground (arith, bytes_eq_refl ip)

pub bytes_eq-eq : (xs ys : List ℕ) → bytes_eq xs ys ≡ true → xs ≡ ys
unfolding bytes_eq
bytes_eq-eq [] [] h = refl
bytes_eq-eq [] (y ∷ ys) h = cc
bytes_eq-eq (x ∷ xs) [] h = cc
bytes_eq-eq (x ∷ xs) (y ∷ ys) h = ground (arith, bytes_eq-eq xs ys)

-- To split on a read and keep the equation.
pub Read-cases :
    (read : Read)
    → ((bytes : List ℕ) × (addr : UdpAddr) × (read ≡ datagram bytes addr))
      ⊎ ((read ≡ timed_out) ⊎ (read ≡ failed))
Read-cases (datagram bytes addr) = inl (bytes, addr, refl)
Read-cases timed_out = inr (inl refl)
Read-cases failed = inr (inr refl)
