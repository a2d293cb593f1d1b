-- ===== src/Stun/Address/Xor.antt =====
-- The exclusive or of byte strings, its inverse and its key.
use altair.Prelude.{
  ℕ, zero, suc, ◌-◌, append-nil, ◌≤◌, ◌≡◌, refl, ap, ◌∙◌, bit_xor, List, [], ◌∷◌, ◌++◌, some, arith,
  length, take, take_all, replicate,
}
use altair.Bytes.{overwrite, copy_into, put_u32, bytes_u32}
use altair.Bytes.Laws.{overwrite-replicate}
use altair.Bytes.Xor.{bit_xor_twice}
use altair.Stun.Message.{magic_cookie}
use altair.Stun.Address.{xor_bytes, xor_key}

-- With enough bytes on both sides the loop does not panic, and repeating it restores the input.
pub xor_bytes_twice :
    (n : ℕ) (xs ks : List ℕ)
    → n ≤ length xs
    → n ≤ length ks
    → (r : List ℕ) × (xor_bytes n xs ks ≡ some r)
      × (length r ≡ n)
      × (xor_bytes n r ks ≡ some (take n xs))
unfolding xor_bytes
xor_bytes_twice zero xs ks h k = ([], refl, refl, refl)
xor_bytes_twice (suc n) [] ks h k = absurd (omega arith)
xor_bytes_twice (suc n) (x ∷ xs) [] h k = absurd (omega arith)
xor_bytes_twice (suc n) (x ∷ xs) (y ∷ ks) h k =
    let (r, there, size, back) = xor_bytes_twice n xs ks (omega arith) (omega arith) in
    (bit_xor x y ∷ r, rw there refl, ap suc size, rw (back, bit_xor_twice x y) refl)

-- The key is the cookie followed by the ID, and is always made.
pub xor_key_lem : (id : List ℕ) → length id ≡ 12 → xor_key id ≡ some (bytes_u32 magic_cookie ++ id)
unfolding xor_key put_u32 copy_into overwrite bytes_u32
xor_key_lem id size =
    ap (λ v. some (33 ∷ 18 ∷ 164 ∷ 66 ∷ v))
      (ap (overwrite (replicate 12 0) 0) (take_all 12 id (omega arith))
        ∙ overwrite-replicate 12 id (omega arith)
        ∙ ap (λ n. id ++ replicate n 0) (let e : 12 - length id ≡ 0 = omega arith in e)
        ∙ append-nil id)
