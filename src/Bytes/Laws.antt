-- ===== src/Bytes/Laws.antt =====
-- Reading and writing behind a prefix, and words read back from their bytes.
use altair.Prelude.{
  All, ℕ, zero, suc, ◌+◌, ◌-◌, ◌≤◌, ◌<◌, ◌≡◌, refl, ap, ap₂, ◌∙◌, List, [], ◌∷◌, ◌++◌, some, arith,
  length, take, drop, replicate, length-append,
}
use altair.Bytes.{slice, be_u16, be_u32, bytes_u16, bytes_u32, overwrite, copy_into}

-- Every element is a byte.
abbrev pub IsBytes : List ℕ → Type 0
IsBytes = All (λ b. b < 256)

pub IsBytes-drop : (n : ℕ) (xs : List ℕ) → IsBytes xs → IsBytes (drop n xs)
IsBytes-drop zero xs h = h
IsBytes-drop (suc n) [] h = tt
IsBytes-drop (suc n) (x ∷ xs) h = IsBytes-drop n xs h.1

pub IsBytes-take : (n : ℕ) (xs : List ℕ) → IsBytes xs → IsBytes (take n xs)
IsBytes-take zero xs h = tt
IsBytes-take (suc n) [] h = tt
IsBytes-take (suc n) (x ∷ xs) h = (h.0, IsBytes-take n xs h.1)

-- A slice within bounds is that part of the list.
pub slice_in :
    (xs : List ℕ) (a b : ℕ) → a ≤ b → b ≤ length xs → slice xs a b ≡ some (take (b - a) (drop a xs))
unfolding slice
slice_in xs a b h k = ground arith

drop_past : (pre xs : List ℕ) (a : ℕ) → drop (length pre + a) (pre ++ xs) ≡ drop a xs
drop_past [] xs a = ap (λ n. drop n xs) (omega arith)
drop_past (p ∷ pre) xs a = ap (λ n. drop n (p ∷ (pre ++ xs))) shift ∙ drop_past pre xs a
  where
    shift : length (p ∷ pre) + a ≡ suc (length pre + a)
    shift = omega arith

-- Behind a prefix, a slice is that of the rest.
pub slice-append :
    (pre xs : List ℕ) (a b i j : ℕ)
    → i ≡ length pre + a
    → j ≡ length pre + b
    → a ≤ b
    → b ≤ length xs
    → slice (pre ++ xs) i j ≡ some (take (b - a) (drop a xs))
slice-append pre xs a b i j hi hj h k =
    let len = length-append pre xs in
    slice_in (pre ++ xs) i j (omega arith) (omega arith)
    ∙ ap some (
        ap₂ (λ x y. take x (drop y (pre ++ xs))) (omega arith) hi
        ∙ ap (take (b - a)) (drop_past pre xs a))

pub overwrite-append :
    (pre xs src : List ℕ) (k : ℕ)
    → overwrite (pre ++ xs) (length pre + k) src ≡ pre ++ overwrite xs k src
unfolding overwrite
overwrite-append [] xs src k = ap (λ i. overwrite xs i src) (omega arith)
overwrite-append (p ∷ pre) xs src k =
    ap (λ i. overwrite (p ∷ (pre ++ xs)) i src) shift ∙ ap (◌∷◌ p) (overwrite-append pre xs src k)
  where
    shift : length (p ∷ pre) + k ≡ suc (length pre + k)
    shift = omega arith

pub overwrite-zero_nil : (xs : List ℕ) → overwrite xs 0 [] ≡ xs
unfolding overwrite
overwrite-zero_nil [] = refl
overwrite-zero_nil (x ∷ xs) = refl

pub overwrite-replicate :
    (m : ℕ) (src : List ℕ)
    → length src ≤ m
    → overwrite (replicate m 0) 0 src ≡ src ++ replicate (m - length src) 0
unfolding overwrite
overwrite-replicate m [] h =
    overwrite-zero_nil (replicate m 0) ∙ ap (λ n. replicate n 0) (omega arith)
overwrite-replicate zero (s ∷ src) h = absurd (omega arith)
overwrite-replicate (suc m) (s ∷ src) h =
    ap (◌∷◌ s)
      (overwrite-replicate m src (omega arith) ∙ ap (λ n. src ++ replicate n 0) (omega arith))

pub copy_into_in :
    (buf src : List ℕ) (a b : ℕ)
    → a ≤ b
    → b ≤ length buf
    → copy_into buf a b src ≡ some (overwrite buf a (take (b - a) src))
unfolding copy_into
copy_into_in buf src a b h k = ground arith

pub copy_into-append :
    (pre xs src : List ℕ) (a b i j : ℕ)
    → i ≡ length pre + a
    → j ≡ length pre + b
    → a ≤ b
    → b ≤ length xs
    → copy_into (pre ++ xs) i j src ≡ some (pre ++ overwrite xs a (take (b - a) src))
copy_into-append pre xs src a b i j hi hj h k =
    let len = length-append pre xs in
    copy_into_in (pre ++ xs) src i j (omega arith) (omega arith)
    ∙ ap some (
        ap₂ (λ x y. overwrite (pre ++ xs) x (take y src)) hi (omega arith)
        ∙ overwrite-append pre xs (take (b - a) src) a)

pub be_u16-bytes_u16 : (v : ℕ) (rest : List ℕ) → v < 65536 → be_u16 (bytes_u16 v ++ rest) ≡ some v
unfolding be_u16 bytes_u16
be_u16-bytes_u16 v rest h = ap some (omega arith)

pub be_u32-bytes_u32 :
    (v : ℕ) (rest : List ℕ) → v < 4294967296 → be_u32 (bytes_u32 v ++ rest) ≡ some v
unfolding be_u32 bytes_u32
be_u32-bytes_u32 v rest h = ap some (omega arith)
