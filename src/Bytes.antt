-- ===== src/Bytes.antt =====
-- What the program uses of Go slices of bytes and of `encoding/binary`: slice expressions, `copy`
-- into part of a buffer, and the big-endian words. A byte is a number below 256. `none` is the
-- panic of a slice expression or an access out of range.
pub mod Laws
pub mod Xor
use altair.Prelude.{
  ℕ, zero, suc, ◌+◌, ◌-◌, ◌*◌, ◌/◌, ◌%◌, ◌^◌, ◌≡◌, refl, Bool, ◌&&◌, List, [], ◌∷◌, Option, none,
  some, leb, if◌then◌else◌, length, take, drop,
}

infixl 5 ◌>>=◌
-- A panic ends the function.
abbrev pub ◌>>=◌ {ℓ κ} : {A : Type ℓ} {B : Type κ} → Option A → (A → Option B) → Option B
none >>= f = none
some a >>= f = f a

-- xs[a:b]
unfoldable pub slice : List ℕ → ℕ → ℕ → Option (List ℕ)
slice xs a b = if leb a b && leb b (length xs) then some (take (b - a) (drop a xs)) else none

-- binary.BigEndian.Uint16 and Uint32
unfoldable pub be_u16 : List ℕ → Option ℕ
be_u16 (a ∷ b ∷ _) = some (a * 256 + b)
be_u16 _ = none

unfoldable pub be_u32 : List ℕ → Option ℕ
be_u32 (a ∷ b ∷ c ∷ d ∷ _) = some (((a * 256 + b) * 256 + c) * 256 + d)
be_u32 _ = none

-- The bytes that PutUint16 and PutUint32 store for a word in range.
unfoldable pub bytes_u16 : ℕ → List ℕ
bytes_u16 v = v / 256 % 256 ∷ v % 256 ∷ []

unfoldable pub bytes_u32 : ℕ → List ℕ
bytes_u32 v = v / 16777216 % 256 ∷ v / 65536 % 256 ∷ v / 256 % 256 ∷ v % 256 ∷ []

-- Go's conversion to `uint16`.
abbrev pub uint16 : ℕ → ℕ
uint16 n = n % 65536

-- Stores `src` over the bytes of `xs` from `i` on, as far as `xs` reaches.
unfoldable pub overwrite : List ℕ → ℕ → List ℕ → List ℕ
overwrite [] i src = []
overwrite (x ∷ xs) zero [] = x ∷ xs
overwrite (x ∷ xs) zero (s ∷ src) = s ∷ overwrite xs zero src
overwrite (x ∷ xs) (suc i) src = x ∷ overwrite xs i src

-- copy(buf[a:b], src): at most b - a bytes are stored.
unfoldable pub copy_into : List ℕ → ℕ → ℕ → List ℕ → Option (List ℕ)
copy_into buf a b src =
    if leb a b && leb b (length buf) then some (overwrite buf a (take (b - a) src)) else none

-- binary.BigEndian.PutUint16(buf[i:i+2], v) and PutUint32(buf[i:i+4], v)
unfoldable pub put_u16 : List ℕ → ℕ → ℕ → Option (List ℕ)
put_u16 buf i v = copy_into buf i (i + 2) (bytes_u16 v)

unfoldable pub put_u32 : List ℕ → ℕ → ℕ → Option (List ℕ)
put_u32 buf i v = copy_into buf i (i + 4) (bytes_u32 v)

put_u16_at_one : put_u16 (0 ∷ 0 ∷ 0 ∷ []) 1 0x0102 ≡ some (0 ∷ 1 ∷ 2 ∷ [])
unfolding put_u16 copy_into bytes_u16 overwrite
put_u16_at_one = refl
