-- ===== src/Bytes/Xor.antt =====
-- `^` on words: it is its own inverse, and stays within the width.
use Prim.Native.Nat.{digits, differ, bit_xor-bitwise}
use native.Mathlib.Nat.{pow-suc}
use altair.Prelude.{
  ℕ, zero, suc, ◌+◌, ◌-◌, ◌*◌, ◌/◌, ◌%◌, ◌^◌, ◌≤◌, ◌<◌, bit_xor, ◌≡◌, refl, ap, ap₂, ◌∙◌, arith,
}

-- The digits of an exclusive or, with `fuel` rounds at most.
abbrev rounds : ℕ → ℕ → ℕ → ℕ
rounds fuel a b = digits (λ y. y) differ fuel a b

-- One round more than enough changes nothing,
spare_round : (fuel a b : ℕ) → a ≤ fuel → rounds (suc fuel) a b ≡ rounds fuel a b
spare_round zero zero b h = refl
spare_round (suc n) zero b h = refl
spare_round zero (suc a) b h = absurd (omega arith)
spare_round (suc n) (suc a) b h = rw (spare_round n (suc a / 2) (b / 2) (omega arith)) refl

-- nor do `spare` rounds.
spare_rounds : (spare fuel a b : ℕ) → a ≤ fuel → rounds (spare + fuel) a b ≡ rounds fuel a b
spare_rounds zero fuel a b h =
    ap (λ k. rounds k a b) (let e : zero + fuel ≡ fuel = omega arith in e)
spare_rounds (suc spare) fuel a b h =
    ap (λ k. rounds k a b) (let e : suc spare + fuel ≡ suc (spare + fuel) = omega arith in e)
    ∙ spare_round (spare + fuel) a b (omega arith)
    ∙ spare_rounds spare fuel a b h

half_is_enough : (a b : ℕ) → rounds a (suc a / 2) (b / 2) ≡ rounds (suc a / 2) (suc a / 2) (b / 2)
half_is_enough a b =
    ap (λ k. rounds k (suc a / 2) (b / 2))
      (let e : a ≡ a - suc a / 2 + suc a / 2 = omega arith in e)
    ∙ spare_rounds (a - suc a / 2) (suc a / 2) (suc a / 2) (b / 2) (omega arith)

zero-bit_xor : (b : ℕ) → bit_xor 0 b ≡ b
zero-bit_xor b = bit_xor-bitwise 0 b

-- Of two digits the exclusive or is their sum modulo 2.
differ_digits : (a b : ℕ) → a < 2 → b < 2 → differ a b ≡ (a + b) % 2
differ_digits zero b h k = omega arith
differ_digits (suc zero) zero h k = refl
differ_digits (suc zero) (suc zero) h k = refl
differ_digits (suc zero) (suc (suc b)) h k = absurd (omega arith)
differ_digits (suc (suc a)) b h k = absurd (omega arith)

pub bit_xor_step : (a b : ℕ) → bit_xor a b ≡ bit_xor (a / 2) (b / 2) * 2 + (a % 2 + b % 2) % 2
bit_xor_step zero b = omega (arith, zero-bit_xor b, zero-bit_xor (b / 2))
bit_xor_step (suc a) b = omega (
  arith,
  bit_xor-bitwise (suc a) b,
  bit_xor-bitwise (suc a / 2) (b / 2),
  half_is_enough a b,
  differ_digits (suc a % 2) (b % 2) (omega arith) (omega arith),
)

bit_xor_twice_fuel : (n a k : ℕ) → a ≤ n → k ≤ n → bit_xor (bit_xor a k) k ≡ a
bit_xor_twice_fuel zero zero zero h g = refl
bit_xor_twice_fuel zero zero (suc k) h g = absurd (omega arith)
bit_xor_twice_fuel zero (suc a) k h g = absurd (omega arith)
bit_xor_twice_fuel (suc n) a k h g =
    bit_xor_step (bit_xor a k) k
    ∙ ap₂ (λ (x y : ℕ). x * 2 + y)
        (ap (λ x. bit_xor x (k / 2)) half
          ∙ bit_xor_twice_fuel n (a / 2) (k / 2) (omega arith) (omega arith))
        low
    ∙ omega arith
  where
    step : bit_xor a k ≡ bit_xor (a / 2) (k / 2) * 2 + (a % 2 + k % 2) % 2
    step = bit_xor_step a k

    half : bit_xor a k / 2 ≡ bit_xor (a / 2) (k / 2)
    half = omega (arith, step)

    low : (bit_xor a k % 2 + k % 2) % 2 ≡ a % 2
    low = omega (arith, step)

-- A key applied twice cancels out.
pub bit_xor_twice : (a k : ℕ) → bit_xor (bit_xor a k) k ≡ a
bit_xor_twice a k = bit_xor_twice_fuel (a + k) a k (omega arith) (omega arith)

-- Two words of `w` bits have an exclusive or of `w` bits.
pub bit_xor-lt : (w a b : ℕ) → a < 2 ^ w → b < 2 ^ w → bit_xor a b < 2 ^ w
bit_xor-lt zero zero zero h k = omega arith
bit_xor-lt zero zero (suc b) h k = absurd (omega arith)
bit_xor-lt zero (suc a) b h k = absurd (omega arith)
bit_xor-lt (suc w) a b h k = omega (
  arith,
  pow-suc 2 w,
  bit_xor_step a b,
  bit_xor-lt w (a / 2) (b / 2) (omega (arith, pow-suc 2 w)) (omega (arith, pow-suc 2 w)),
)
