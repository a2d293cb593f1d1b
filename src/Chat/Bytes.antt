-- ===== src/Chat/Bytes.antt =====
-- backend/cmd/chat/main.go, `formatBytes`: the unit is the largest that the count reaches.
use native.Mathlib.Nat.{mul-le-mul_right}
use native.Mathlib.Omega.{pow_step}
use altair.Prelude.{
  ℕ, zero, suc, ◌+◌, ◌*◌, ◌/◌, ◌^◌, ◌≤◌, ◌<◌, ◌≡◌, ◌∙◌, inl, inr, refl, sym, ap, false, some, arith,
  Bool-cases, ltb, leb, get_elem?, get_elem?-lt, le→ltb,
}
use altair.Outcome.{ok}
use altair.Chat.{scaled, prefixes, scale, format_bytes}

-- One more division keeps the count between two multiples of the divisor.
between_low : (b n div : ℕ) → n * div ≤ b → (n / 1024) * (div * 1024) ≤ b
between_low b n div low =
    let k : (n / 1024) * 1024 * div ≤ n * div = mul-le-mul_right div (omega arith) in
    let e : (n / 1024) * 1024 * div ≡ (n / 1024) * (div * 1024) = grind arith in
    ground (arith, k, low, e)

between_high : (b n div : ℕ) → b < (n + 1) * div → b < (n / 1024 + 1) * (div * 1024)
between_high b n div high =
    let k : (n + 1) * div ≤ (n / 1024 + 1) * 1024 * div = mul-le-mul_right div (omega arith) in
    let e : (n / 1024 + 1) * 1024 * div ≡ (n / 1024 + 1) * (div * 1024) = grind arith in
    ground (arith, k, high, e)

-- The loop stops at the unit of the count, after at most as many rounds as its digits to the base 1024.
scale_lem :
    (m fuel b n exp : ℕ)
    → m ≤ fuel
    → 1 ≤ n
    → n < 1024 ^ m
    → n * 1024 ^ (exp + 1) ≤ b
    → b < (n + 1) * 1024 ^ (exp + 1)
    → (k : ℕ) × (scale fuel n (1024 ^ (exp + 1)) exp ≡ some (1024 ^ (k + 1), k))
      × (k < exp + m)
      × (1024 ^ (k + 1) ≤ b)
      × (b < 1024 * 1024 ^ (k + 1))
unfolding scale
scale_lem zero fuel b n exp enough pos bound low high = ground (arith, pos, bound)
scale_lem (suc m) zero b n exp enough pos bound low high = ground (arith, enough)
scale_lem (suc m) (suc fuel) b n exp enough pos bound low high =
    let div = 1024 ^ (exp + 1) in
    let next : 1024 ^ (exp + 1 + 1) ≡ div * 1024 = grind (arith, pow_step 1024 (exp + 1)) in
    let power : 1024 ^ suc m ≡ 1024 * 1024 ^ m = pow_step 1024 m in
    elim (Bool-cases (leb 1024 n)) [
      | inl e ↦
          let many : 1024 ≤ n = ground (arith, e) in
          let (k, found, rounds, above, below) =
            scale_lem m fuel b (n / 1024) (exp + 1) (omega arith) (omega arith)
              (omega (arith, power)) (rw next (between_low b n div low))
              (rw next (between_high b n div high)) in
          (
            k,
            rw (e, scale) (ap (λ d. scale fuel (n / 1024) d (exp + 1)) (sym next) ∙ found),
            omega arith,
            above,
            below,
          )
      | inr e ↦
          let few : n + 1 ≤ 1024 = ground (arith, e) in
          let one : 1 * div ≤ n * div = mul-le-mul_right div pos in
          let top : (n + 1) * div ≤ 1024 * div = mul-le-mul_right div few in
          (
            exp,
            rw (e, scale) refl,
            omega arith,
            ground (arith, one, low),
            ground (arith, top, high),
          )
    ]

prefix_there : (k : ℕ) → k < 6 → (letter : ℕ) × (get_elem? prefixes k ≡ some letter)
prefix_there k h = get_elem?-lt prefixes k h

-- For a count from 1024 to below 2 ^ 63, the loop of formatBytes ends, the letter that it prints
-- is within its table, and the divisor is the power of 1024, that of the letter, which the count
-- reaches and whose next power it does not.
pub format_bytes_scaled :
    (bytes : ℕ)
    → 1024 ≤ bytes
    → bytes < 2 ^ 63
    → (k letter : ℕ) × (format_bytes bytes ≡ ok (scaled bytes (1024 ^ (k + 1)) letter))
      × (get_elem? prefixes k ≡ some letter)
      × (1024 ^ (k + 1) ≤ bytes)
      × (bytes < 1024 * 1024 ^ (k + 1))
unfolding format_bytes
format_bytes_scaled bytes big small =
    let first : ltb bytes 1024 ≡ false = le→ltb bytes 1024 big in
    let (k, found, rounds, above, below) =
      scale_lem 6 64 bytes (bytes / 1024) 0 (omega arith) (omega arith) (omega arith) (omega arith)
        (omega arith) in
    let (letter, there) = prefix_there k rounds in
    (k, letter, rw (first, found, there, format_bytes) refl, there, above, below)
