-- ===== src/Retry/Backoff.antt =====
-- The waits: doubling up to ten seconds, and what is left of them when the int64 overflows.
use native.Mathlib.Nat.{pow-suc}
use altair.Prelude.{ℕ, zero, suc, ◌+◌, ◌-◌, ◌*◌, ◌^◌, ◌≤◌, ◌≡◌, refl, ap, ◌∙◌, arith, min}
use altair.Retry.{second, backoff_bits, backoff}

-- 2 ^ n is at most 2 ^ (n + k).
shift_grows : (k n : ℕ) → 2 ^ n ≤ 2 ^ (k + n)
shift_grows zero n =
    let e : 2 ^ (zero + n) ≡ 2 ^ n = ap (λ k. 2 ^ k) (let s : zero + n ≡ n = omega arith in s) in
    omega (arith, e)
shift_grows (suc k) n =
    let e : 2 ^ (suc k + n) ≡ 2 ^ (k + n) * 2 =
      ap (λ m. 2 ^ m) (let s : suc k + n ≡ suc (k + n) = omega arith in s) ∙ pow-suc 2 (k + n) in
    omega (arith, e, shift_grows k n)

no_overflow : (attempt : ℕ) → attempt ≤ 33 → 2 ^ attempt ≤ 8589934592
no_overflow attempt h =
    let e : 2 ^ (33 - attempt + attempt) ≡ 8589934592 =
      ap (λ n. 2 ^ n) (let s : 33 - attempt + attempt ≡ 33 = omega arith in s) in
    omega (arith, shift_grows (33 - attempt) attempt, e)

-- Up to attempt 33, the wait after an attempt is 2 ^ attempt seconds, and ten seconds at most: the
-- shift does not overflow the int64.
pub backoff_doubles :
    (attempt : ℕ) → attempt ≤ 33 → backoff attempt ≡ min (2 ^ attempt * second) (10 * second)
unfolding backoff backoff_bits
backoff_doubles attempt h = ground (arith, no_overflow attempt h)

-- No wait of the retry loop is longer than ten seconds, whatever the overflow leaves.
pub backoff-le : (attempt : ℕ) → backoff attempt ≤ 10 * second
unfolding backoff
backoff-le attempt = ground arith

shifted_out : (k : ℕ) → (q : ℕ) × (2 ^ (k + 55) * second ≡ q * 2 ^ 64)
shifted_out zero = (1953125, refl)
shifted_out (suc k) = let (q, e) = shifted_out k in (2 * q, rw doubled (omega (arith, e)))
  where
    doubled : 2 ^ (suc k + 55) ≡ 2 ^ (k + 55) * 2
    doubled =
        ap (λ n. 2 ^ n) (let e : suc k + 55 ≡ suc (k + 55) = omega arith in e) ∙ pow-suc 2 (k + 55)

-- From attempt 55 on, the int64 of the duration has overflowed to zero, and the loop does not
-- wait.
pub backoff_vanishes : (attempt : ℕ) → 55 ≤ attempt → backoff attempt ≡ 0
unfolding backoff
backoff_vanishes attempt h = rw no_bits refl
  where
    no_bits : backoff_bits attempt ≡ 0
    no_bits =
        let (q, e) = shifted_out (attempt - 55) in
        ap backoff_bits (let k : attempt ≡ attempt - 55 + 55 = omega arith in k)
        ∙ unfold backoff_bits in rw e (omega arith)
