-- ===== src/Retry.antt =====
-- The retry loop with exponential backoff that DiscoverWithRetry (backend/pkg/stun/client.go),
-- DetectWithRetry (backend/pkg/nat/detector.go) and PunchWithRetry (backend/pkg/punch/puncher.go)
-- share. Times are nanoseconds.
pub mod Backoff
pub mod Laws
pub mod Tests
use altair.Prelude.{
  ℕ, zero, suc, ◌+◌, ◌*◌, ◌%◌, ◌^◌, List, [], ◌∷◌, ◌++◌, Option, none, some, ltb, if◌then◌else◌,
}
use altair.Outcome.{Outcome, ok, err, panic, no_fuel}

abbrev pub second : ℕ
second = 1000000000

-- time.Duration(1 << uint(attempt)) * time.Second, the bit pattern of an int64.
unfoldable pub backoff_bits : ℕ → ℕ
backoff_bits attempt = 2 ^ attempt * second % 2 ^ 64

-- How long time.Sleep waits: a negative duration is no wait.
unfoldable pub backoff : ℕ → ℕ
backoff attempt =
    let bits = backoff_bits attempt in
    if ltb bits 9223372036854775808
    then (if ltb (10 * second) bits then 10 * second else bits)
    else 0

-- `failed_after n e`: the message names `n`, and `e` is the last error.
pub data RetryError {ℓ} (E : Type ℓ) : Type ℓ where
  failed_after : ℕ → Option E → RetryError E

-- The result, and the waits between the attempts.
pub record Retried {ℓ κ} (E : Type ℓ) (A : Type κ) : Type (ℓ ⊔ κ) where
  pub result : Outcome (RetryError E) A
  pub sleeps : List ℕ

module _ {ℓ κ} {E : Type ℓ} {A : Type κ} (run : ℕ → Outcome E A) (max_retries : ℕ) where
  -- `left` rounds from `attempt` on; `run i` is what attempt `i` does.
  unfoldable pub retry_loop : ℕ → ℕ → Option E → List ℕ → Retried E A
  retry_loop zero attempt last sleeps = record {
    result = err (failed_after max_retries last);
    sleeps = sleeps;
  }
  retry_loop (suc left) attempt last sleeps = elim (run attempt) [
    | ok a ↦ record { result = ok a; sleeps = sleeps }
    | err e ↦
        retry_loop left (attempt + 1) (some e)
          (if ltb attempt max_retries then sleeps ++ backoff attempt ∷ [] else sleeps)
    | panic ↦ record { result = panic; sleeps = sleeps }
    | no_fuel ↦ record { result = no_fuel; sleeps = sleeps }
  ]

  unfoldable pub retry : Retried E A
  unfolding retry_loop
  retry = retry_loop (max_retries + 1) 0 none []
