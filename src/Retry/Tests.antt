-- ===== src/Retry/Tests.antt =====
-- The theorems on the retry loop at concrete inputs.
use altair.Prelude.{ℕ, zero, suc, ◌≡◌, ◌≤◌, ◌<◌, refl, some, arith}
use altair.Outcome.{Outcome, ok, err}
use altair.Retry.{failed_after, retry}
use altair.Retry.Laws.{waits, retry_exhausted}

-- Two failures, then 7.
abbrev third_time : ℕ → Outcome ℕ ℕ
third_time zero = err 0
third_time (suc zero) = err 1
third_time (suc (suc n)) = ok 7

third_time_fails : (i : ℕ) → i < 2 → third_time i ≡ err i
third_time_fails zero h = refl
third_time_fails (suc zero) h = refl
third_time_fails (suc (suc n)) h = absurd (omega arith)

abbrev never : ℕ → Outcome ℕ ℕ
never i = err i

never_fails : (i : ℕ) → i ≤ 3 → never i ≡ err i
never_fails i h = refl

three_failures : retry never 3 ≡ record { result = err (failed_after 3 (some 3)); sleeps = waits 3 }
three_failures = retry_exhausted never 3 (λ i. i) never_fails
