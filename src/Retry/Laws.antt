-- ===== src/Retry/Laws.antt =====
-- What the retry loop does with a run that fails, fails and then succeeds, or never succeeds.
use altair.Prelude.{
  ℕ, zero, suc, ◌+◌, ◌≤◌, ◌<◌, ◌≡◌, refl, ap, ◌∙◌, List, [], ◌∷◌, ◌++◌, Option, some, none, arith,
  ltb, lt→ltb, le→ltb, if◌then◌else◌, length, length-append,
}
use altair.Outcome.{Outcome, ok, err}
use altair.Retry.{failed_after, backoff, retry_loop, retry}

-- The waits after the first `n` attempts.
unfoldable pub waits : ℕ → List ℕ
waits zero = []
waits (suc n) = waits n ++ backoff n ∷ []

pub length-waits : (n : ℕ) → length (waits n) ≡ n
unfolding waits
length-waits zero = refl
length-waits (suc n) = omega (arith, length-append {0} (waits n) (backoff n ∷ []), length-waits n)

module _ {ℓ κ} {E : Type ℓ} {A : Type κ} (run : ℕ → Outcome E A) (max_retries : ℕ) (e : ℕ → E) where
  loop_step :
      (left attempt : ℕ) (last : Option E) (sleeps : List ℕ)
      → run attempt ≡ err (e attempt)
      → retry_loop run max_retries (suc left) attempt last sleeps
        ≡ retry_loop run max_retries left
            (attempt + 1)
            (some (e attempt))
            (if ltb attempt max_retries then sleeps ++ backoff attempt ∷ [] else sleeps)
  unfolding retry_loop
  loop_step left attempt last sleeps h = rw (h, retry_loop) refl

  loop_wait :
      (left attempt : ℕ) (last : Option E)
      → run attempt ≡ err (e attempt)
      → attempt < max_retries
      → retry_loop run max_retries (suc left) attempt last (waits attempt)
        ≡ retry_loop run max_retries left (suc attempt) (some (e attempt)) (waits (suc attempt))
  unfolding waits
  loop_wait left attempt last h lt =
      loop_step left attempt last (waits attempt) h
      ∙ rw (lt→ltb attempt max_retries lt) (
          ap (λ n. retry_loop run max_retries left n (some (e attempt)) (waits (suc attempt)))
            (let k : attempt + 1 ≡ suc attempt = omega arith in k))

  loop_first :
      (d left attempt k : ℕ) (a : A) (last : Option E)
      → attempt + d ≡ k
      → d < left
      → k ≤ max_retries
      → ((i : ℕ) → i < k → run i ≡ err (e i))
      → run k ≡ ok a
      → retry_loop run max_retries left attempt last (waits attempt)
        ≡ record { result = ok a; sleeps = waits k }
  unfolding retry_loop
  loop_first d zero attempt k a last s lt le fails works = absurd (omega arith)
  loop_first zero (suc left) attempt k a last s lt le fails works =
      let same : attempt ≡ k = omega arith in rw same (rw (works, retry_loop) refl)
  loop_first (suc d) (suc left) attempt k a last s lt le fails works =
      loop_wait left attempt last (fails attempt (omega arith)) (omega arith)
      ∙ loop_first d left (suc attempt) k a (some (e attempt)) (omega arith) (omega arith) le fails
          works

  -- If attempt k, at most maxRetries, is the first to succeed, and those before it fail with an
  -- error, the retry loop returns its result, after the waits of attempts 0 to k - 1.
  pub retry_first_success :
      (k : ℕ) (a : A)
      → k ≤ max_retries
      → ((i : ℕ) → i < k → run i ≡ err (e i))
      → run k ≡ ok a
      → retry run max_retries ≡ record { result = ok a; sleeps = waits k }
  unfolding retry waits
  retry_first_success k a le fails works =
      loop_first k (max_retries + 1) 0 k a none (omega arith) (omega arith) le fails works

  loop_all :
      (d left attempt : ℕ) (last : Option E)
      → attempt + d ≡ max_retries
      → left ≡ suc d
      → ((i : ℕ) → i ≤ max_retries → run i ≡ err (e i))
      → retry_loop run max_retries left attempt last (waits attempt) ≡ record {
        result = err (failed_after max_retries (some (e max_retries)));
        sleeps = waits max_retries;
      }
  unfolding retry_loop
  loop_all d zero attempt last s l fails = absurd (omega arith)
  loop_all zero (suc left) attempt last s l fails =
      loop_step left attempt last (waits attempt) (fails attempt (omega arith))
      ∙ rw (le→ltb attempt max_retries (omega arith)) (
          ap (λ n. retry_loop run max_retries n (attempt + 1) (some (e attempt)) (waits attempt))
            (let k : left ≡ 0 = omega arith in k)
          ∙ ap
              (λ n. record {
                result = err (failed_after max_retries (some (e n)));
                sleeps = waits n;
              })
              (let k : attempt ≡ max_retries = omega arith in k))
  loop_all (suc d) (suc left) attempt last s l fails =
      loop_wait left attempt last (fails attempt (omega arith)) (omega arith)
      ∙ loop_all d left (suc attempt) (some (e attempt)) (omega arith) (omega arith) fails

  -- If the attempts 0 to maxRetries, that is maxRetries + 1 of them, all fail with an error, the
  -- retry loop returns an error that wraps the last one and names maxRetries as the number of
  -- attempts, after the waits of attempts 0 to maxRetries - 1.
  pub retry_exhausted :
      ((i : ℕ) → i ≤ max_retries → run i ≡ err (e i))
      → retry run max_retries ≡ record {
        result = err (failed_after max_retries (some (e max_retries)));
        sleeps = waits max_retries;
      }
  unfolding retry waits
  retry_exhausted fails =
      loop_all max_retries (max_retries + 1) 0 none (omega arith) (omega arith) fails
