-- ===== src/Retrying/Seeds.antt =====
-- Jitter with a seed (`seed` of `RetryPolicy.next` of workflows/retry_policy.py), which a replay of a
-- run passes again.
use llama_agents.Prelude.{
  ℕ, zero, suc, ◌≡◌, refl, ℤ, Option, none, some, if◌then◌else◌, Bool, true, false, Result, ok,
  raise, ◌>>=◌,
}
use llama_agents.Types.{Exception}
use llama_agents.Retrying.Conditions.{Errors}
use llama_agents.Retrying.Waits.{
  WaitStrategy, wait_fixed, wait_exponential, wait_incrementing, wait_random,
  wait_exponential_jitter, wait_random_exponential, wait_chain, wait_combine, WaitStrategies,
  no_waits, and_wait, Random, WaitError, chain_index, exponential, scaled, uniform, wait_for,
  wait_at, sum_waits,
}
use llama_agents.Retrying.Policy.{RetryPolicy, next, wants_retry}

-- An answer without the count of draws.
abbrev pub answer_of : {A : Type 0} → Result WaitError (A × ℕ) → Result WaitError A
answer_of (ok (a, n)) = ok a
answer_of (raise e) = raise e

injective : {A : Type 0} → (a b : A) → Path (Result WaitError A) (ok a) (ok b) → a ≡ b
injective a b e = cc

module _ {A B : Type 0} where
  answers-bind :
      (m m' : Result WaitError (A × ℕ)) (f f' : A × ℕ → Result WaitError (B × ℕ))
      → answer_of m ≡ answer_of m'
      → ((a : A) (i j : ℕ) → answer_of (f (a, i)) ≡ answer_of (f' (a, j)))
      → answer_of (m >>= f) ≡ answer_of (m' >>= f')
  answers-bind (ok (a, i)) (ok (b, j)) f f' e h = rw (injective a b e) (h b i j)
  answers-bind (ok (a, i)) (raise x) f f' e h = cc
  answers-bind (raise x) (ok (b, j)) f f' e h = cc
  answers-bind (raise x) (raise y) f f' e h = cc

  answers-step :
      (m : Result WaitError A) (f f' : A → Result WaitError (B × ℕ))
      → ((a : A) → answer_of (f a) ≡ answer_of (f' a))
      → answer_of (m >>= f) ≡ answer_of (m >>= f')
  answers-step (ok a) f f' h = h a
  answers-step (raise x) f f' h = refl

module _ (seeded : ℕ → ℤ → ℤ → ℤ) (drawn drawn' : ℕ → ℤ → ℤ → ℤ) (attempts s : ℕ) where
  abbrev one : Random
  one = record { seeded = seeded; drawn = drawn }

  abbrev other : Random
  other = record { seeded = seeded; drawn = drawn' }

  mutual
    unfolding wait_for wait_at sum_waits uniform

    wait_for-seeded :
        (w : WaitStrategy) (m n : ℕ)
        → answer_of (wait_for one attempts (some s) w m)
          ≡ answer_of (wait_for other attempts (some s) w n)
    wait_for-seeded (wait_fixed wait) m n = refl
    wait_for-seeded (wait_exponential multiplier base max min) m n =
        answers-step (exponential multiplier base max min attempts) _ _ (λ d. refl)
    wait_for-seeded (wait_incrementing start increment max) m n = refl
    wait_for-seeded (wait_random min max) m n = refl
    wait_for-seeded (wait_exponential_jitter initial base max jitter) m n =
        answers-step (scaled initial base attempts) _ _ (λ d. refl)
    wait_for-seeded (wait_random_exponential multiplier base max min) m n =
        answers-step (exponential multiplier base max min attempts) _ _ (λ d. refl)
    wait_for-seeded (wait_chain strategies) m n =
        wait_at-seeded strategies (chain_index attempts strategies) m n
    wait_for-seeded (wait_combine strategies) m n = sum_waits-seeded strategies m n

    wait_at-seeded :
        (ws : WaitStrategies) (i m n : ℕ)
        → answer_of (wait_at one attempts (some s) ws i m)
          ≡ answer_of (wait_at other attempts (some s) ws i n)
    wait_at-seeded no_waits i m n = refl
    wait_at-seeded (and_wait w rest) zero m n = wait_for-seeded w m n
    wait_at-seeded (and_wait w rest) (suc i) m n = wait_at-seeded rest i m n

    sum_waits-seeded :
        (ws : WaitStrategies) (m n : ℕ)
        → answer_of (sum_waits one attempts (some s) ws m)
          ≡ answer_of (sum_waits other attempts (some s) ws n)
    sum_waits-seeded no_waits m n = refl
    sum_waits-seeded (and_wait w rest) m n =
        answers-bind (wait_for one attempts (some s) w m) (wait_for other attempts (some s) w n) _ _
          (wait_for-seeded w m n)
          (λ d i j.
            answers-bind (sum_waits one attempts (some s) rest i)
              (sum_waits other attempts (some s) rest j) _ _ (sum_waits-seeded rest i j)
              (λ others k l. refl))

ands-same :
    (b : Bool) (x y : Result WaitError (Option ℤ × ℕ)) (m n : ℕ)
    → answer_of x ≡ answer_of y
    → answer_of (if b then x else ok (none, m)) ≡ answer_of (if b then y else ok (none, n))
ands-same true x y m n e = e
ands-same false x y m n e = refl

-- With a seed, what a policy answers depends on nothing but its arguments: the draws made before of
-- the shared generator, and what that generator gives, do not matter.
pub next-seeded :
    (errors : Errors) (seeded : ℕ → ℤ → ℤ → ℤ) (drawn drawn' : ℕ → ℤ → ℤ → ℤ) (policy : RetryPolicy)
    (elapsed_time : ℤ) (attempts : ℕ) (error : Exception) (seed m n : ℕ)
    → answer_of (
        next errors
          (record { seeded = seeded; drawn = drawn })
          policy
          elapsed_time
          attempts
          error
          (some seed)
          m)
      ≡ answer_of (
          next errors
            (record { seeded = seeded; drawn = drawn' })
            policy
            elapsed_time
            attempts
            error
            (some seed)
            n)
unfolding next wants_retry
next-seeded errors seeded drawn drawn' policy elapsed_time attempts error seed m n =
    ands-same (wants_retry errors policy.retry error) _ _ m n (
      answers-bind
        (wait_for (record { seeded = seeded; drawn = drawn }) attempts (some seed) policy.wait m)
        (wait_for (record { seeded = seeded; drawn = drawn' }) attempts (some seed) policy.wait n) _
        _ (wait_for-seeded seeded drawn drawn' attempts seed policy.wait m n) (λ d i j. refl))
