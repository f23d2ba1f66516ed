-- ===== src/Retrying/Within.antt =====
-- Every delay that a wait strategy of workflows/retry_policy.py gives lies within its bounds.
use llama_agents.Prelude.{
  ℕ, zero, suc, ◌*◌, ◌^◌, refl, ℤ, pos, negsuc, ◌+ℤ◌, leb, Option, none, some, arith, if_case,
  Result, ok, raise, Ensures, Ensures-bind, Ensures-chain,
}
use llama_agents.Types.{Exception}
use llama_agents.Retrying.Conditions.{Errors}
use llama_agents.Retrying.Stops.{should_stop}
use llama_agents.Retrying.Waits.{
  WaitStrategy, wait_fixed, wait_exponential, wait_incrementing, wait_random, Ratio, Cap,
  wait_exponential_jitter, wait_random_exponential, wait_chain, wait_combine, WaitStrategies,
  no_waits, and_wait, Random, Waited, chain_index, exponential, scaled, uniform, capped, larger,
  times, divided, wait_for, wait_at, sum_waits,
}
use llama_agents.Retrying.Policy.{RetryPolicy, next, wants_retry}
use llama_agents.Retrying.Delays.{
  ◌≤ℤ◌, Below, Within, raised_cap, either_cap, sum_cap, longest, longest_of, total, IsSane, AllSane,
  IsUniform, larger_left, larger_right, le_trans, plus-mono, capped-Below, capped_nonneg,
  raised-Within,
}

Below-left : (d : ℤ) (a b : Cap) → Below d a → Below d (either_cap a b)
Below-left d none b h = tt
Below-left d (some a) none h = tt
Below-left d (some a) (some b) h = le_trans d a (larger a b) h (larger_left a b)

Below-right : (d : ℤ) (a b : Cap) → Below d b → Below d (either_cap a b)
Below-right d none b h = tt
Below-right d (some a) none h = tt
Below-right d (some a) (some b) h = le_trans d b (larger a b) h (larger_right a b)

Within-sum : (d e : ℤ) (a b : Cap) → Within a d → Within b e → Within (sum_cap a b) (d +ℤ e)
unfolding ◌+ℤ◌
Within-sum d e none b h k = (plus-mono (pos 0) d (pos 0) e h.0 k.0, tt)
Within-sum d e (some a) none h k = (plus-mono (pos 0) d (pos 0) e h.0 k.0, tt)
Within-sum d e (some a) (some b) h k =
    (plus-mono (pos 0) d (pos 0) e h.0 k.0, plus-mono d a e b h.1 k.1)

scaled_nonneg :
    (m : ℤ) (base : Ratio) (k : ℕ) → pos 0 ≤ℤ m → Ensures (λ d. pos 0 ≤ℤ d) (scaled m base k)
unfolding scaled times divided
scaled_nonneg (pos m) base k h =
    if_case (Ensures (λ d. pos 0 ≤ℤ d)) (leb (2 ^ 1024 * base.denominator ^ k) (base.numerator ^ k))
      _ _ (λ e. tt) (λ e. ground arith)
scaled_nonneg (negsuc m) base k h = absurd (ground arith)

exponential-Within :
    (multiplier min : ℤ) (base : Ratio) (max : Cap) (k : ℕ)
    → Ensures
        (λ d. Within (raised_cap (larger (pos 0) min) max) d × (min ≤ℤ d))
        (exponential multiplier base max min k)
unfolding exponential
exponential-Within multiplier min base max k =
    let low = larger (pos 0) min in
    Ensures-bind (λ d. Within (raised_cap low max) d × (min ≤ℤ d)) (scaled multiplier base k) _
      λ power. (
        raised-Within low power max (larger_left (pos 0) min),
        le_trans min low _ (larger_right (pos 0) min) (larger_left low (capped power max)),
      )

Ensures-map :
    {E A : Type 0} {P Q : A → Type 0} (m : Result E A)
    → ((a : A) → P a → Q a)
    → Ensures P m
    → Ensures Q m
Ensures-map (ok a) f h = f a h
Ensures-map (raise e) f h = tt

uniform-bounds :
    (random : Random) (attempts : ℕ) (seed : Option ℕ)
    → IsUniform random
    → (a b : ℤ) (n : ℕ) → a ≤ℤ b
    → (a ≤ℤ (uniform random attempts seed a b n).0) × ((uniform random attempts seed a b n).0 ≤ℤ b)
unfolding uniform
uniform-bounds random attempts none uniformly a b n h = uniformly.drawn n a b h
uniform-bounds random attempts (some s) uniformly a b n h = uniformly.seeded s a b h

-- A drawn value below a value that lies within a cap.
drawn-Within :
    (cap : Cap) (low d upper : ℤ)
    → pos 0 ≤ℤ low
    → Within cap upper
    → (low ≤ℤ d) × (d ≤ℤ upper)
    → Within cap d
drawn-Within none low d upper h k l = (le_trans (pos 0) low d h l.0, tt)
drawn-Within (some c) low d upper h k l = (le_trans (pos 0) low d h l.0, le_trans d upper c l.1 k.1)

module _ (random : Random) (attempts : ℕ) (seed : Option ℕ) (uniformly : IsUniform random) where
  abbrev Waits : Cap → Waited → Type 0
  Waits cap = Ensures (λ r. Within cap r.0)

  jitter-Within :
      (initial jitter : ℤ) (base : Ratio) (max : Cap) (n : ℕ)
      → pos 0 ≤ℤ initial
      → pos 0 ≤ℤ jitter
      → Below (pos 0) max
      → Waits max
          (wait_for random attempts seed (wait_exponential_jitter initial base max jitter) n)
  unfolding wait_for ◌+ℤ◌
  jitter-Within initial jitter base max n h k l =
      Ensures-chain (λ p. pos 0 ≤ℤ p) (λ r. Within max r.0) (scaled initial base attempts) _
        (scaled_nonneg initial base attempts h)
        λ power positive.
          let d = (uniform random attempts seed (pos 0) jitter n).0 in
          (
            capped_nonneg (capped power max +ℤ d) max
                (plus-mono (pos 0) (capped power max) (pos 0) d (capped_nonneg power max positive l)
                  (uniform-bounds random attempts seed uniformly (pos 0) jitter n k).0)
                l,
            capped-Below (capped power max +ℤ d) max,
          )

  mutual
    unfolding wait_for wait_at sum_waits longest longest_of total IsSane AllSane

    wait_for-Within :
        (s : WaitStrategy) (n : ℕ)
        → IsSane s
        → Waits (longest s) (wait_for random attempts seed s n)
    wait_for-Within (wait_fixed wait) n h = (h, ground arith)
    wait_for-Within (wait_exponential multiplier base max min) n h =
        Ensures-chain _ (λ r. Within (raised_cap (larger (pos 0) min) max) r.0)
          (exponential multiplier base max min attempts) _
          (exponential-Within multiplier min base max attempts) (λ d bounds. bounds.0)
    wait_for-Within (wait_incrementing start increment max) n h =
        raised-Within (pos 0) (start +ℤ times increment attempts) max refl
    wait_for-Within (wait_random min max) n h =
        drawn-Within (some max) min (uniform random attempts seed min max n).0 max h.0
          (le_trans (pos 0) min max h.0 h.1, ground arith)
          (uniform-bounds random attempts seed uniformly min max n h.1)
    wait_for-Within (wait_exponential_jitter initial base max jitter) n h =
        jitter-Within initial jitter base max n h.0 h.1 h.2
    wait_for-Within (wait_random_exponential multiplier base max min) n h =
        Ensures-chain _ (λ r. Within (raised_cap (larger (pos 0) min) max) r.0)
          (exponential multiplier base max min attempts) _
          (exponential-Within multiplier min base max attempts)
          (λ upper bounds.
            drawn-Within (raised_cap (larger (pos 0) min) max) min
              (uniform random attempts seed min upper n).0 upper h bounds.0
              (uniform-bounds random attempts seed uniformly min upper n bounds.1))
    wait_for-Within (wait_chain strategies) n h =
        wait_at-Within strategies (chain_index attempts strategies) n h
    wait_for-Within (wait_combine strategies) n h = sum_waits-Within strategies n h

    wait_at-Within :
        (ws : WaitStrategies) (i n : ℕ)
        → AllSane ws
        → Waits (longest_of ws) (wait_at random attempts seed ws i n)
    wait_at-Within no_waits i n h = tt
    wait_at-Within (and_wait w rest) zero n h =
        Ensures-map (wait_for random attempts seed w n)
          (λ r bounds. (bounds.0, Below-left r.0 (longest w) (longest_of rest) bounds.1))
          (wait_for-Within w n h.0)
    wait_at-Within (and_wait w rest) (suc i) n h =
        Ensures-map (wait_at random attempts seed rest i n)
          (λ r bounds. (bounds.0, Below-right r.0 (longest w) (longest_of rest) bounds.1))
          (wait_at-Within rest i n h.1)

    sum_waits-Within :
        (ws : WaitStrategies) (n : ℕ)
        → AllSane ws
        → Waits (total ws) (sum_waits random attempts seed ws n)
    sum_waits-Within no_waits n h = (refl, refl)
    sum_waits-Within (and_wait w rest) n h =
        Ensures-chain (λ r. Within (longest w) r.0)
          (λ r. Within (sum_cap (longest w) (total rest)) r.0) (wait_for random attempts seed w n) _
          (wait_for-Within w n h.0)
          λ one bounds.
            Ensures-chain (λ r. Within (total rest) r.0)
              (λ r. Within (sum_cap (longest w) (total rest)) r.0)
              (sum_waits random attempts seed rest one.1) _ (sum_waits-Within rest one.1 h.1)
              λ others more. Within-sum one.0 others.0 (longest w) (total rest) bounds more

-- An answer of a policy is within a cap if it is a delay.
abbrev pub DelayWithin : Cap → Option ℤ → Type 0
DelayWithin cap none = Unit
DelayWithin cap (some d) = Within cap d

-- A delay that a policy with proper arguments answers is not negative and at most the longest delay
-- of its wait strategy: sums are bounded by the sum, chains by the longest of their strategies, and
-- a strategy with a maximum by that maximum, or by its minimum where that is larger.
pub next-Within :
    (errors : Errors) (random : Random) (policy : RetryPolicy) (elapsed_time : ℤ) (attempts : ℕ)
    (error : Exception) (seed : Option ℕ) (position : ℕ)
    → IsUniform random
    → IsSane policy.wait
    → Ensures
        (λ r. DelayWithin (longest policy.wait) r.0)
        (next errors random policy elapsed_time attempts error seed position)
unfolding next
next-Within errors random policy elapsed_time attempts error seed position uniformly sane =
    if_case (Ensures (λ r. DelayWithin (longest policy.wait) r.0))
      (wants_retry errors policy.retry error) _ _
      (λ wanted.
        Ensures-chain (λ r. Within (longest policy.wait) r.0)
          (λ r. DelayWithin (longest policy.wait) r.0)
          (wait_for random attempts seed policy.wait position) _
          (wait_for-Within random attempts seed uniformly policy.wait position sane)
          λ waited bounds.
            if_case (DelayWithin (longest policy.wait))
              (should_stop attempts elapsed_time waited.0 policy.stop) none (some waited.0)
              (λ stop. tt) (λ go. bounds))
      (λ unwanted. tt)
