-- ===== src/Retrying/Waits.antt =====
-- The wait strategies of workflows/retry_policy.py: how long to wait before the next attempt.
use llama_agents.Prelude.{
  ℕ, zero, suc, ◌-◌, ◌*◌, ◌/◌, ◌^◌, leb, ℤ, pos, negsuc, ◌+ℤ◌, ◌-ℤ◌, ltb_ℤ, Option, none, some,
  if◌then◌else◌, Result, ok, raise, ◌>>=◌,
}

-- A non-negative `float` as a ratio, and a product with it rounded to the unit.
pub record Ratio : Type 0 where
  pub numerator : ℕ
  pub denominator : ℕ

-- A maximum, `none` for `float("inf")`.
abbrev pub Cap : Type 0
Cap = Option ℤ

mutual
  pub data WaitStrategy : Type 0 where
    wait_fixed : (wait : ℤ) → WaitStrategy
    wait_exponential : (multiplier : ℤ) (exp_base : Ratio) (max : Cap) (min : ℤ) → WaitStrategy
    wait_incrementing : (start increment : ℤ) (max : Cap) → WaitStrategy
    wait_random : (min max : ℤ) → WaitStrategy
    wait_exponential_jitter :
        (initial : ℤ) (exp_base : Ratio) (max : Cap) (jitter : ℤ) → WaitStrategy
    wait_random_exponential :
        (multiplier : ℤ) (exp_base : Ratio) (max : Cap) (min : ℤ) → WaitStrategy
    wait_chain : WaitStrategies → WaitStrategy
    wait_combine : WaitStrategies → WaitStrategy

  -- The arguments `*strategies`.
  pub data WaitStrategies : Type 0 where
    no_waits : WaitStrategies
    and_wait : WaitStrategy → WaitStrategies → WaitStrategies

abbrev pub wait_none : WaitStrategy
wait_none = wait_fixed (pos 0)

-- The operator `+`.
unfoldable pub add_wait : WaitStrategy → WaitStrategy → WaitStrategy
add_wait a b = wait_combine (and_wait a (and_wait b no_waits))

-- The check of `wait_chain.__init__`, which raises `ValueError` where it gives nothing.
unfoldable pub chain_of : WaitStrategies → Option WaitStrategy
chain_of no_waits = none
chain_of (and_wait w rest) = some (wait_chain (and_wait w rest))

-- `random.Random(seed).uniform(a, b)`, and the draws of the shared generator, one after another.
pub record Random : Type 0 where
  pub seeded : (seed : ℕ) → ℤ → ℤ → ℤ
  pub drawn : (position : ℕ) → ℤ → ℤ → ℤ

-- Raised by `exp_base**attempts` where the power is not below 2 ** 1024, and by an index.
pub data WaitError : Type 0 where
  overflow_error index_error : WaitError

-- `min(x, max)`
unfoldable pub capped : ℤ → Cap → ℤ
capped x none = x
capped x (some max) = if ltb_ℤ max x then max else x

-- `max(a, b)`
unfoldable pub larger : ℤ → ℤ → ℤ
larger a b = if ltb_ℤ a b then b else a

unfoldable pub times : ℤ → ℕ → ℤ
times (pos m) n = pos (m * n)
times (negsuc m) n = pos 0 -ℤ pos (suc m * n)

unfoldable pub divided : ℤ → ℕ → ℤ
divided (pos m) n = pos (m / n)
divided (negsuc m) n = pos 0 -ℤ pos (suc m / n)

-- `multiplier * exp_base**attempts`
unfoldable pub scaled : ℤ → Ratio → ℕ → Result WaitError ℤ
unfolding times divided
scaled multiplier base attempts =
    if leb (2 ^ 1024 * base.denominator ^ attempts) (base.numerator ^ attempts)
    then raise overflow_error
    else ok (divided (times multiplier (base.numerator ^ attempts)) (base.denominator ^ attempts))

-- `max(max(0.0, min), min(multiplier * exp_base**attempts, max))`
unfoldable pub exponential : ℤ → Ratio → Cap → ℤ → ℕ → Result WaitError ℤ
unfolding scaled capped larger
exponential multiplier base max min attempts = do
  power ← scaled multiplier base attempts
  ok (larger (larger (pos 0) min) (capped power max))

-- `len(strategies)` and `min(attempts, len(strategies) - 1)`
unfoldable pub count_waits : WaitStrategies → ℕ
count_waits no_waits = 0
count_waits (and_wait w rest) = suc (count_waits rest)

unfoldable pub chain_index : ℕ → WaitStrategies → ℕ
unfolding count_waits
chain_index attempts strategies =
    let last = count_waits strategies - 1 in if leb attempts last then attempts else last

-- The delay, and the draws made of the shared generator, counted from those before.
abbrev pub Waited : Type 0
Waited = Result WaitError (ℤ × ℕ)

module _ (random : Random) (attempts : ℕ) (seed : Option ℕ) where
  -- `rng.uniform(a, b)`, the first draw of a seeded generator
  unfoldable pub uniform : ℤ → ℤ → ℕ → ℤ × ℕ
  uniform a b position = elim seed [
    | none ↦ (random.drawn position a b, suc position)
    | some s ↦ (random.seeded s a b, position)
  ]

  -- `strategy(attempts, seed=seed)`
  unfoldable mutual
    unfolding uniform exponential scaled capped larger chain_index

    pub wait_for : WaitStrategy → ℕ → Waited
    wait_for (wait_fixed wait) n = ok (wait, n)
    wait_for (wait_exponential multiplier base max min) n = do
      delay ← exponential multiplier base max min attempts
      ok (delay, n)
    wait_for (wait_incrementing start increment max) n =
        ok (larger (pos 0) (capped (start +ℤ times increment attempts) max), n)
    wait_for (wait_random min max) n = ok (uniform min max n)
    wait_for (wait_exponential_jitter initial base max jitter) n = do
      power ← scaled initial base attempts
      let drawn = uniform (pos 0) jitter n
      ok (capped (capped power max +ℤ drawn.0) max, drawn.1)
    wait_for (wait_random_exponential multiplier base max min) n = do
      upper ← exponential multiplier base max min attempts
      ok (uniform min upper n)
    wait_for (wait_chain strategies) n = wait_at strategies (chain_index attempts strategies) n
    wait_for (wait_combine strategies) n = sum_waits strategies n

    -- `strategies[i](attempts, seed=seed)`
    pub wait_at : WaitStrategies → ℕ → ℕ → Waited
    wait_at no_waits i n = raise index_error
    wait_at (and_wait w rest) zero n = wait_for w n
    wait_at (and_wait w rest) (suc i) n = wait_at rest i n

    -- `sum(strategy(attempts, seed=seed) for strategy in strategies)`
    pub sum_waits : WaitStrategies → ℕ → Waited
    sum_waits no_waits n = ok (pos 0, n)
    sum_waits (and_wait w rest) n = do
      one ← wait_for w n
      others ← sum_waits rest one.1
      ok (one.0 +ℤ others.0, others.1)
