-- ===== src/Retrying/Delays.antt =====
-- Bounds on the delays of the wait strategies of workflows/retry_policy.py.
use llama_agents.Prelude.{ℕ, ◌≡◌, ℤ, pos, ◌+ℤ◌, leb_ℤ, true, none, some, arith}
use llama_agents.Retrying.Waits.{
  WaitStrategy, wait_fixed, wait_exponential, wait_incrementing, wait_random, Cap,
  wait_exponential_jitter, wait_random_exponential, wait_chain, wait_combine, WaitStrategies,
  no_waits, and_wait, Random, capped, larger,
}

infix 50 ◌≤ℤ◌
abbrev pub ◌≤ℤ◌ : ℤ → ℤ → Type 0
a ≤ℤ b = leb_ℤ a b ≡ true

-- Whether `d` is at most the cap.
abbrev pub Below : ℤ → Cap → Type 0
Below d none = Unit
Below d (some c) = d ≤ℤ c

abbrev pub Within : Cap → ℤ → Type 0
Within cap d = (pos 0 ≤ℤ d) × Below d cap

abbrev pub raised_cap : ℤ → Cap → Cap
raised_cap low none = none
raised_cap low (some c) = some (larger low c)

abbrev pub either_cap : Cap → Cap → Cap
either_cap none b = none
either_cap (some a) none = none
either_cap (some a) (some b) = some (larger a b)

abbrev pub sum_cap : Cap → Cap → Cap
sum_cap none b = none
sum_cap (some a) none = none
sum_cap (some a) (some b) = some (a +ℤ b)

-- The longest delay that a strategy can give, `none` where there is no longest one.
unfoldable mutual
  pub longest : WaitStrategy → Cap
  longest (wait_fixed wait) = some wait
  longest (wait_exponential multiplier base max min) = raised_cap (larger (pos 0) min) max
  longest (wait_incrementing start increment max) = raised_cap (pos 0) max
  longest (wait_random min max) = some max
  longest (wait_exponential_jitter initial base max jitter) = max
  longest (wait_random_exponential multiplier base max min) = raised_cap (larger (pos 0) min) max
  longest (wait_chain strategies) = longest_of strategies
  longest (wait_combine strategies) = total strategies

  pub longest_of : WaitStrategies → Cap
  longest_of no_waits = some (pos 0)
  longest_of (and_wait w rest) = either_cap (longest w) (longest_of rest)

  pub total : WaitStrategies → Cap
  total no_waits = some (pos 0)
  total (and_wait w rest) = sum_cap (longest w) (total rest)

-- The arguments that are passed as they are given are no negative times, and a random delay's bounds
-- are in order.
unfoldable mutual
  pub IsSane : WaitStrategy → Type 0
  IsSane (wait_fixed wait) = pos 0 ≤ℤ wait
  IsSane (wait_exponential multiplier base max min) = Unit
  IsSane (wait_incrementing start increment max) = Unit
  IsSane (wait_random min max) = (pos 0 ≤ℤ min) × (min ≤ℤ max)
  IsSane (wait_exponential_jitter initial base max jitter) =
      (pos 0 ≤ℤ initial) × (pos 0 ≤ℤ jitter) × Below (pos 0) max
  IsSane (wait_random_exponential multiplier base max min) = pos 0 ≤ℤ min
  IsSane (wait_chain strategies) = AllSane strategies
  IsSane (wait_combine strategies) = AllSane strategies

  pub AllSane : WaitStrategies → Type 0
  AllSane no_waits = Unit
  AllSane (and_wait w rest) = IsSane w × AllSane rest

-- What `random` documents of `uniform(a, b)` for `a <= b`.
pub record IsUniform (random : Random) : Type 0 where
  pub seeded : (s : ℕ) (a b : ℤ) → a ≤ℤ b → (a ≤ℤ random.seeded s a b) × (random.seeded s a b ≤ℤ b)
  pub drawn : (n : ℕ) (a b : ℤ) → a ≤ℤ b → (a ≤ℤ random.drawn n a b) × (random.drawn n a b ≤ℤ b)

pub larger_left : (a b : ℤ) → a ≤ℤ larger a b
unfolding larger
larger_left a b = ground arith

pub larger_right : (a b : ℤ) → b ≤ℤ larger a b
unfolding larger
larger_right a b = ground arith

pub larger-mono : (a b c : ℤ) → b ≤ℤ c → larger a b ≤ℤ larger a c
unfolding larger
larger-mono a b c h = ground arith

pub le_trans : (a b c : ℤ) → a ≤ℤ b → b ≤ℤ c → a ≤ℤ c
le_trans a b c h k = ground arith

pub plus-mono : (a b c d : ℤ) → a ≤ℤ b → c ≤ℤ d → a +ℤ c ≤ℤ b +ℤ d
unfolding ◌+ℤ◌
plus-mono a b c d h k = ground arith

pub capped-Below : (x : ℤ) (cap : Cap) → Below (capped x cap) cap
unfolding capped
capped-Below x none = tt
capped-Below x (some c) = ground arith

pub capped_nonneg : (x : ℤ) (cap : Cap) → pos 0 ≤ℤ x → Below (pos 0) cap → pos 0 ≤ℤ capped x cap
unfolding capped
capped_nonneg x none h k = h
capped_nonneg x (some c) h k = ground arith

-- A value raised to `low` after it is capped.
pub raised-Within :
    (low x : ℤ) (cap : Cap) → pos 0 ≤ℤ low → Within (raised_cap low cap) (larger low (capped x cap))
raised-Within low x none h =
    (le_trans (pos 0) low (larger low (capped x none)) h (larger_left low _), tt)
raised-Within low x (some c) h = (
  le_trans (pos 0) low (larger low (capped x (some c))) h (larger_left low _),
  larger-mono low (capped x (some c)) c (capped-Below x (some c)),
)
