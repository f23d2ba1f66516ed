-- ===== src/Retrying/Conditions.antt =====
-- The retry conditions of workflows/retry_policy.py: whether an exception is worth a retry.
use llama_agents.Prelude.{
  ℕ, String, Bool, true, false, not, ◌&&◌, ◌||◌, Option, none, some, List, [], ◌∷◌, any, str_eq,
  Result, ok, raise,
}
use llama_agents.Types.{Exception}

-- What is read of exceptions: `isinstance`, `str(error)`, the exceptions that the links `__cause__`
-- lead to, in order, and whether a compiled pattern is found in a text.
pub record Errors : Type 0 where
  pub is_instance : Exception → ℕ → Bool
  pub text : Exception → String
  pub causes : Exception → List Exception
  pub found : (pattern : ℕ) → String → Bool

-- `message` or `match`, of which a condition holds exactly one.
pub data Wanted : Type 0 where
  message : String → Wanted
  pattern : ℕ → Wanted

pub data TypeError : Type 0 where
  missing_argument both_arguments : TypeError

-- The checks of `retry_if_exception_message.__init__`.
unfoldable pub wanted_of : Option String → Option ℕ → Result TypeError Wanted
wanted_of none none = raise missing_argument
wanted_of (some m) none = ok (message m)
wanted_of none (some p) = ok (pattern p)
wanted_of (some m) (some p) = raise both_arguments

mutual
  pub data RetryCondition : Type 0 where
    retry_if_exception : (predicate : Exception → Bool) → RetryCondition
    retry_if_exception_type : (exception_types : List ℕ) → RetryCondition
    retry_if_not_exception_type : (exception_types : List ℕ) → RetryCondition
    retry_if_exception_message : Wanted → RetryCondition
    retry_if_not_exception_message : Wanted → RetryCondition
    retry_if_exception_cause_type : (exception_types : List ℕ) → RetryCondition
    retry_any : RetryConditions → RetryCondition
    retry_all : RetryConditions → RetryCondition
    retry_always : RetryCondition
    retry_never : RetryCondition

  -- The arguments `*retries`.
  pub data RetryConditions : Type 0 where
    no_retries : RetryConditions
    and_retry : RetryCondition → RetryConditions → RetryConditions

-- The operators `|` and `&`.
unfoldable pub or_condition : RetryCondition → RetryCondition → RetryCondition
or_condition a b = retry_any (and_retry a (and_retry b no_retries))

unfoldable pub and_condition : RetryCondition → RetryCondition → RetryCondition
and_condition a b = retry_all (and_retry a (and_retry b no_retries))

module _ (errors : Errors) where
  -- `isinstance(error, exception_types)`
  unfoldable pub is_any_of : List ℕ → Exception → Bool
  is_any_of types error = any (errors.is_instance error) types

  -- The loop over the causes, which ends where there is no further one.
  unfoldable pub any_cause : List ℕ → List Exception → Bool
  unfolding is_any_of
  any_cause types [] = false
  any_cause types (cause ∷ rest) = is_any_of types cause || any_cause types rest

  unfoldable pub has_message : Wanted → Exception → Bool
  has_message (message m) error = str_eq (errors.text error) m
  has_message (pattern p) error = errors.found p (errors.text error)

  -- `condition(error)`
  unfoldable mutual
    unfolding is_any_of any_cause has_message

    pub should_retry : RetryCondition → Exception → Bool
    should_retry (retry_if_exception predicate) error = predicate error
    should_retry (retry_if_exception_type types) error = is_any_of types error
    should_retry (retry_if_not_exception_type types) error = not (is_any_of types error)
    should_retry (retry_if_exception_message wanted) error = has_message wanted error
    should_retry (retry_if_not_exception_message wanted) error = not (has_message wanted error)
    should_retry (retry_if_exception_cause_type types) error = any_cause types (errors.causes error)
    should_retry (retry_any retries) error = any_retry retries error
    should_retry (retry_all retries) error = all_retry retries error
    should_retry retry_always error = true
    should_retry retry_never error = false

    pub any_retry : RetryConditions → Exception → Bool
    any_retry no_retries error = false
    any_retry (and_retry c rest) error = should_retry c error || any_retry rest error

    pub all_retry : RetryConditions → Exception → Bool
    all_retry no_retries error = true
    all_retry (and_retry c rest) error = should_retry c error && all_retry rest error
