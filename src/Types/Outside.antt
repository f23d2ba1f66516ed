-- ===== src/Types/Outside.antt =====
-- What the control loop takes from the program that uses it and from `hashlib`: the classes' bases
-- and names, attribute comparison, the retry policies, and SHA-256.
use llama_agents.Prelude.{ℕ, ℤ, String, Bool, Option, List}
use llama_agents.Types.Classes.{Class}
use llama_agents.Types.EventTypes.{Event, Exception, Fault}

pub record World : Type 0 where
  -- the bases of a class of the program, in the order of resolution
  pub user_bases : ℕ → List Class
  -- `cls.__name__`, `cls.__module__` and `str(cls)`
  pub class_name : Class → String
  pub class_module : Class → String
  pub class_text : Class → String
  -- `getattr(event, k, None) == v`
  pub attribute_equals : Event → String → ℕ → Bool
  -- whether `next` of a policy takes a `seed`, and `policy.next(elapsed, failures, exc, seed=...)`,
  -- where the outer option says whether `seed` is passed
  pub accepts_seed : ℕ → Bool
  pub next_delay : ℕ → ℤ → ℕ → Exception → Option (Option ℕ) → Option ℤ
  -- `hashlib.sha256(text.encode()).hexdigest()`
  pub sha256_hex : String → String

-- An exception that leaves the reducer.
pub data Error : Type 0 where
  key_error : (key : String) → Error
  index_error : Error
  value_error : (worker_id : ℕ) → Error
  runtime_error : Fault → Error
