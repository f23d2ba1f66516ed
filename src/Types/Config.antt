-- ===== src/Types/Config.antt =====
-- The static configuration of a run: steps, catch_error handlers and collection bindings
-- (workflows/decorators.py, workflows/collect.py, workflows/runtime/types/internal_state.py).
use llama_agents.Prelude.{ℕ, ℤ, String, Bool, Option, List, Dict, values, str_eq, select}
use llama_agents.Types.Classes.{Class}

-- `Collect(All())` and `Collect(Take(n))`
pub data Cardinality : Type 0 where
  all : Cardinality
  take : ℕ → Cardinality

pub record Collect : Type 0 where
  pub cardinality : Cardinality

pub record CollectionBinding : Type 0 where
  pub id : String
  pub source_step : String
  pub target_step : String
  pub item_types : List Class
  pub policy : Collect

pub record CatchErrorHandler : Type 0 where
  pub step_name : String
  pub for_steps : Option (List String)
  pub max_recoveries : ℕ

-- The fields of a step's declaration that the control loop reads. A retry policy is an object of the
-- program, by number.
pub record StepConfig : Type 0 where
  pub accepted_events : List Class
  pub num_workers : ℕ
  pub retry_policy : Option ℕ
  pub collect_params : Option (List (String × Class))
  pub collection_param : Option (String × List Class)
  pub collection_policy : Option Collect
  pub accept_event_subclasses : Bool

pub record InternalStepConfig : Type 0 where
  pub accepted_events : List Class
  pub retry_policy : Option ℕ
  pub num_workers : ℕ
  pub accept_event_subclasses : Bool

pub record BrokerConfig : Type 0 where
  pub steps : Dict InternalStepConfig
  pub timeout : Option ℤ
  pub catch_error_handlers : Dict CatchErrorHandler
  pub handler_for_step : Dict String
  pub collection_bindings : Dict CollectionBinding

unfoldable pub bindings_for_source : BrokerConfig → String → List CollectionBinding
bindings_for_source config source_step =
    select (λ binding. str_eq binding.source_step source_step) (values config.collection_bindings)
