-- ===== src/Start.antt =====
-- The state of a run that has not started (`BrokerState.from_workflow` of
-- workflows/runtime/types/internal_state.py).
use llama_agents.Prelude.{ℤ, String, false, Option, [], ◌∷◌, Dict}
use llama_agents.Types.{
  BrokerState, CatchErrorHandler, CollectionBinding, InternalStepConfig, InternalStepWorkerState,
  StepConfig,
}

-- What is read of a workflow. Its collection bindings are those that `_compute_collection_bindings`
-- returns.
pub record Workflow : Type 0 where
  pub steps : Dict StepConfig
  pub timeout : Option ℤ
  pub catch_error_handlers : Dict CatchErrorHandler
  pub handler_for_step : Dict String
  pub collection_bindings : Dict CollectionBinding

unfoldable pub internal_config : StepConfig → InternalStepConfig
internal_config config = record {
  accepted_events = config.accepted_events;
  retry_policy = config.retry_policy;
  num_workers = config.num_workers;
  accept_event_subclasses = config.accept_event_subclasses;
}

unfoldable pub fresh_worker : StepConfig → InternalStepWorkerState
fresh_worker config = record {
  queue = [];
  config = config;
  in_progress = [];
  collected_events = [];
  collected_waiters = [];
  static_collect_events = [];
}

unfoldable pub step_configs : Dict StepConfig → Dict InternalStepConfig
unfolding internal_config
step_configs [] = []
step_configs ((name, config) ∷ steps) = (name, internal_config config) ∷ step_configs steps

unfoldable pub fresh_workers : Dict StepConfig → Dict InternalStepWorkerState
unfolding fresh_worker
fresh_workers [] = []
fresh_workers ((name, config) ∷ steps) = (name, fresh_worker config) ∷ fresh_workers steps

unfoldable pub from_workflow : Workflow → BrokerState
unfolding step_configs fresh_workers
from_workflow workflow = record {
  is_running = false;
  config = record {
    steps = step_configs workflow.steps;
    timeout = workflow.timeout;
    catch_error_handlers = workflow.catch_error_handlers;
    handler_for_step = workflow.handler_for_step;
    collection_bindings = workflow.collection_bindings;
  };
  workers = fresh_workers workflow.steps;
  stream_seq = 0;
  work_item_seq = 0;
  streams = [];
  collection_release_states = [];
}
