-- ===== src/Samples.antt =====
-- A small workflow and its state, on which the theorems are instantiated: a step `work` with two
-- workers, a step `gather` that collects the members of a stream of `split`, and a catch_error
-- handler.
mod Witnesses
mod Retries
mod Runs
mod Saves
mod Stores
use llama_agents.Start.{Workflow}
use llama_agents.StepResult.Threading.{Progress}
use llama_agents.Types.{StepWorkerWaiter, TickStepResult}
use llama_agents.Prelude.{
  ℕ, ℤ, pos, ◌≡◌, refl, String, true, false, none, some, List, [], ◌∷◌, ◌++◌, ◌>>=◌, arith, Ensures,
  Returns, length, select, values, lookup, ℕ_discrete,
}
use llama_agents.Types.{
  Class, Event, Exception, World, BrokerConfig, BrokerState, InternalStepWorkerState, StepConfig,
  EventAttempt, attempt_of, InProgressState, CatchErrorHandler, CollectionBinding, Cardinality,
  CollectionStreamInstance, StepWorkerFailed, StepFunctionResult, WorkflowTick, root, class_of,
  same_class, Class-discrete,
}
use llama_agents.Capacity.Slots.{IsValid, AllValid}

abbrev pub world : World
world = record {
  user_bases = λ n. Class.event_class ∷ [];
  class_name = λ c. "Some";
  class_module = λ c. "app";
  class_text = λ c. "app.Some";
  attribute_equals = λ e k v. true;
  accepts_seed = λ policy. false;
  next_delay = λ policy elapsed failures exception seed. none;
  sha256_hex = λ text. "0123456789abcdef";
}

abbrev pub item : ℕ → Event
item n = Event.object n (Class.user 0)

abbrev pub pair_left : Event
pair_left = Event.object 7 (Class.user 1)

abbrev pub work_config : StepConfig
work_config = record {
  accepted_events = Class.user 0 ∷ [];
  num_workers = 2;
  retry_policy = none;
  collect_params = none;
  collection_param = none;
  collection_policy = none;
  accept_event_subclasses = false;
}

abbrev pub execution_of : Event → ℕ → InProgressState
execution_of event id = record {
  event = event;
  worker_id = id;
  shared_state = record {
    step_name = "work";
    collected_events = [];
    collected_waiters = [];
    collection_release_payload = none;
    scope_path = "stream-a" ∷ [];
    work_item_id = none;
  };
  attempts = 0;
  first_attempt_at = pos 10;
  last_exception = none;
  last_failed_at = none;
  recovery_counts = [];
  bound_events = none;
  scope_path = "stream-a" ∷ [];
  work_item_id = none;
}

abbrev pub delayed_item : EventAttempt
delayed_item = record (attempt_of (item 2)) { not_before = some (pos 50) }

-- Worker 1 is busy; a delayed attempt waits in front of one that could start.
abbrev pub work_state : InternalStepWorkerState
work_state = record {
  queue = delayed_item ∷ attempt_of (item 3) ∷ [];
  config = work_config;
  in_progress = execution_of (item 1) 1 ∷ [];
  collected_events = [];
  collected_waiters = [];
  static_collect_events = [];
}

abbrev pub handler : CatchErrorHandler
handler = record { step_name = "rescue"; for_steps = none; max_recoveries = 2 }

abbrev pub gathering : CollectionBinding
gathering = record {
  id = "gathering";
  source_step = "split";
  target_step = "gather";
  item_types = Class.user 0 ∷ [];
  policy = record { cardinality = Cardinality.take 2 };
}

abbrev pub broker_config : BrokerConfig
broker_config = record {
  steps =
      (
        "work",
        record {
          accepted_events = Class.user 0 ∷ [];
          retry_policy = none;
          num_workers = 2;
          accept_event_subclasses = false;
        },
      )
      ∷ [];
  timeout = none;
  catch_error_handlers = ("rescue", handler) ∷ [];
  handler_for_step = ("work", "rescue") ∷ [];
  collection_bindings = ("gathering", gathering) ∷ [];
}

abbrev pub stream_a : CollectionStreamInstance
stream_a = record {
  stream_id = "stream-a";
  source_step = "split";
  scope_path = [];
  open_work_items = pos 1;
  accepting_binding_ids = "gathering" ∷ [];
}

abbrev pub busy : BrokerState
busy = record {
  is_running = true;
  config = broker_config;
  workers = ("work", work_state) ∷ [];
  stream_seq = 1;
  work_item_seq = 3;
  streams = ("stream-a", stream_a) ∷ [];
  collection_release_states = [];
}

pub work_state-IsValid : IsValid work_state
work_state-IsValid = (omega arith, (refl, tt), (omega arith, tt))

pub busy-AllValid : AllValid busy
busy-AllValid = (work_state-IsValid, tt)

-- The execution on worker 1 returns nothing.
abbrev pub finished_tick : WorkflowTick
finished_tick = WorkflowTick.step_result (record {
  step_id = root "work";
  worker_id = 1;
  event = item 1;
  result = StepFunctionResult.worker_result none false ∷ [];
})

abbrev pub wake_tick : WorkflowTick
wake_tick = WorkflowTick.wakeup (pos 60)

abbrev pub pending : List Event
pending = item 4 ∷ pair_left ∷ []

abbrev pub params : List (String × Class)
params = ("left", Class.user 1) ∷ ("right", Class.user 0) ∷ []

abbrev pub log : List (WorkflowTick × ℤ)
log = (wake_tick, pos 61) ∷ []

abbrev pub failure : StepWorkerFailed
failure = record {
  exception = Exception.step_exception 0;
  failed_at = pos 30;
  retry_decision = some (record { delay = none });
  first_attempt_at = none;
}

abbrev pub calm : BrokerState
calm = record busy { streams = [] }

abbrev pub waiter : StepWorkerWaiter
waiter = record {
  waiter_id = "approval";
  event = item 1;
  waiting_for_event = Class.user 0;
  requirements = [];
  has_requirements = false;
  resolved_event = none;
  bound_events = none;
  timed_out = false;
  scope_path = [];
  collection_release_payload = none;
  work_item_id = none;
}

abbrev pub waiting_state : InternalStepWorkerState
waiting_state = record work_state { collected_waiters = waiter ∷ [] }

-- The execution on worker 1, where nothing of its results is applied yet.
abbrev pub progress : Progress
progress = record {
  state = busy;
  this_execution = execution_of (item 1) 1;
  commands = [];
  output_event_name = none;
  step_no_longer_in_progress = true;
  redelivery_scheduled = false;
}

abbrev pub work_tick : TickStepResult
work_tick = record {
  step_id = root "work";
  worker_id = 1;
  event = item 1;
  result = StepFunctionResult.add_collected_event "batch" (item 1) ∷ [];
}

abbrev pub flow : Workflow
flow = record {
  steps = ("work", work_config) ∷ [];
  timeout = none;
  catch_error_handlers = ("rescue", handler) ∷ [];
  handler_for_step = ("work", "rescue") ∷ [];
  collection_bindings = [];
}

-- An item arrives.
abbrev pub arrival : WorkflowTick
arrival = WorkflowTick.add_event (record {
  event = item 1;
  step_id = none;
  bound_events = none;
  attempts = none;
  first_attempt_at = none;
  last_exception = none;
  last_failed_at = none;
  recovery_counts = [];
  scope_path = [];
  collection_release_payload = none;
  work_item_id = none;
})
