-- ===== src/Lib.antt =====
-- The control loop of llama-index-workflows (packages/llama-index-workflows/src/workflows): the
-- reducer that turns a tick and a state into a new state and commands, with everything that it calls;
-- its runner, retry policies and persistence; and the memory store of the workflow server.
--
-- A workflow is a set of steps. Each step has workers, a queue of attempts and the executions that are
-- in progress. The runner feeds ticks to the reducer, executes the commands that it returns, and keeps
-- the ticks in a journal, from which a run is rebuilt. Retry policies decide what becomes of failures.
-- Lists that a step returns open collection streams, whose members are gathered by steps with a list
-- parameter.
--
-- The model, by file:
--   Types        the data of runtime/types (internal_state.py, results.py, commands.py, ticks.py,
--                step_id.py), events.py, errors.py, decorators.py and collect.py; Types/Outside has
--                what comes from the program that uses the library, as arguments of the model
--   Effects      the shape of a reduction, Result Error (state × commands), and its combinators
--   Matching     _event_matching.py
--   Dispatch     _is_eligible, _add_or_enqueue_event, _drain_eligible_queue of
--                runtime/control_loop/reduce.py
--   Streams      runtime/control_loop/streams.py up to the classification, which Classify has; Stuck
--                has _detect_stuck_streams and _check_idle_state
--   StaticCollect, Failure, StepResult, AddEvent, Timers, Reduce
--                the handlers of reduce.py, one function for each of its functions and a named helper
--                for each branch with effects
--   Start        BrokerState.from_workflow of runtime/types/internal_state.py
--   Looping      runtime/control_loop/runner.py: Wakeups has the heap, Runner the state, Commands
--                process_command and _process_tick, Workers run_worker and _stamp_retry_decisions,
--                Turns run; Rehydrate has BrokerState.rehydrate_with_ticks
--   Saving       BrokerState.to_serialized and from_serialized over context/context_types.py:
--                Serialized has the records, Writing and Reading the two directions
--   Naming       StepId of runtime/types/step_id.py: its checks, from_str and its text
--   Retrying     retry_policy.py: Conditions, Waits, Stops and Policy
--   Storing      the server's memory store, packages/llama-agents-server/src/llama_agents/server/_store:
--                Handlers has abstract_workflow_store.py, Memory and Reading memory_workflow_store.py
-- The proofs:
--   Running      the states that a run reaches from its start
--   Capacity     worker slots, over every handler; Invariant has the part that holds for every
--                invariant of one step's state
--   Framed       predicates of the whole state, over every handler
--   OpenStreams, OpenWork        the counters of open work
--   Draining, Waking, Resuming   the queues of the steps: a drain, a wakeup, a resumed run; Visiting
--                has the loops over all steps
--   Executing    from a queued attempt to its execution
--   BatchSearch, Collecting      static fan-in, and the release of a stream's members: Collecting has
--                the arrivals and the close, Arriving, Closing and Once the proof
--   Resolving, Rerunning         waiters, and the buffers of collected events
--   Recovery, Quiescence, Accepting, Replay
--                failures, stuck streams, the count of work items, and logs;
--                Recovery/Delivering and Ancestry have the recoveries from execution to execution
--   Looping/Live, Orderly, IdleChecks, Waiting, Journal, Exits, Stamping
--                the runners that a run passes through, and what holds of them
--   Retrying/Attempts, Bounded, Delays, Within, Seeds, Chains
--                bounds on attempts and delays, jitter, and chains of strategies
--   Saving/Restored, RoundTrip, Returning, Twice; Naming/Splitting, RoundTrip
--                what is read is what was written
--   Silence      which ticks queue no event; Looping/Counting, Rounds, Emptying: the loop over the buffer
--   Storing/Unique, Evicting, Capped, Subscribed, Appended
--                the cap on finished handlers, and what a subscriber receives
--   Samples      a small workflow on which the theorems are instantiated
--
-- Correspondence. Python objects are values: a handler copies the state (deepcopy) and mutates the
-- copy, so each helper takes the state or one step's state and returns the new one. An execution is
-- removed as the first with its worker id, which is the one that was looked up by that id. A
-- dictionary is an association list in insertion order (Prelude/Mapping). The executions are handed
-- fresh snapshots, so no aliasing is left. Times are integers of a fixed unit and not floats: the code
-- only adds, subtracts and compares them. An event of the program is an object with an identity and a
-- class; classes of the program are numbers with their bases as an argument. Requirements of waiters
-- and retry policies are numbers that the argument World interprets. Texts of errors are kept as the
-- data that they are formatted from (Fault).
--
-- Persistence. The text that a serializer makes of an event is of a type of its own, and reading it
-- raises or not as the serializer says. The state store's part of the persisted context is left out.
--
-- Loops are structural. The `while` of _drain_eligible_queue recurses on a number of rounds, the
-- length of the queue: each round takes one attempt off the queue. The drain of the runner's buffer is
-- given as one round (pop_tick), and for a number of rounds (drain_buffer);
-- only a step's result queues events, and an idle check that is alone is not put back.
--
-- The runner. A task is what its completion hands to the loop (Completed), the heap is the list of its
-- entries in the order in which heapq pops them, and the adapter's clock is a function of the number of
-- readings. What the adapter is given is kept in the runner's record. Retry policies count delays in
-- the model's unit; a float base is a ratio, and its power overflows as in Python. A chain of causes of
-- an exception is finite.
--
-- The memory store. A subscriber is the list of what the store holds of its run whenever it looks; a
-- state store is the key of its cache; the store's clock is an argument. A handler that is changed in
-- place is a new value that is stored under its id. A negative limit, which the constructor refuses, has
-- no value in the model.
--
-- Not modelled: log lines; the step functions and asyncio; failures of the adapter; the serializers,
-- the migrations of older persisted versions; the definition of workflows by reflection, with the
-- computation of their collection bindings, which are an argument of from_workflow; the server's HTTP
-- handlers and database stores; the control plane and command line packages.
pub mod Prelude
pub mod Types
pub mod Effects
pub mod Matching
pub mod Dispatch
pub mod Streams
pub mod Classify
pub mod StaticCollect
pub mod StepResult
pub mod Failure
pub mod AddEvent
pub mod Timers
pub mod Stuck
pub mod Reduce
pub mod Start
pub mod Invariant
pub mod Capacity
pub mod Framed
pub mod Replay
pub mod Draining
pub mod BatchSearch
pub mod Recovery
pub mod Quiescence
pub mod Collecting
pub mod OpenStreams
pub mod OpenWork
pub mod Accepting
pub mod Visiting
pub mod Waking
pub mod Resuming
pub mod Resolving
pub mod Rerunning
pub mod Running
pub mod Retrying
pub mod Looping
pub mod Saving
pub mod Naming
pub mod Executing
pub mod Storing
pub mod Silence
mod Samples
