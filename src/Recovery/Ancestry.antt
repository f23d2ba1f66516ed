-- ===== src/Recovery/Ancestry.antt =====
-- The recoveries along the ancestry of an execution: `recovery_counts` in
-- `_schedule_retry_or_route_failure`, `_apply_step_result` and `_process_add_event_tick` of
-- workflows/runtime/control_loop/reduce.py, and `process_command` of runner.py between them.
use llama_agents.Prelude.{
  ℕ, suc, ◌+◌, ◌≤◌, ◌≡◌, refl, sym, ap, ◌∙◌, inl, inr, ℤ, String, Option, none, some, [], get_or,
  leb, Option-cases, Bool-cases, arith, lookup, assign, lookup-assign, Dict, Among, All-Among,
  if_case, if◌then◌else◌, subst, str_eq, eq_iff, some-injective,
}
use llama_agents.Types.{
  World, BrokerConfig, CatchErrorHandler, Event, EventAttempt, InProgressState, StepWorkerFailed,
  WorkflowCommand,
}
use llama_agents.Failure.{
  Outcome, outcome, retry_delay, retry_attempt, handler_of, route_or_fail, queue_catch_error_event,
}
use llama_agents.Reduce.{rewound_attempt}
use llama_agents.StepResult.Threading.{Progress, Scope, apply_event}
use llama_agents.Executing.{Runs, Runs-recovery_counts, IsQueuedAs, IsQueuedAs-recovery_counts}
use llama_agents.Recovery.Delivering.{
  recoveries, Delivers, Delivers-counts, Inherits, apply_event-Inherits,
}

module _ (w : World) (run_id : Option String) (config : BrokerConfig) (name : String) where
  -- The executions with `k` recoveries by the handler step `name` in their ancestry, which goes
  -- through returned events, retries, resumed runs, and recoveries by this and other handlers.
  pub data Descends : InProgressState → ℕ → Type 0 where
    begun :
        (now : ℤ) (a : EventAttempt) (p : InProgressState)
        → recoveries name a.recovery_counts ≡ 0
        → Runs w now a p
        → Descends p 0
    returned :
        (p q : InProgressState) (k : ℕ) (scope : Scope) (event : Event) (acc : Progress)
        (command : WorkflowCommand)
        → Descends p k
        → acc.this_execution ≡ p
        → Among command (apply_event w scope event (record acc { commands = [] })).commands
        → Delivers w command q
        → Descends q k
    retried :
        (now : ℤ) (p q : InProgressState) (k : ℕ) (step_name : String) (failure : StepWorkerFailed)
        (policy : Option ℕ) (a b : EventAttempt)
        → Descends p k
        → outcome w run_id step_name failure p config policy ≡ Outcome.retry a
        → IsQueuedAs a b
        → Runs w now b q
        → Descends q k
    resumed :
        (now : ℤ) (p q : InProgressState) (k : ℕ)
        → Descends p k
        → Runs w now (rewound_attempt p) q
        → Descends q k
    recovered :
        (p q : InProgressState) (k : ℕ) (step_name : String) (failure : StepWorkerFailed)
        (policy : Option ℕ) (input : Event) (handler : CatchErrorHandler) (count : ℕ)
        → Descends p k
        → outcome w run_id step_name failure p config policy ≡ Outcome.recover handler count
        → Delivers w (queue_catch_error_event w run_id step_name failure p input handler count) q
        → Descends q (if str_eq handler.step_name name then suc k else k)

  -- A handler that is called, and how often it was called before.
  record Routed (step_name : String) (p : InProgressState) (handler : CatchErrorHandler) (count : ℕ)
      : Type 0 where
    owner : String
    owned : lookup step_name config.handler_for_step ≡ some owner
    registered : lookup owner config.catch_error_handlers ≡ some handler
    one_more : count ≡ recoveries handler.step_name p.recovery_counts + 1
    bounded : count ≤ handler.max_recoveries

  IfRouted : String → InProgressState → Outcome → Type 0
  IfRouted step_name p (Outcome.recover handler count) = Routed step_name p handler count
  IfRouted step_name p _ = Unit

  module _ (step_name : String) (failure : StepWorkerFailed) (p : InProgressState)
      (policy : Option ℕ) where
    outcome-IfRouted : IfRouted step_name p (outcome w run_id step_name failure p config policy)
    unfolding outcome handler_of route_or_fail IfRouted
    outcome-IfRouted = elim (Option-cases (retry_delay w run_id step_name failure p policy)) [
      | inr (delay, again) ↦ rw (again, outcome) tt
      | inl over ↦ elim (Option-cases (lookup step_name config.handler_for_step)) [
        | inl nobody ↦ rw (over, outcome, nobody, handler_of) tt
        | inr (owner, owned) ↦ elim (Option-cases (lookup owner config.catch_error_handlers)) [
          | inl missing ↦ rw (over, outcome, owned, handler_of, missing) tt
          | inr (handler, registered) ↦
              rw (over, outcome, owned, handler_of, registered)
                (if_case (IfRouted step_name p)
                  (leb (recoveries handler.step_name p.recovery_counts + 1) handler.max_recoveries)
                  _ _
                  (λ within. record {
                    owner = owner;
                    owned = owned;
                    registered = registered;
                    one_more = refl;
                    bounded = ground (arith, within);
                  })
                  (λ beyond. tt))
        ]
      ]
    ]

    routed :
        (handler : CatchErrorHandler) (count : ℕ)
        → outcome w run_id step_name failure p config policy ≡ Outcome.recover handler count
        → Routed step_name p handler count
    unfolding IfRouted
    routed handler count e = subst (IfRouted step_name p) e outcome-IfRouted

  same_recoveries :
      (counts counts' : Dict ℕ) (k : ℕ)
      → counts ≡ counts'
      → recoveries name counts' ≡ k
      → recoveries name counts ≡ k
  same_recoveries counts counts' k e h = ap (recoveries name) e ∙ h

  retry-recovery_counts :
      (step_name : String) (failure : StepWorkerFailed) (p : InProgressState) (policy : Option ℕ)
      (a : EventAttempt)
      → outcome w run_id step_name failure p config policy ≡ Outcome.retry a
      → a.recovery_counts ≡ p.recovery_counts
  unfolding retry_attempt outcome route_or_fail
  retry-recovery_counts step_name failure p policy a e =
      elim (Option-cases (retry_delay w run_id step_name failure p policy)) [
        | inl over ↦
            absurd
              (no_retry (handler_of w run_id step_name failure p config) (rw (over, outcome) at e))
        | inr (delay, again) ↦
            let same : Outcome.retry (retry_attempt w run_id step_name failure p delay)
                ≡ Outcome.retry a =
              rw (again, outcome) at e in
            sym (ap counts_of same)
      ]
    where
      counts_of : Outcome → Dict ℕ
      counts_of (Outcome.retry b) = b.recovery_counts
      counts_of (Outcome.recover handler count) = []
      counts_of Outcome.give_up = []

      no_retry :
          (o : Option CatchErrorHandler)
          → route_or_fail w run_id step_name failure p o ≡ Outcome.retry a
          → ⊥
      no_retry none h = cc
      no_retry (some handler) h = ground arith

  recovered-recoveries :
      (p q : InProgressState) (k : ℕ) (handler : CatchErrorHandler) (count : ℕ)
      → some (assign handler.step_name count p.recovery_counts) ≡ some q.recovery_counts
      → count ≡ recoveries handler.step_name p.recovery_counts + 1
      → recoveries name p.recovery_counts ≡ k
      → recoveries name q.recovery_counts ≡ (if str_eq handler.step_name name then suc k else k)
  recovered-recoveries p q k handler count queued one_more h =
      ap (recoveries name) (sym (some_back queued))
      ∙ ap (λ o. get_or o 0) (lookup-assign handler.step_name name count p.recovery_counts)
      ∙ elim (Bool-cases (str_eq handler.step_name name)) [
        | inl same ↦ rw same (
            omega (
              arith,
              one_more,
              ap (λ n. recoveries n p.recovery_counts) ((eq_iff handler.step_name name).0 same),
              h,
            ))
        | inr other ↦ rw other h
      ]
    where
      some_back : {a b : Dict ℕ} → some a ≡ some b → a ≡ b
      some_back {a} {b} e = some-injective a b e

  -- The counts of an execution are the recoveries in its ancestry.
  Descends-recoveries :
      (p : InProgressState) (k : ℕ) → Descends p k → recoveries name p.recovery_counts ≡ k
  unfolding rewound_attempt queue_catch_error_event
  Descends-recoveries p _ (begun now a _ none_yet runs) =
      same_recoveries p.recovery_counts a.recovery_counts 0 (Runs-recovery_counts w now a p runs)
        none_yet
  Descends-recoveries q k (returned p _ _ scope event acc command before same emitted delivered) =
      same_recoveries q.recovery_counts p.recovery_counts k
        (from_queue (All-Among _ command _ (apply_event-Inherits w scope event acc) emitted)
          ∙ ap (λ x. x.recovery_counts) same)
        (Descends-recoveries p k before)
    where
      from_queue :
          Inherits acc.this_execution.recovery_counts command
          → q.recovery_counts ≡ acc.this_execution.recovery_counts
      from_queue (inl nothing) = let bad = sym nothing ∙ Delivers-counts w command q delivered in cc
      from_queue (inr queued) =
          some-injective q.recovery_counts acc.this_execution.recovery_counts
            (sym (Delivers-counts w command q delivered) ∙ queued)
  Descends-recoveries q k (retried now p _ _ step_name failure policy a b before e queued runs) =
      same_recoveries q.recovery_counts p.recovery_counts k
        (Runs-recovery_counts w now b q runs
          ∙ IsQueuedAs-recovery_counts a b queued
          ∙ retry-recovery_counts step_name failure p policy a e)
        (Descends-recoveries p k before)
  Descends-recoveries q k (resumed now p _ _ before runs) =
      same_recoveries q.recovery_counts p.recovery_counts k
        (Runs-recovery_counts w now (rewound_attempt p) q runs) (Descends-recoveries p k before)
  Descends-recoveries q _
        (recovered p _ k step_name failure policy input handler count before e delivered) =
      recovered-recoveries p q k handler count (Delivers-counts w _ q delivered)
        (routed step_name failure p policy handler count e).one_more
        (Descends-recoveries p k before)

  -- A failed execution with `k` recoveries by a handler step in its ancestry is handed to that step
  -- only as the handler that the configuration registers for the failed step, and only if `k` and
  -- this one are at most its `max_recoveries`. The ancestry goes through returned events, retries,
  -- resumed runs, and recoveries by whatever handlers.
  pub outcome-bounded :
      (p : InProgressState) (k : ℕ) (step_name : String) (failure : StepWorkerFailed)
      (policy : Option ℕ) (handler : CatchErrorHandler) (count : ℕ)
      → Descends p k
      → outcome w run_id step_name failure p config policy ≡ Outcome.recover handler count
      → handler.step_name ≡ name
      → ((owner : String) × (lookup step_name config.handler_for_step ≡ some owner)
          × (lookup owner config.catch_error_handlers ≡ some handler))
        × (suc k ≤ handler.max_recoveries)
  outcome-bounded p k step_name failure policy handler count descends e named =
      let r = routed step_name failure p policy handler count e in
      (
        (r.owner, r.owned, r.registered),
        omega (
          arith,
          r.one_more,
          r.bounded,
          ap (λ n. recoveries n p.recovery_counts) named,
          Descends-recoveries p k descends,
        ),
      )
