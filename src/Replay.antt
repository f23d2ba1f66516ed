-- ===== src/Replay.antt =====
-- Replaying a log of ticks: `rebuild_state_from_ticks` and `replay_ticks_stream` of
-- workflows/runtime/control_loop/reduce.py.
use llama_agents.Prelude.{
  ℤ, String, ◌≡◌, refl, Option, none, List, [], ◌∷◌, ◌++◌, Result, ok, raise, ◌>>=◌, Ensures,
  bind_cong, ◌∙◌, sym, ap, inl, inr, last?, last-snoc, select, append-nil, append_assoc, Bool-cases,
  arith,
}
use llama_agents.Types.{BrokerState, WorkflowTick, World, WorkflowCommand, Error, indicates_exit}
use llama_agents.Reduce.{
  reduce_tick, rewind_in_progress, rebuild_from, rebuild_state_from_ticks, last_exit, ReplayResult,
  replay_from, replay_ticks_stream,
}

-- The state that a replay ends in, without its command.
abbrev pub state_of : Result Error ReplayResult → Result Error BrokerState
state_of (ok r) = ok r.state
state_of (raise e) = raise e

abbrev pub exit_of : Result Error ReplayResult → Option WorkflowCommand
exit_of (ok r) = r.exit_command
exit_of (raise e) = none

state_of-bind :
    {A : Type 0} (m : Result Error A) (f : A → Result Error ReplayResult)
    → state_of (m >>= f) ≡ (m >>= λ a. state_of (f a))
state_of-bind (ok a) f = refl
state_of-bind (raise e) f = refl

select-append :
    (xs ys : List WorkflowCommand)
    → select indicates_exit (xs ++ ys) ≡ select indicates_exit xs ++ select indicates_exit ys
select-append [] ys = refl
select-append (x ∷ xs) ys = ground (arith, select-append xs ys)

last_exit-last :
    (before commands : List WorkflowCommand)
    → last_exit (last? before) commands ≡ last? (before ++ select indicates_exit commands)
unfolding last_exit
last_exit-last before [] = ap last? (sym (append-nil before))
last_exit-last before (c ∷ cs) = elim (Bool-cases (indicates_exit c)) [
  | inl exits ↦ rw exits (
      ap (λ o. last_exit o cs) (sym (last-snoc before c))
      ∙ last_exit-last (before ++ c ∷ []) cs
      ∙ ap last? (append_assoc before (c ∷ []) (select indicates_exit cs)))
  | inr goes_on ↦ rw goes_on (last_exit-last before cs)
]

module _ (w : World) (run_id : Option String) where
  -- The replay after one tick.
  abbrev next : ReplayResult → BrokerState × List WorkflowCommand → ReplayResult
  next r (s', commands) = record { state = s'; exit_command = last_exit r.exit_command commands }

  replay_from-state :
      (ticks : List (WorkflowTick × ℤ)) (r : ReplayResult)
      → state_of (replay_from w run_id ticks r) ≡ rebuild_from w run_id ticks r.state
  unfolding replay_from rebuild_from
  replay_from-state [] r = refl
  replay_from-state ((tick, now) ∷ ticks) r =
      state_of-bind (reduce_tick w run_id tick r.state now) _
      ∙ bind_cong (reduce_tick w run_id tick r.state now) _ _
          (λ x. replay_from-state ticks (next r x))

  -- Streaming a log ends in the state that `rebuild_state_from_ticks` computes, and raises what it
  -- raises.
  pub replay_ticks_stream-rebuild_state_from_ticks :
      (start : ℤ) (ticks : List (WorkflowTick × ℤ)) (s : BrokerState)
      → state_of (replay_ticks_stream w run_id start ticks s)
        ≡ rebuild_state_from_ticks w run_id start ticks s
  unfolding replay_ticks_stream rebuild_state_from_ticks
  replay_ticks_stream-rebuild_state_from_ticks start ticks s =
      state_of-bind (rewind_in_progress w start s) _
      ∙ bind_cong (rewind_in_progress w start s) _ _
          (λ x. replay_from-state ticks (record { state = x.0; exit_command = none }))

  -- The commands of the ticks, in their order.
  abbrev emitted : List (WorkflowTick × ℤ) → BrokerState → List WorkflowCommand
  emitted [] s = []
  emitted ((tick, now) ∷ ticks) s = elim (reduce_tick w run_id tick s now) [
    | raise e ↦ []
    | ok (s', commands) ↦ commands ++ emitted ticks s'
  ]

  abbrev pub emitted_by : ℤ → List (WorkflowTick × ℤ) → BrokerState → List WorkflowCommand
  emitted_by start ticks s = elim (rewind_in_progress w start s) [
    | raise e ↦ []
    | ok (s', commands) ↦ emitted ticks s'
  ]

  replay_from-exit :
      (ticks : List (WorkflowTick × ℤ)) (s : BrokerState) (before : List WorkflowCommand)
      → Ensures
          (λ r. r.exit_command ≡ last? (before ++ select indicates_exit (emitted ticks s)))
          (replay_from w run_id ticks (record { state = s; exit_command = last? before }))
  unfolding replay_from
  replay_from-exit [] s before = ap last? (sym (append-nil before))
  replay_from-exit ((tick, now) ∷ ticks) s before =
      elim (reduce_tick w run_id tick s now)
        as (λ m.
          Ensures
            (λ r.
              r.exit_command
              ≡ last? (
                  before
                  ++ select indicates_exit (elim m as (λ _. List WorkflowCommand) [
                    | raise e ↦ []
                    | ok (s', commands) ↦ commands ++ emitted ticks s'
                  ])))
            (m >>= λ (s', commands).
              replay_from w run_id ticks
                (record { state = s'; exit_command = last_exit (last? before) commands }))) [
                  | raise e ↦ tt
                  | ok (s', commands) ↦
                      rw
                        (
                          last_exit-last before commands,
                          select-append commands (emitted ticks s'),
                          sym (
                              append_assoc before (select indicates_exit commands)
                                (select indicates_exit (emitted ticks s'))),
                        )
                        (replay_from-exit ticks s' (before ++ select indicates_exit commands))
                ]

  -- If a streamed replay returns, then its exit command is the last one of all the commands of the
  -- replayed ticks that ends the run, and there is none if none of them does.
  pub replay_ticks_stream-exit_command :
      (start : ℤ) (ticks : List (WorkflowTick × ℤ)) (s : BrokerState)
      → Ensures
          (λ r. r.exit_command ≡ last? (select indicates_exit (emitted_by start ticks s)))
          (replay_ticks_stream w run_id start ticks s)
  unfolding replay_ticks_stream
  replay_ticks_stream-exit_command start ticks s =
      elim (rewind_in_progress w start s)
        as (λ m.
          Ensures
            (λ r.
              r.exit_command
              ≡ last? (
                  select indicates_exit (elim m as (λ _. List WorkflowCommand) [
                    | raise e ↦ []
                    | ok (s', commands) ↦ emitted ticks s'
                  ])))
            (m >>= λ (s', _).
              replay_from w run_id ticks (record { state = s'; exit_command = none }))) [
                | raise e ↦ tt
                | ok (s', commands) ↦ replay_from-exit ticks s' []
              ]
