-- ===== src/Looping/Waiting.antt =====
-- What the wakeups of workflows/runtime/control_loop/runner.py promise: due ticks in the order of
-- their times, and a timeout after which one is due.
use llama_agents.Prelude.{
  ◌<◌, ◌≡◌, refl, ap, ℤ, pos, ◌+ℤ◌, ◌-ℤ◌, ltb_ℤ, leb_ℤ, true, false, some, some-injective, List, [],
  ◌∷◌, ◌++◌, map, All, length, arith, if◌then◌else◌, if_case,
}
use llama_agents.Types.{WorkflowTick}
use llama_agents.Looping.Wakeups.{Wakeup, before, push, next_wakeup_timeout, pop_due_ticks}
use llama_agents.Looping.Runner.{Runner, schedule_tick}

-- The entries in the order of `heapq`, and their numbers below the next one.
abbrev pub Sorted : List Wakeup → Type 0
Sorted [] = Unit
Sorted (a ∷ heap) = All (λ b. before a b ≡ true) heap × Sorted heap

pub record IsScheduled (r : Runner) : Type 0 where
  pub sorted : Sorted r.scheduled_wakeups
  pub numbered : All (λ a. a.seq < r.wakeup_sequence) r.scheduled_wakeups

before_trans : (a b c : Wakeup) → before a b ≡ true → before b c ≡ true → before a c ≡ true
unfolding before
before_trans a b c h k = ground arith

before_total : (a b : Wakeup) → b.seq < a.seq → before a b ≡ false → before b a ≡ true
unfolding before
before_total a b h k = ground arith

All-map :
    {P Q : Wakeup → Type 0} (heap : List Wakeup)
    → ((a : Wakeup) → P a → Q a)
    → All P heap
    → All Q heap
All-map [] f h = tt
All-map (a ∷ heap) f h = (f a h.0, All-map heap f h.1)

-- Where an entry is pushed, a predicate of all entries is one of it and of the others.
pub All-push :
    (P : Wakeup → Type 0) (a : Wakeup) (heap : List Wakeup) → P a → All P heap → All P (push a heap)
unfolding push
All-push P a [] p h = (p, tt)
All-push P a (b ∷ heap) p h =
    if_case (All P) (before a b) _ _ (λ first. (p, h)) (λ later. (h.0, All-push P a heap p h.1))

Sorted-push :
    (a : Wakeup) (heap : List Wakeup)
    → All (λ b. b.seq < a.seq) heap
    → Sorted heap
    → Sorted (push a heap)
unfolding push
Sorted-push a [] fresh h = (tt, tt)
Sorted-push a (b ∷ heap) fresh h =
    if_case Sorted (before a b) _ _
      (λ first. ((first, All-map heap (λ c k. before_trans a b c first k) h.0), h))
      (λ later.
        (All-push _ a heap (before_total a b fresh.0 later) h.0, Sorted-push a heap fresh.1 h.1))

pub schedule_tick-IsScheduled :
    (tick : WorkflowTick) (at_time : ℤ) (r : Runner)
    → IsScheduled r
    → IsScheduled (schedule_tick tick at_time r)
unfolding schedule_tick
schedule_tick-IsScheduled tick at_time r h =
    let a : Wakeup = record { at_time = at_time; seq = r.wakeup_sequence; tick = tick } in
    record {
      sorted = Sorted-push a r.scheduled_wakeups h.numbered h.sorted;
      numbered =
          All-push _ a r.scheduled_wakeups (omega arith)
            (All-map r.scheduled_wakeups (λ b k. omega (arith, k)) h.numbered);
    }

-- The heap in two parts: what is due, whose ticks were popped in this order, and what is left.
pub record IsDue (now : ℤ) (heap : List Wakeup) (popped : List WorkflowTick × List Wakeup)
    : Type 0 where
  pub due : List Wakeup
  pub parts : heap ≡ due ++ popped.1
  pub ticks : map (λ a. a.tick) due ≡ popped.0
  pub all_due : All (λ a. leb_ℤ a.at_time now ≡ true) due
  pub none_left : All (λ a. ltb_ℤ now a.at_time ≡ true) popped.1

not_due :
    (a b : Wakeup) (now : ℤ)
    → leb_ℤ a.at_time now ≡ false
    → before a b ≡ true
    → ltb_ℤ now b.at_time ≡ true
unfolding before
not_due a b now h k = ground arith

late : (a : Wakeup) (now : ℤ) → leb_ℤ a.at_time now ≡ false → ltb_ℤ now a.at_time ≡ true
late a now h = ground arith

-- From a heap in order, `pop_due_ticks` pops the ticks of exactly the entries whose time has come, in
-- the order of their times and, for equal times, of their scheduling; the others stay as they are.
pub pop_due_ticks-IsDue :
    (now : ℤ) (heap : List Wakeup) → Sorted heap → IsDue now heap (pop_due_ticks now heap)
unfolding pop_due_ticks
pop_due_ticks-IsDue now [] h = record {
  due = [];
  parts = refl;
  ticks = refl;
  all_due = tt;
  none_left = tt;
}
pop_due_ticks-IsDue now (a ∷ heap) h =
    let rest = pop_due_ticks-IsDue now heap h.1 in
    if_case (IsDue now (a ∷ heap)) (leb_ℤ a.at_time now) _ _
      (λ come. record {
        due = a ∷ rest.due;
        parts = ap (λ xs. a ∷ xs) rest.parts;
        ticks = ap (λ xs. a.tick ∷ xs) rest.ticks;
        all_due = (come, rest.all_due);
        none_left = rest.none_left;
      })
      (λ waits. record {
        due = [];
        parts = refl;
        ticks = refl;
        all_due = tt;
        none_left = (late a now waits, All-map heap (λ b k. not_due a b now waits k) h.0);
      })

-- The first entry's time is reached where the loop has waited for the timeout.
reached :
    (now at_time timeout later : ℤ)
    → (if ltb_ℤ (pos 0) (at_time -ℤ now) then at_time -ℤ now else pos 0) ≡ timeout
    → leb_ℤ (now +ℤ timeout) later ≡ true
    → leb_ℤ at_time later ≡ true
unfolding ◌+ℤ◌ ◌-ℤ◌
reached now at_time timeout later e h = ground arith

-- Where the loop waits for a timeout, then after it a scheduled tick is due.
pub next_wakeup_timeout-due :
    (now timeout later : ℤ) (heap : List Wakeup)
    → next_wakeup_timeout now heap ≡ some timeout
    → leb_ℤ (now +ℤ timeout) later ≡ true
    → 0 < length (pop_due_ticks later heap).0
unfolding next_wakeup_timeout pop_due_ticks
next_wakeup_timeout-due now timeout later [] e h = cc
next_wakeup_timeout-due now timeout later (a ∷ heap) e h =
    rw (reached now a.at_time timeout later (some-injective _ _ e) h) (omega arith)
