-- ===== src/Effects.antt =====
-- The shape of a reduction: a new state and the commands in the order in which the code appends
-- them, or an exception that leaves the reducer. Writing through `state.workers[name]`.
use llama_agents.Prelude.{
  String, ◌≡◌, refl, List, [], ◌++◌, assign, Result, ok, raise, ◌>>=◌, Ensures, Returns, Bool, true,
  false, if◌then◌else◌,
}
use llama_agents.Types.{BrokerState, InternalStepWorkerState, WorkflowCommand, Error}

abbrev pub Emitting : Type 0 → Type 0
Emitting S = Result Error (S × List WorkflowCommand)

abbrev pub Reduced : Type 0
Reduced = Emitting BrokerState

abbrev pub prepend : {S : Type 0} → List WorkflowCommand → Emitting S → Emitting S
prepend cs (ok (s, cs')) = ok (s, cs ++ cs')
prepend cs (raise e) = raise e

-- The rest of a body, after a part that changed the state and appended its commands.
infixl 5 ◌▷◌
abbrev pub ◌▷◌ : {S T : Type 0} → Emitting S → (S → Emitting T) → Emitting T
m ▷ f = m >>= λ (s, commands). prepend commands (f s)

abbrev pub done : {S : Type 0} → S → Emitting S
done s = ok (s, [])

-- `state.workers[name] = worker`
unfoldable pub put_worker : String → InternalStepWorkerState → BrokerState → BrokerState
put_worker name ws s = record s { workers = assign name ws s.workers }

-- The effect of a helper that mutates one worker's state in place.
unfoldable pub in_worker : String → BrokerState → Emitting InternalStepWorkerState → Reduced
unfolding put_worker
in_worker name s m = m >>= λ (ws, commands). ok (put_worker name ws s, commands)

-- `P` of the state that is returned, whatever the commands.
abbrev pub Keeps : {S : Type 0} → (S → Type 0) → Emitting S → Type 0
Keeps P m = Ensures (λ r. P r.0) m

pub Keeps-prepend :
    {S : Type 0} (P : S → Type 0) (cs : List WorkflowCommand) (m : Emitting S)
    → Keeps P m
    → Keeps P (prepend cs m)
Keeps-prepend P cs (ok (s, cs')) h = h
Keeps-prepend P cs (raise e) h = tt

pub Keeps-▷ :
    {S T : Type 0} (P : S → Type 0) (Q : T → Type 0) (m : Emitting S) (f : S → Emitting T)
    → Keeps P m
    → ((s : S) → P s → Keeps Q (f s))
    → Keeps Q (m ▷ f)
Keeps-▷ P Q (ok (s, cs)) f h k = Keeps-prepend Q cs (f s) (k s h)
Keeps-▷ P Q (raise e) f h k = tt

pub Keeps-in_worker :
    (P : InternalStepWorkerState → Type 0) (Q : BrokerState → Type 0) (name : String)
    (s : BrokerState) (m : Emitting InternalStepWorkerState)
    → Keeps P m
    → ((ws : InternalStepWorkerState) → P ws → Q (put_worker name ws s))
    → Keeps Q (in_worker name s m)
unfolding in_worker
Keeps-in_worker P Q name s (ok (ws, cs)) h k = k ws h
Keeps-in_worker P Q name s (raise e) h k = tt

-- `m` returns, with `P` of its state.
abbrev pub Gives : {S : Type 0} → (S → Type 0) → Emitting S → Type 0
Gives P m = Returns (λ r. P r.0) m

pub Gives-prepend :
    {S : Type 0} (P : S → Type 0) (cs : List WorkflowCommand) (m : Emitting S)
    → Gives P m
    → Gives P (prepend cs m)
Gives-prepend P cs (ok (s, cs')) h = h
Gives-prepend P cs (raise e) h = h

pub Gives-▷ :
    {S T : Type 0} (P : S → Type 0) (Q : T → Type 0) (m : Emitting S) (f : S → Emitting T)
    → Gives P m
    → ((s : S) → P s → Gives Q (f s))
    → Gives Q (m ▷ f)
Gives-▷ P Q (ok (s, cs)) f h k = Gives-prepend Q cs (f s) (k s h)
Gives-▷ P Q (raise e) f h k = absurd h

pub Gives-in_worker :
    (P : InternalStepWorkerState → Type 0) (Q : BrokerState → Type 0) (name : String)
    (s : BrokerState) (m : Emitting InternalStepWorkerState)
    → Gives P m
    → ((ws : InternalStepWorkerState) → P ws → Q (put_worker name ws s))
    → Gives Q (in_worker name s m)
unfolding in_worker
Gives-in_worker P Q name s (ok (ws, cs)) h k = k ws h
Gives-in_worker P Q name s (raise e) h k = absurd h

pub Keeps-Gives : {S : Type 0} (P : S → Type 0) (m : Emitting S) → Gives P m → Keeps P m
Keeps-Gives P (ok r) h = h
Keeps-Gives P (raise e) h = tt

pub Gives-map :
    {S : Type 0} (P Q : S → Type 0) (m : Emitting S) → ((s : S) → P s → Q s) → Gives P m → Gives Q m
Gives-map P Q (ok r) f h = f r.0 h
Gives-map P Q (raise e) f h = h

pub Gives-if :
    {S : Type 0} (P : S → Type 0) (b : Bool) (m n : Emitting S)
    → (b ≡ true → Gives P m)
    → (b ≡ false → Gives P n)
    → Gives P (if b then m else n)
Gives-if P true m n f g = f refl
Gives-if P false m n f g = g refl

pub Keeps-if :
    {S : Type 0} (P : S → Type 0) (b : Bool) (m n : Emitting S)
    → (b ≡ true → Keeps P m)
    → (b ≡ false → Keeps P n)
    → Keeps P (if b then m else n)
Keeps-if P true m n f g = f refl
Keeps-if P false m n f g = g refl

pub Gives-done :
    {S T : Type 0} (P : S → Type 0) (Q : T → Type 0) (m : Emitting S) (f : S → T)
    → Gives P m
    → ((s : S) → P s → Q (f s))
    → Gives Q (m ▷ λ s. done (f s))
Gives-done P Q (ok (s, cs)) f h k = k s h
Gives-done P Q (raise e) f h k = h

pub Keeps-done :
    {S T : Type 0} (P : S → Type 0) (Q : T → Type 0) (m : Emitting S) (f : S → T)
    → Keeps P m
    → ((s : S) → P s → Q (f s))
    → Keeps Q (m ▷ λ s. done (f s))
Keeps-done P Q (ok (s, cs)) f h k = k s h
Keeps-done P Q (raise e) f h k = tt

-- A body that starts with a computation which emits nothing.
pub Keeps-bind :
    {A S : Type 0} (P : A → Type 0) (Q : S → Type 0) (m : Result Error A) (f : A → Emitting S)
    → Ensures P m
    → ((a : A) → P a → Keeps Q (f a))
    → Keeps Q (m >>= f)
Keeps-bind P Q (ok a) f h k = k a h
Keeps-bind P Q (raise e) f h k = tt

pub Keeps-map :
    {S : Type 0} (P Q : S → Type 0) (m : Emitting S) → ((s : S) → P s → Q s) → Keeps P m → Keeps Q m
Keeps-map P Q (ok r) f h = f r.0 h
Keeps-map P Q (raise e) f h = tt
