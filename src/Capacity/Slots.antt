-- ===== src/Capacity/Slots.antt =====
-- Worker slots: the ids that are taken are distinct, below the number of workers, and no more than
-- these (`InProgressState.worker_id`, workflows/runtime/types/internal_state.py).
use llama_agents.Prelude.{
  ℕ, zero, suc, ◌+◌, ◌≤◌, ◌<◌, ◌≡◌, refl, ap, inl, inr, Bool, true, false, ◌||◌, some, List, [],
  ◌∷◌, ◌++◌, map, length, contains, All, ◌==◌, ==_iff, Bool-cases, arith, remove_first, values,
  length-append,
}
use llama_agents.Types.{InProgressState, InternalStepWorkerState, BrokerState}
use llama_agents.Dispatch.{candidates_from, first, worker_ids}

abbrev pub Distinct : List ℕ → Type 0
Distinct [] = Unit
Distinct (x ∷ xs) = (contains xs x ≡ false) × Distinct xs

abbrev pub Below : ℕ → List ℕ → Type 0
Below n = All (λ x. x < n)

abbrev pub SlotsFit : ℕ → List ℕ → Type 0
SlotsFit n ids = (length ids ≤ n) × Distinct ids × Below n ids

abbrev pub IsValid : InternalStepWorkerState → Type 0
IsValid ws = SlotsFit ws.config.num_workers (worker_ids ws)

abbrev pub AllValid : BrokerState → Type 0
AllValid s = All IsValid (values s.workers)

-- How many candidates are lost to one more id in use.
candidates_before :
    (i k u : ℕ) (used : List ℕ) → u < i → candidates_from i k (u ∷ used) ≡ candidates_from i k used
unfolding candidates_from
candidates_before i zero u used h = refl
candidates_before i (suc k) u used h =
    ground (arith, candidates_before (suc i) k u used (omega arith))

candidates_lost :
    (i k u : ℕ) (used : List ℕ)
    → length (candidates_from i k used) ≤ length (candidates_from i k (u ∷ used)) + 1
unfolding candidates_from
candidates_lost i zero u used = omega arith
candidates_lost i (suc k) u used =
    ground (arith, candidates_lost (suc i) k u used, candidates_before (suc i) k u used)

candidates_none_used : (i k : ℕ) → length (candidates_from i k []) ≡ k
unfolding candidates_from
candidates_none_used i zero = refl
candidates_none_used i (suc k) = ap suc (candidates_none_used (suc i) k)

-- The pigeonhole: ids that are fewer than the workers leave a candidate.
pub candidates_left :
    (i k : ℕ) (used : List ℕ) → k ≤ length (candidates_from i k used) + length used
candidates_left i k [] = omega (arith, candidates_none_used i k)
candidates_left i k (u ∷ used) = omega (arith, candidates_left i k used, candidates_lost i k u used)

-- The least free id: it is in range and unused, and every smaller one is used.
abbrev pub Least : ℕ → ℕ → List ℕ → ℕ → Type 0
Least i k used id =
    (contains used id ≡ false)
    × (i ≤ id)
    × (id < i + k)
    × ((j : ℕ) → i ≤ j → j < id → contains used j ≡ true)

pub first_candidate :
    (i k : ℕ) (used : List ℕ)
    → length used < k
    → (id : ℕ) × (first (candidates_from i k used) ≡ some id)
first_candidate i k used h =
    nonempty (candidates_from i k used) (omega (arith, candidates_left i k used))
  where
    nonempty : (l : List ℕ) → 0 < length l → (id : ℕ) × (first l ≡ some id)
    nonempty [] p = absurd (omega arith)
    nonempty (x ∷ l) p = (x, refl)

pub first-Least :
    (i k : ℕ) (used : List ℕ) (id : ℕ)
    → first (candidates_from i k used) ≡ some id
    → Least i k used id
unfolding candidates_from
first-Least i zero used id e = cc
first-Least i (suc k) used id e = elim (Bool-cases (contains used i)) [
  | inl taken ↦
      let (free, low, high, least) = first-Least (suc i) k used id (rw taken at e) in
      (
        free,
        omega arith,
        omega arith,
        λ j above below. elim (Bool-cases (j == i)) [
          | inl same ↦ rw ((==_iff j i).0 same) taken
          | inr other ↦ least j (ground arith) below
        ],
      )
  | inr free ↦
      let same : i ≡ id = ground arith in
      (rw (← same) free, omega arith, omega arith, λ j above below. absurd (omega arith))
]

pub length-map {ℓ} : {A : Type ℓ} (f : A → ℕ) (xs : List A) → length (map f xs) ≡ length xs
length-map f [] = refl
length-map f (x ∷ xs) = ap suc (length-map f xs)

-- How the slots change.
contains-append :
    (ids : List ℕ) (id x : ℕ) → contains (ids ++ (id ∷ [])) x ≡ (contains ids x || x == id)
contains-append [] id x = ground arith
contains-append (y ∷ ids) id x = ground (arith, contains-append ids id x)

Distinct-append :
    (ids : List ℕ) (id : ℕ) → Distinct ids → contains ids id ≡ false → Distinct (ids ++ (id ∷ []))
Distinct-append [] id d free = (refl, tt)
Distinct-append (x ∷ ids) id d free =
    (ground (arith, contains-append ids id x), Distinct-append ids id d.1 (ground arith))

map-append_one {ℓ} :
    {A : Type ℓ} (f : A → ℕ) (xs : List A) (x : A) → map f (xs ++ (x ∷ [])) ≡ map f xs ++ (f x ∷ [])
map-append_one f [] x = refl
map-append_one f (y ∷ xs) x = ap (◌∷◌ (f y)) (map-append_one f xs x)

Below-append : (n : ℕ) (ids : List ℕ) (id : ℕ) → Below n ids → id < n → Below n (ids ++ (id ∷ []))
Below-append n [] id b h = (h, tt)
Below-append n (x ∷ ids) id b h = (b.0, Below-append n ids id b.1 h)

-- One more execution, on a free worker.
pub SlotsFit-append :
    (n : ℕ) (ps : List InProgressState) (p : InProgressState)
    → SlotsFit n (map (λ q. q.worker_id) ps)
    → length ps < n
    → contains (map (λ q. q.worker_id) ps) p.worker_id ≡ false
    → p.worker_id < n
    → SlotsFit n (map (λ q. q.worker_id) (ps ++ (p ∷ [])))
SlotsFit-append n ps p (fits, distinct, below) space free low =
    rw (map-append_one (λ (q : InProgressState). q.worker_id) ps p) (
      omega (
        arith,
        length-append {0} (map (λ q. q.worker_id) ps) (p.worker_id ∷ []),
        length-map (λ (q : InProgressState). q.worker_id) ps,
      ),
      Distinct-append _ _ distinct free,
      Below-append n _ _ below low,
    )

contains-remove :
    (p : InProgressState → Bool) (ps : List InProgressState) (x : ℕ)
    → contains (map (λ q. q.worker_id) ps) x ≡ false
    → contains (map (λ q. q.worker_id) (remove_first p ps)) x ≡ false
contains-remove p [] x h = refl
contains-remove p (q ∷ ps) x h = ground (arith, contains-remove p ps x)

abbrev pub ids_of : List InProgressState → List ℕ
ids_of = map (λ q. q.worker_id)

length-remove :
    (p : InProgressState → Bool) (ps : List InProgressState)
    → length (ids_of (remove_first p ps)) ≤ length (ids_of ps)
length-remove p [] = omega arith
length-remove p (q ∷ ps) = ground (arith, length-remove p ps)

Distinct-remove :
    (p : InProgressState → Bool) (ps : List InProgressState)
    → Distinct (ids_of ps)
    → Distinct (ids_of (remove_first p ps))
Distinct-remove p [] d = tt
Distinct-remove p (q ∷ ps) d = elim (Bool-cases (p q)) [
  | inl e ↦ rw e (d.1)
  | inr e ↦ rw e (contains-remove p ps q.worker_id d.0, Distinct-remove p ps d.1)
]

Below-remove :
    (n : ℕ) (p : InProgressState → Bool) (ps : List InProgressState)
    → Below n (ids_of ps)
    → Below n (ids_of (remove_first p ps))
Below-remove n p [] b = tt
Below-remove n p (q ∷ ps) b = elim (Bool-cases (p q)) [
  | inl e ↦ rw e (b.1)
  | inr e ↦ rw e (b.0, Below-remove n p ps b.1)
]

-- An execution less.
pub SlotsFit-remove :
    (n : ℕ) (p : InProgressState → Bool) (ps : List InProgressState)
    → SlotsFit n (ids_of ps)
    → SlotsFit n (ids_of (remove_first p ps))
SlotsFit-remove n p ps (fits, distinct, below) =
    (omega (arith, length-remove p ps), Distinct-remove p ps distinct, Below-remove n p ps below)

pub SlotsFit-nil : (n : ℕ) → SlotsFit n []
SlotsFit-nil n = (omega arith, tt, tt)
