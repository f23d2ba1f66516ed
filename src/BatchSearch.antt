-- ===== src/BatchSearch.antt =====
-- The backtracking search of `_select_static_collect_batch` of
-- workflows/runtime/control_loop/reduce.py against what a complete batch is.
use llama_agents.Prelude.{
  ℕ, suc, ◌+◌, ◌≤◌, ◌≡◌, sym, ap, subst, String, Bool, true, false, Option, none, some,
  some-injective, List, [], ◌∷◌, contains, get_elem?, Bool-cases, Option-cases, arith, inl, inr,
  Returns, Dict, assign, ◌==◌, ==_iff, ◌-◌, ◌∙◌,
}
use llama_agents.Types.{Class, Event, World}
use llama_agents.Matching.{event_matches}
use llama_agents.StaticCollect.{try_events, search_batch, select_static_collect_batch, bind_batch}

module _ (w : World) (allow_subclasses : Bool) (events : List Event) where
  -- The event at an index is there and has the type.
  abbrev pub Fits : Class → ℕ → Type 0
  Fits event_type index =
      (e : Event) × (get_elem? events index ≡ some e)
      × (event_matches w allow_subclasses e event_type ≡ true)

  -- A batch: for each parameter an index of an event of its type, none of them used before.
  abbrev pub IsBatch : List (String × Class) → List ℕ → List ℕ → Type 0
  IsBatch [] used [] = Unit
  IsBatch [] used (i ∷ is) = ⊥
  IsBatch (p ∷ params) used [] = ⊥
  IsBatch ((_, event_type) ∷ params) used (i ∷ is) =
      (contains used i ≡ false) × Fits event_type i × IsBatch params (i ∷ used) is

  abbrev Tried : Class → List (String × Class) → List ℕ → List ℕ → Type 0
  Tried event_type params used [] = ⊥
  Tried event_type params used (i ∷ is) =
      (contains used i ≡ false) × Fits event_type i × IsBatch params (i ∷ used) is

  Tried-IsBatch :
      (name : String) (event_type : Class) (params : List (String × Class)) (used is : List ℕ)
      → Tried event_type params used is
      → IsBatch ((name, event_type) ∷ params) used is
  Tried-IsBatch name event_type params used [] t = t
  Tried-IsBatch name event_type params used (i ∷ is) t = t

  -- Position `j` of a suffix of `events` is index `offset + j`.
  abbrev Suffix : ℕ → List Event → Type 0
  Suffix offset suffix = (j : ℕ) → get_elem? suffix j ≡ get_elem? events (offset + j)

  whole_suffix : Suffix 0 events
  whole_suffix j = ap (get_elem? events) (omega arith)

  tail_suffix :
      (offset : ℕ) (e : Event) (suffix : List Event)
      → Suffix offset (e ∷ suffix)
      → Suffix (suc offset) suffix
  tail_suffix offset e suffix h j =
      subst (λ k. get_elem? suffix j ≡ get_elem? events k) (omega arith) (h (suc j))

  head_suffix :
      (offset : ℕ) (e : Event) (suffix : List Event)
      → Suffix offset (e ∷ suffix)
      → get_elem? events offset ≡ some e
  head_suffix offset e suffix h = subst (λ k. get_elem? events k ≡ some e) (omega arith) (sym (h 0))

  module _ (event_type : Class) (params : List (String × Class))
      (sound_rest : (used is : List ℕ)
        → search_batch w allow_subclasses events params used ≡ some is
        → IsBatch params used is)
      (used : List ℕ) where
    abbrev matches : Event → Bool
    matches e = event_matches w allow_subclasses e event_type

    abbrev rest_of : List ℕ → Option (List ℕ)
    rest_of = search_batch w allow_subclasses events params

    try_sound :
        (offset : ℕ) (suffix : List Event) (is : List ℕ)
        → Suffix offset suffix
        → try_events matches rest_of used offset suffix ≡ some is
        → Tried event_type params used is
    unfolding try_events
    try_sound offset [] is h e = cc
    try_sound offset (c ∷ suffix) is h e =
        let later = try_sound (suc offset) suffix is (tail_suffix offset c suffix h) in
        elim (Bool-cases (contains used offset)) [
          | inl taken ↦ later (rw taken at e)
          | inr free ↦ elim (Bool-cases (matches c)) [
            | inr other ↦ later (rw (free, other) at e)
            | inl fits ↦ elim (Option-cases (rest_of (offset ∷ used))) [
              | inl nothing ↦ later (rw (free, fits, nothing) at e)
              | inr (found, r) ↦
                  subst (Tried event_type params used)
                    (some-injective (offset ∷ found) is (rw (free, fits, r) at e))
                    (
                      free,
                      (c, head_suffix offset c suffix h, fits),
                      sound_rest (offset ∷ used) found r,
                    )
            ]
          ]
        ]

  search_sound :
      (params : List (String × Class)) (used is : List ℕ)
      → search_batch w allow_subclasses events params used ≡ some is
      → IsBatch params used is
  unfolding search_batch
  search_sound [] used [] e = tt
  search_sound [] used (i ∷ is) e = cc
  search_sound ((name, event_type) ∷ params) used is e =
      Tried-IsBatch name event_type params used is
        (try_sound event_type params (search_sound params) used 0 events is whole_suffix e)

  -- A batch gives every parameter its event.
  bind_batch-IsBatch :
      (params : List (String × Class)) (used is : List ℕ) (binding : Dict Event)
      → IsBatch params used is
      → Returns (λ b. Unit) (bind_batch events params is binding)
  unfolding bind_batch
  bind_batch-IsBatch [] used [] binding h = tt
  bind_batch-IsBatch [] used (i ∷ is) binding h = absurd h
  bind_batch-IsBatch (p ∷ params) used [] binding h = absurd h
  bind_batch-IsBatch ((name, event_type) ∷ params) used (i ∷ is) binding
        (free, (e, at_i, fits), rest) =
      rw at_i (bind_batch-IsBatch params (i ∷ used) is (assign name e binding) rest)

  -- The indices that the search selects are a complete batch: one for each parameter, in range, all
  -- different, each of an event of the parameter's type. The binding that is built from them never
  -- raises.
  pub select_static_collect_batch-IsBatch :
      (params : List (String × Class)) (is : List ℕ)
      → select_static_collect_batch w allow_subclasses events params ≡ some is
      → IsBatch params [] is × Returns (λ b. Unit) (bind_batch events params is [])
  unfolding select_static_collect_batch
  select_static_collect_batch-IsBatch params is e =
      let batch = search_sound params [] is e in (batch, bind_batch-IsBatch params [] is [] batch)

  Fits-in_range :
      (event_type : Class) (i offset : ℕ) → Suffix offset [] → offset ≤ i → Fits event_type i → ⊥
  Fits-in_range event_type i offset h low (e, at_i, fits) =
      let past : none ≡ get_elem? events i =
        subst (λ k. none ≡ get_elem? events k) (omega arith) (h (i - offset)) in
      cc

  module _ (event_type : Class) (params : List (String × Class))
      (complete_rest : (used is : List ℕ)
        → search_batch w allow_subclasses events params used ≡ none
        → IsBatch params used is
        → ⊥)
      (used : List ℕ) (i : ℕ) (is : List ℕ) (free : contains used i ≡ false)
      (fits : Fits event_type i) (batch : IsBatch params (i ∷ used) is) where
    abbrev matches' : Event → Bool
    matches' e = event_matches w allow_subclasses e event_type

    abbrev tries : ℕ → List Event → Option (List ℕ)
    tries = try_events matches' (search_batch w allow_subclasses events params) used

    -- At the index itself the search does not pass on.
    try_here :
        (c : Event) (suffix : List Event)
        → get_elem? events i ≡ some c
        → tries i (c ∷ suffix) ≡ none
        → ⊥
    unfolding try_events
    try_here c suffix at_c e =
        let (c', at_c', good) = fits in
        let same : c' ≡ c = some-injective c' c (sym at_c' ∙ at_c) in
        let ok' : matches' c ≡ true = subst (λ x. matches' x ≡ true) same good in
        elim (Option-cases (search_batch w allow_subclasses events params (i ∷ used))) [
          | inl nothing ↦ complete_rest (i ∷ used) is nothing batch
          | inr (found, r) ↦ let stopped : some (i ∷ found) ≡ none = rw (free, ok', r) at e in cc
        ]

    try_past :
        (offset : ℕ) (c : Event) (suffix : List Event)
        → tries offset (c ∷ suffix) ≡ none
        → tries (suc offset) suffix ≡ none
    unfolding try_events
    try_past offset c suffix e = elim (Bool-cases (contains used offset)) [
      | inl taken ↦ rw taken at e
      | inr unused ↦ elim (Bool-cases (matches' c)) [
        | inr other ↦ rw (unused, other) at e
        | inl good ↦
            elim (Option-cases (search_batch w allow_subclasses events params (offset ∷ used))) [
              | inl nothing ↦ rw (unused, good, nothing) at e
              | inr (found, r) ↦
                  let stopped : some (offset ∷ found) ≡ none = rw (unused, good, r) at e in cc
            ]
      ]
    ]

    -- Index `i` completes a batch, so the search does not give up before it.
    try_complete :
        (offset : ℕ) (suffix : List Event)
        → Suffix offset suffix
        → offset ≤ i
        → tries offset suffix ≡ none
        → ⊥
    try_complete offset [] h low e = Fits-in_range event_type i offset h low fits
    try_complete offset (c ∷ suffix) h low e =
        let later = λ (above : suc offset ≤ i).
          try_complete (suc offset) suffix (tail_suffix offset c suffix h) above
            (try_past offset c suffix e) in
        elim (Bool-cases (i == offset)) [
          | inl here ↦
              let same = (==_iff i offset).0 here in
              try_here c suffix (rw same (head_suffix offset c suffix h))
                (subst (λ k. tries k (c ∷ suffix) ≡ none) (sym same) e)
          | inr ahead ↦ later (ground arith)
        ]

  search_complete :
      (params : List (String × Class)) (used is : List ℕ)
      → search_batch w allow_subclasses events params used ≡ none
      → IsBatch params used is
      → ⊥
  unfolding search_batch
  search_complete [] used is e batch = cc
  search_complete ((name, event_type) ∷ params) used [] e batch = batch
  search_complete ((name, event_type) ∷ params) used (i ∷ is) e (free, fits, batch) =
      try_complete event_type params (search_complete params) used i is free fits batch 0 events
        whole_suffix (omega arith) e

  -- The search finds a batch whenever there is one: if it selects nothing, no choice of indices is
  -- a complete batch.
  pub select_static_collect_batch-none :
      (params : List (String × Class)) (is : List ℕ)
      → select_static_collect_batch w allow_subclasses events params ≡ none
      → ¬ IsBatch params [] is
  unfolding select_static_collect_batch
  select_static_collect_batch-none params is = search_complete params [] is
