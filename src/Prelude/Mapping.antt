-- ===== src/Prelude/Mapping.antt =====
-- Python's `dict` with string keys: an association list in insertion order. Assigning to a key that
-- is there keeps its place.
use Prim.Native.Nat.{Ordering}
use Prim.Native.String.{String, compare}
use mathlib.Core.Path.{◌≡◌, refl, subst, ◌∙◌}
use mathlib.Core.Logic.{inl, inr}
use mathlib.Core.Bool.{Bool, true, false, ◌||◌}
use mathlib.Core.Option.{Option, none, some, some-injective}
use mathlib.Core.List.{List, [], ◌∷◌}
use native.Mathlib.Omega.{arith}
use text.Mathlib.TextEquality.{eq_iff}
use text.Mathlib.TextPositions.{eq_refl}
use llama_agents.Prelude.Tests.{str_eq, is_some, Bool-cases, if◌then◌else◌}
use llama_agents.Prelude.Lists.{All, member}

abbrev pub Dict {ℓ} : Type ℓ → Type ℓ
Dict V = List (String × V)

module _ {ℓ} {V : Type ℓ} where
  -- `d.get(k)`
  unfoldable pub lookup : String → Dict V → Option V
  lookup k [] = none
  lookup k ((j, v) ∷ d) = if str_eq j k then some v else lookup k d

  -- `d[k] = v`
  unfoldable pub assign : String → V → Dict V → Dict V
  assign k v [] = (k, v) ∷ []
  assign k v ((j, w) ∷ d) =
      let rest = assign k v d in if str_eq j k then (j, v) ∷ d else (j, w) ∷ rest

  -- `d.pop(k, None)`, the dictionary that is left
  unfoldable pub delete : String → Dict V → Dict V
  delete k [] = []
  delete k ((j, w) ∷ d) = let rest = delete k d in if str_eq j k then d else (j, w) ∷ rest

  abbrev pub keys : Dict V → List String
  keys [] = []
  keys ((k, _) ∷ d) = k ∷ keys d

  abbrev pub values : Dict V → List V
  values [] = []
  values ((_, v) ∷ d) = v ∷ values d

  pub lookup-assign :
      (k j : String) (v : V) (d : Dict V)
      → lookup j (assign k v d) ≡ (if str_eq k j then some v else lookup j d)
  unfolding lookup assign
  lookup-assign k j v [] = refl
  lookup-assign k j v ((i, w) ∷ d) =
      ground (arith, eq_iff k j, eq_iff i k, eq_iff i j, lookup-assign k j v d)

  pub lookup-assign_same : (k : String) (v : V) (d : Dict V) → lookup k (assign k v d) ≡ some v
  lookup-assign_same k v d = rw (lookup-assign k k v d, eq_refl k) refl

  pub assign-assign : (k : String) (v w : V) (d : Dict V) → assign k w (assign k v d) ≡ assign k w d
  unfolding assign
  assign-assign k v w [] = rw (eq_refl k) refl
  assign-assign k v w ((j, x) ∷ d) = elim (Bool-cases (str_eq j k)) [
    | inl same ↦ rw (same, same) refl
    | inr other ↦ rw (other, other, assign-assign k v w d) refl
  ]

  pub delete-assign : (k : String) (v : V) (d : Dict V) → delete k (assign k v d) ≡ delete k d
  unfolding delete assign
  delete-assign k v [] = rw (eq_refl k) refl
  delete-assign k v ((j, x) ∷ d) = elim (Bool-cases (str_eq j k)) [
    | inl same ↦ rw (same, same) refl
    | inr other ↦ rw (other, other, delete-assign k v d) refl
  ]

  pub delete-absent : (k : String) (d : Dict V) → lookup k d ≡ none → delete k d ≡ d
  unfolding delete lookup
  delete-absent k [] e = refl
  delete-absent k ((j, x) ∷ d) e = elim (Bool-cases (str_eq j k)) [
    | inl same ↦ let bad = rw same at e in cc
    | inr other ↦ rw (other, delete-absent k d (rw other at e)) refl
  ]

  module _ {κ} (P : V → Type κ) where
    pub All-assign :
        (k : String) (v : V) (d : Dict V) → P v → All P (values d) → All P (values (assign k v d))
    unfolding assign
    All-assign k v [] p h = (p, tt)
    All-assign k v ((j, w) ∷ d) p h = elim (Bool-cases (str_eq j k)) [
      | inl e ↦ rw e (p, h.1)
      | inr e ↦ rw e (h.0, All-assign k v d p h.1)
    ]

    pub All-delete : (k : String) (d : Dict V) → All P (values d) → All P (values (delete k d))
    unfolding delete
    All-delete k [] h = tt
    All-delete k ((j, w) ∷ d) h = elim (Bool-cases (str_eq j k)) [
      | inl e ↦ rw e (h.1)
      | inr e ↦ rw e (h.0, All-delete k d h.1)
    ]

    pub All-lookup :
        (k : String) (d : Dict V) (v : V) → All P (values d) → lookup k d ≡ some v → P v
    unfolding lookup
    All-lookup k [] v h e = cc
    All-lookup k ((j, w) ∷ d) v h e = elim (Bool-cases (str_eq j k)) [
      | inl same ↦ subst P (some-injective w v (rw same at e)) h.0
      | inr other ↦ All-lookup k d v h.1 (rw other at e)
    ]

-- The keys in the order of `sorted(d.items(), key=lambda x: x[0])`.
text_le : String → String → Bool
text_le a b = elim (compare a b) [ Ordering.gt ↦ false | _ ↦ true ]

insert_key : String → List String → List String
unfolding text_le
insert_key k [] = k ∷ []
insert_key k (j ∷ ks) = let rest = insert_key k ks in if text_le k j then k ∷ j ∷ ks else j ∷ rest

sort_keys : List String → List String
unfolding insert_key
sort_keys [] = []
sort_keys (k ∷ ks) = insert_key k (sort_keys ks)

unfoldable pub sorted_keys {ℓ} : {V : Type ℓ} → Dict V → List String
unfolding sort_keys
sorted_keys d = sort_keys (keys d)

member-insert :
    (k : String) (ks : List String) (j : String)
    → member (insert_key k ks) j ≡ (str_eq k j || member ks j)
unfolding insert_key
member-insert k [] j = refl
member-insert k (i ∷ ks) j = elim (Bool-cases (text_le k i)) [
  | inl before ↦ rw before refl
  | inr after ↦ rw (after, member-insert k ks j) (ground arith)
]

member-sort : (ks : List String) (j : String) → member (sort_keys ks) j ≡ member ks j
unfolding sort_keys
member-sort [] j = refl
member-sort (k ∷ ks) j = rw (member-insert k (sort_keys ks) j, member-sort ks j) refl

member-keys {ℓ} : {V : Type ℓ} (d : Dict V) (j : String) → member (keys d) j ≡ is_some (lookup j d)
unfolding lookup
member-keys [] j = refl
member-keys ((k, v) ∷ d) j = elim (Bool-cases (str_eq k j)) [
  | inl same ↦ rw same refl
  | inr other ↦ rw other (member-keys d j)
]

-- The sorted keys are the keys that are there.
pub member-sorted_keys {ℓ} :
    {V : Type ℓ} (d : Dict V) (j : String) → member (sorted_keys d) j ≡ is_some (lookup j d)
unfolding sorted_keys
member-sorted_keys d j = member-sort (keys d) j ∙ member-keys d j

-- Python dictionaries hold each key once.
abbrev pub Unique {ℓ} : {V : Type ℓ} → Dict V → Type ℓ
Unique [] = Unit
Unique ((k, v) ∷ d) = (lookup k d ≡ none) × Unique d

abbrev pub Distinct : List String → Type 0
Distinct [] = Unit
Distinct (k ∷ ks) = (member ks k ≡ false) × Distinct ks

insert-Distinct :
    (k : String) (ks : List String) → member ks k ≡ false → Distinct ks → Distinct (insert_key k ks)
unfolding insert_key
insert-Distinct k [] new d = (refl, tt)
insert-Distinct k (j ∷ ks) new d = elim (Bool-cases (text_le k j)) [
  | inl before ↦ rw before (new, d)
  | inr after ↦ rw after (
    member-insert k ks j ∙ ground (arith, new, d.0, eq_iff j k, eq_iff k j),
    insert-Distinct k ks (ground (arith, new)) d.1,
  )
]

sort-Distinct : (ks : List String) → Distinct ks → Distinct (sort_keys ks)
unfolding sort_keys
sort-Distinct [] d = tt
sort-Distinct (k ∷ ks) d =
    insert-Distinct k (sort_keys ks) (member-sort ks k ∙ d.0) (sort-Distinct ks d.1)

keys-Distinct {ℓ} : {V : Type ℓ} (d : Dict V) → Unique d → Distinct (keys d)
keys-Distinct [] u = tt
keys-Distinct ((k, v) ∷ d) u = (member-keys d k ∙ rw u.0 refl, keys-Distinct d u.1)

pub sorted_keys-Distinct {ℓ} : {V : Type ℓ} (d : Dict V) → Unique d → Distinct (sorted_keys d)
unfolding sorted_keys
sorted_keys-Distinct d u = sort-Distinct (keys d) (keys-Distinct d u)
