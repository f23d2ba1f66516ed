-- ===== src/Storing/Unique.antt =====
-- Python dictionaries hold each key once: what that says of the association lists of
-- Prelude/Mapping.
use llama_agents.Prelude.{
  ◌≡◌, refl, ◌∙◌, inl, inr, String, false, none, [], ◌∷◌, str_eq, eq_iff, arith, Bool-cases, Dict,
  lookup, assign, delete, lookup-assign, Unique,
}

module _ {ℓ} {V : Type ℓ} where
  pub lookup-delete_other :
      (k j : String) (d : Dict V) → str_eq k j ≡ false → lookup j (delete k d) ≡ lookup j d
  unfolding lookup delete
  lookup-delete_other k j [] h = refl
  lookup-delete_other k j ((i, w) ∷ d) h =
      ground (arith, eq_iff k j, eq_iff i k, eq_iff i j, h, lookup-delete_other k j d h)

  pub lookup-delete_same : (k : String) (d : Dict V) → Unique d → lookup k (delete k d) ≡ none
  unfolding lookup delete
  lookup-delete_same k [] u = refl
  lookup-delete_same k ((i, w) ∷ d) u = ground (arith, eq_iff i k, u.0, lookup-delete_same k d u.1)

  pub Unique-delete : (k : String) (d : Dict V) → Unique d → Unique (delete k d)
  unfolding delete
  Unique-delete k [] u = tt
  Unique-delete k ((i, w) ∷ d) u = elim (Bool-cases (str_eq i k)) [
    | inl same ↦ rw same u.1
    | inr other ↦ rw other (
      lookup-delete_other k i d (ground (arith, eq_iff i k, eq_iff k i, other)) ∙ u.0,
      Unique-delete k d u.1,
    )
  ]

  pub Unique-assign : (k : String) (v : V) (d : Dict V) → Unique d → Unique (assign k v d)
  unfolding assign lookup
  Unique-assign k v [] u = (refl, tt)
  Unique-assign k v ((i, w) ∷ d) u = elim (Bool-cases (str_eq i k)) [
    | inl same ↦ rw same u
    | inr other ↦ rw other (
      ground (arith, lookup-assign k i v d, eq_iff i k, eq_iff k i, other, u.0),
      Unique-assign k v d u.1,
    )
  ]
