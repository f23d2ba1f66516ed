-- ===== src/Naming/RoundTrip.antt =====
-- The texts of step identities and the identities that they are read as
-- (workflows/runtime/types/step_id.py).
use llama_agents.Prelude.{
  ◌≡◌, refl, sym, ap, ◌∙◌, String, true, false, List, [], ◌∷◌, ◌++◌, All, any, init, last?, get_or,
  some, join, ok, raise, Bool-cases, inl, inr, Result,
}
use llama_agents.Types.{StepId, step_key}
use llama_agents.Naming.{
  split, ValueError, empty_name, empty_part, is_empty_text, step_id_of, from_parts, from_str,
}
use llama_agents.Naming.Splitting.{slash_free, split-join, split-parts, join-split}

-- A text that can stand for a step or a namespace.
abbrev pub IsName : String → Type 0
IsName s = (slash_free s ≡ true) × (is_empty_text s ≡ false)

module _ {A : Type 0} where
  init-snoc : (xs : List A) (x : A) → init (xs ++ x ∷ []) ≡ xs
  init-snoc [] x = refl
  init-snoc (y ∷ []) x = refl
  init-snoc (y ∷ z ∷ xs) x = ap (λ ys. y ∷ ys) (init-snoc (z ∷ xs) x)

  last-snoc : (xs : List A) (x : A) → last? (xs ++ x ∷ []) ≡ some x
  last-snoc [] x = refl
  last-snoc (y ∷ []) x = refl
  last-snoc (y ∷ z ∷ xs) x = last-snoc (z ∷ xs) x

  init-last :
      (y : A) (xs : List A) (d : A) → init (y ∷ xs) ++ get_or (last? (y ∷ xs)) d ∷ [] ≡ y ∷ xs
  init-last y [] d = refl
  init-last y (z ∷ xs) d = ap (λ ys. y ∷ ys) (init-last z xs d)

raised≢made : (x : ValueError) (id : StepId) → raise x ≡ ok id → ⊥
raised≢made x id e = cc

ok-injective : (a b : StepId) → Path (Result ValueError StepId) (ok a) (ok b) → a ≡ b
ok-injective a b e = cc

none_empty : (ns : List String) → All IsName ns → any is_empty_text ns ≡ false
none_empty [] h = refl
none_empty (n ∷ ns) h = rw (h.0.1, none_empty ns h.1) refl

valid :
    (ns : List String) (name : String)
    → All IsName ns
    → IsName name
    → step_id_of ns name ≡ ok (record { namespace = ns; name = name })
unfolding step_id_of
valid ns name h k = rw (k.1, none_empty ns h) refl

slash_free_parts :
    (ns : List String) (name : String)
    → All IsName ns
    → IsName name
    → All (λ s. slash_free s ≡ true) (ns ++ name ∷ [])
slash_free_parts [] name h k = (k.0, tt)
slash_free_parts (n ∷ ns) name h k = (h.0.0, slash_free_parts ns name h.1 k)

from_parts-snoc :
    (value part : String) (ns : List String) (name : String)
    → from_parts value (part ∷ ns ++ name ∷ []) ≡ step_id_of (part ∷ ns) name
unfolding from_parts
from_parts-snoc value part [] name = refl
from_parts-snoc value part (n ∷ ns) name =
    rw (init-snoc (n ∷ ns) name, last-snoc (n ∷ ns) name) refl

parts_back :
    (ns : List String) (name : String)
    → All IsName ns
    → IsName name
    → from_str (step_key (record { namespace = ns; name = name }))
      ≡ ok (record { namespace = ns; name = name })
unfolding from_str step_key from_parts
parts_back [] name h k = ap (from_parts name) (split-join name [] (k.0, tt)) ∙ valid [] name h k
parts_back (n ∷ ns) name h k =
    ap (from_parts (join "/" (n ∷ ns ++ name ∷ []))) (joined ns)
    ∙ from_parts-snoc (join "/" (n ∷ ns ++ name ∷ [])) n ns name
    ∙ valid (n ∷ ns) name h k
  where
    joined : (ms : List String) → split (join "/" (n ∷ ns ++ name ∷ [])) ≡ n ∷ ns ++ name ∷ []
    joined ms = split-join n (ns ++ name ∷ []) (slash_free_parts (n ∷ ns) name h k)

-- The text of an identity whose parts are non-empty and without slashes is read as the identity.
pub from_str-step_key :
    (id : StepId) → All IsName id.namespace → IsName id.name → from_str (step_key id) ≡ ok id
from_str-step_key id h k = parts_back id.namespace id.name h k

made_of :
    (ns : List String) (name : String) (id : StepId)
    → step_id_of ns name ≡ ok id
    → record { namespace = ns; name = name } ≡ id
unfolding step_id_of
made_of ns name id e = elim (Bool-cases (is_empty_text name)) [
  | inl empty ↦ absurd (raised≢made empty_name id (rw (empty, step_id_of) at e))
  | inr named ↦ elim (Bool-cases (any is_empty_text ns)) [
    | inl empty ↦ absurd (raised≢made empty_part id (rw (named, empty, step_id_of) at e))
    | inr full ↦ ok-injective _ id (rw (named, full, step_id_of) at e)
  ]
]

text_back :
    (value part : String) (parts : List String) (id : StepId)
    → join "/" (part ∷ parts) ≡ value
    → from_parts value (part ∷ parts) ≡ ok id
    → step_key id ≡ value
unfolding from_parts step_key
text_back value part [] id back e = sym (ap step_key (made_of [] value id e))
text_back value part (next ∷ parts) id back e =
    let all_parts = init-last part (next ∷ parts) value in
    sym (ap step_key (made_of (init (part ∷ next ∷ parts)) _ id e)) ∙ ap (join "/") all_parts ∙ back

-- Conversely, an identity that is read from a text has that text.
pub step_key-from_str :
    (value : String) (id : StepId) → from_str value ≡ ok id → step_key id ≡ value
unfolding from_str
step_key-from_str value id e =
    let (part, parts, cut) = split-parts value in
    text_back value part parts id (sym (ap (join "/") cut) ∙ join-split value) (rw cut at e)
