-- ===== src/Naming/Splitting.antt =====
-- Splitting at slashes and joining with them are inverse to each other (`StepId.from_str` and
-- `StepId.__str__` of workflows/runtime/types/step_id.py).
use Prim.Native.Char.{Char}
use Prim.Native.String.{◌++◌ as text_append}
use Prim.Native.String.append
use llama_agents.Prelude.{
  ◌≡◌, refl, sym, ap, ◌∙◌, String, Bool, true, not, ◌&&◌, List, [], ◌∷◌, join, All, arith,
  Bool-cases, inl, inr, eq_iff,
}
use llama_agents.Naming.{is_slash, onto_first, split}

-- No character of the text is a slash.
unfoldable pub slash_free : String → Bool
unfolding is_slash
slash_free String.[] = true
slash_free (String.◌∷◌ c s) = not (is_slash c) && slash_free s

split-part : (s : String) → slash_free s ≡ true → split s ≡ s ∷ []
unfolding split slash_free onto_first
split-part String.[] h = refl
split-part (String.◌∷◌ c s) h = elim (Bool-cases (is_slash c)) [
  | inl slash ↦ absurd (ground arith)
  | inr other ↦ rw (other, split-part s (rw other at h)) refl
]

nil_first : (t : String) → text_append String.[] t ≡ t
nil_first t = λ i. append.nil t i

cons_first :
    (c : Char) (s t : String) → text_append (String.◌∷◌ c s) t ≡ String.◌∷◌ c (text_append s t)
cons_first c s t = λ i. append.cons c s t i

slash_first : (t : String) → text_append "/" t ≡ String.◌∷◌ "/" t
slash_first t = cons_first "/" String.[] t ∙ ap (String.◌∷◌ "/") (nil_first t)

split-slash : (t : String) → split (text_append "/" t) ≡ String.[] ∷ split t
unfolding split is_slash
split-slash t = rw (slash_first t) refl

split-append :
    (s t : String) → slash_free s ≡ true → split (text_append s (text_append "/" t)) ≡ s ∷ split t
unfolding split slash_free onto_first is_slash
split-append String.[] t h = rw (nil_first (text_append "/" t)) (split-slash t)
split-append (String.◌∷◌ c s) t h = elim (Bool-cases (is_slash c)) [
  | inl slash ↦ absurd (ground arith)
  | inr other ↦
      rw (cons_first c s (text_append "/" t), other, split-append s t (rw other at h)) refl
]

-- Joined parts without slashes are split again.
pub split-join :
    (part : String) (parts : List String)
    → All (λ s. slash_free s ≡ true) (part ∷ parts)
    → split (join "/" (part ∷ parts)) ≡ part ∷ parts
unfolding join
split-join part [] h = split-part part h.0
split-join part (next ∷ parts) h =
    split-append part (join "/" (next ∷ parts)) h.0
    ∙ ap (λ ps. part ∷ ps) (split-join next parts h.1)

-- Conversely, the parts of a text are joined to the text.
join-onto_first :
    (c : Char) (part : String) (parts : List String)
    → join "/" (onto_first c (part ∷ parts)) ≡ String.◌∷◌ c (join "/" (part ∷ parts))
unfolding join onto_first
join-onto_first c part [] = refl
join-onto_first c part (next ∷ parts) =
    cons_first c part (text_append "/" (join "/" (next ∷ parts)))

-- A text has a part.
pub split-parts : (s : String) → (part : String) × (parts : List String) × (split s ≡ part ∷ parts)
unfolding split onto_first
split-parts String.[] = (String.[], [], refl)
split-parts (String.◌∷◌ c s) =
    let (part, parts, e) = split-parts s in
    elim (Bool-cases (is_slash c)) [
      | inl slash ↦ (String.[], split s, rw slash refl)
      | inr other ↦ (String.◌∷◌ c part, parts, rw (other, e) refl)
    ]

the_slash : (c : Char) → is_slash c ≡ true → String.◌∷◌ c String.[] ≡ "/"
unfolding is_slash
the_slash c h = ground (arith, eq_iff (String.◌∷◌ c String.[]) "/")

pub join-split : (s : String) → join "/" (split s) ≡ s
unfolding join split
join-split String.[] = refl
join-split (String.◌∷◌ c s) =
    let (part, parts, e) = split-parts s in
    let back : join "/" (part ∷ parts) ≡ s = sym (ap (join "/") e) ∙ join-split s in
    elim (Bool-cases (is_slash c)) [
      | inl slash ↦
          rw (slash, e)
            (nil_first (text_append "/" (join "/" (part ∷ parts)))
              ∙ ap (text_append "/") back
              ∙ ap (λ x. text_append x s) (sym (the_slash c slash))
              ∙ cons_first c String.[] s
              ∙ ap (String.◌∷◌ c) (nil_first s))
      | inr other ↦ rw (other, e) (join-onto_first c part parts ∙ ap (String.◌∷◌ c) back)
    ]
