-- ===== src/Naming.antt =====
-- Step identities as text: workflows/runtime/types/step_id.py.
pub mod Splitting
pub mod RoundTrip
use Prim.Native.Char.{Char}
use llama_agents.Prelude.{
  ℕ, ◌==◌, ◌≡◌, refl, sym, ap, ◌∙◌, String, Bool, true, false, not, ◌||◌, List, [], ◌∷◌, ◌++◌, any,
  init, last?, get_or, ◌&&◌, All, arith, Bool-cases, inl, inr, str_eq, join, if◌then◌else◌, Option,
  none, some, Result, ok, raise,
}
use llama_agents.Types.{StepId, root, step_key}

unfoldable pub is_slash : Char → Bool
is_slash c = str_eq (String.◌∷◌ c String.[]) "/"

-- A character before the first part.
unfoldable pub onto_first : Char → List String → List String
onto_first c [] = String.◌∷◌ c String.[] ∷ []
onto_first c (part ∷ parts) = String.◌∷◌ c part ∷ parts

-- `value.split("/")`
unfoldable pub split : String → List String
unfolding is_slash onto_first
split String.[] = String.[] ∷ []
split (String.◌∷◌ c s) =
    let parts = split s in if is_slash c then String.[] ∷ parts else onto_first c parts

-- `StepId(...)` checks its parts.
pub data ValueError : Type 0 where
  empty_name empty_part : ValueError

unfoldable pub is_empty_text : String → Bool
is_empty_text String.[] = true
is_empty_text (String.◌∷◌ c s) = false

unfoldable pub step_id_of : List String → String → Result ValueError StepId
unfolding is_empty_text
step_id_of namespace name =
    if is_empty_text name
    then raise empty_name
    else if any is_empty_text namespace
    then raise empty_part
    else ok (record { namespace = namespace; name = name })

unfoldable pub from_parts : String → List String → Result ValueError StepId
unfolding step_id_of
from_parts value [] = step_id_of [] value
from_parts value (part ∷ []) = step_id_of [] value
from_parts value (part ∷ next ∷ parts) =
    step_id_of (init (part ∷ next ∷ parts)) (get_or (last? (part ∷ next ∷ parts)) value)

unfoldable pub from_str : String → Result ValueError StepId
unfolding split from_parts
from_str value = from_parts value (split value)
