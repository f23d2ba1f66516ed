-- ===== src/Types/Classes.antt =====
-- Event classes, and `issubclass` along their method resolution order (workflows/events.py).
use llama_agents.Prelude.{ℕ, Bool, List, [], ◌∷◌, to_bool, ℕ_discrete, any}

-- The library's classes, and those of the program that uses it, by number. `none_type` is the type of
-- `None`, and `exception_type` stands for the classes that are no events.
pub data Class : Type 0 where
  none_type : Class
  event_class : Class
  start_event : Class
  stop_event : Class
  workflow_timed_out_event workflow_cancelled_event idle_released_event : Class
  workflow_failed_event : Class
  collection_release_event : Class
  step_failed_event : Class
  input_required_event : Class
  human_response_event : Class
  internal_dispatch_event : Class
  workflow_idle_event unhandled_event step_state_changed_event : Class
  user : ℕ → Class

unfoldable pub Class-discrete : Discrete Class
Class-discrete = hlevel ℕ_discrete

-- `a is b` on classes
unfoldable pub same_class : Class → Class → Bool
unfolding Class-discrete
same_class a b = to_bool (Class-discrete a b)

-- The event bases of a class that the library defines, nearest first.
pub library_bases : Class → List Class
library_bases none_type = []
library_bases event_class = []
library_bases workflow_timed_out_event = stop_event ∷ event_class ∷ []
library_bases workflow_cancelled_event = stop_event ∷ event_class ∷ []
library_bases idle_released_event = stop_event ∷ event_class ∷ []
library_bases workflow_failed_event = stop_event ∷ event_class ∷ []
library_bases workflow_idle_event = internal_dispatch_event ∷ event_class ∷ []
library_bases unhandled_event = internal_dispatch_event ∷ event_class ∷ []
library_bases step_state_changed_event = internal_dispatch_event ∷ event_class ∷ []
library_bases _ = event_class ∷ []

-- `issubclass(a, b)`; the bases of a class of the program come from the argument.
bases : (ℕ → List Class) → Class → List Class
unfolding library_bases
bases user_bases (user n) = user_bases n
bases user_bases c = library_bases c

unfoldable pub issubclass : (ℕ → List Class) → Class → Class → Bool
unfolding same_class bases
issubclass user_bases a b = any (λ c. same_class c b) (a ∷ bases user_bases a)
