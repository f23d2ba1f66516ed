-- ===== src/Matching.antt =====
-- Event-type matching (packages/llama-index-workflows/src/workflows/_event_matching.py): the one rule
-- by which steps, waiters and joins accept an event or a type of event.
use llama_agents.Prelude.{Bool, true, false, List, ◌≡◌, refl, any, if◌then◌else◌}
use llama_agents.Types.{Class, Event, World, class_of, same_class, issubclass}

module _ (w : World) where
  -- Types that are no classes do not occur among the classes of the model.
  unfoldable pub is_subclass : Class → Class → Bool
  is_subclass candidate parent = issubclass w.user_bases candidate parent

  unfoldable pub isinstance : Event → Class → Bool
  unfolding is_subclass
  isinstance event class = is_subclass (class_of event) class

  unfoldable pub type_matches : Bool → Class → Class → Bool
  unfolding is_subclass
  type_matches allow_subclasses produced accepted =
      if allow_subclasses then is_subclass produced accepted else same_class produced accepted

  unfoldable pub event_matches : Bool → Event → Class → Bool
  unfolding isinstance
  event_matches allow_subclasses event accepted =
      if allow_subclasses then isinstance event accepted else same_class (class_of event) accepted

  unfoldable pub step_accepts_type : Bool → Class → List Class → Bool
  unfolding type_matches
  step_accepts_type allow_subclasses produced = any (type_matches allow_subclasses produced)

  unfoldable pub step_accepts_event : Bool → Event → List Class → Bool
  unfolding event_matches
  step_accepts_event allow_subclasses event = any (event_matches allow_subclasses event)

  -- A step accepts an event exactly if it accepts the event's type.
  pub step_accepts_event-class_of :
      (allow_subclasses : Bool) (event : Event) (accepted : List Class)
      → step_accepts_event allow_subclasses event accepted
        ≡ step_accepts_type allow_subclasses (class_of event) accepted
  unfolding step_accepts_event step_accepts_type
  step_accepts_event-class_of true event accepted = refl
  step_accepts_event-class_of false event accepted = refl
