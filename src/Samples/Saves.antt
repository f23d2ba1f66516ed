-- ===== src/Samples/Saves.antt =====
-- The text of a step identity, a persisted state of the workflow of the parent module, and the theorems on texts and persistence at them. The
-- serializer writes an event as itself.
use llama_agents.Prelude.{◌≡◌, refl, false, [], ◌∷◌, keys, ok, values, All}
use llama_agents.Types.{BrokerState, Class, Event}
use llama_agents.Saving.Serialized.{Serializer}
use llama_agents.Saving.Writing.{to_serialized}
use llama_agents.Saving.Reading.{from_serialized}
use llama_agents.Saving.Restored.{restored_state, Matches, Distinct, IsFaithful, Importable}
use llama_agents.Saving.Returning.{from_serialized-to_serialized}
use llama_agents.Saving.Twice.{from_serialized_again}
use llama_agents.Types.{StepId, step_key}
use llama_agents.Naming.{is_slash, split, is_empty_text, from_str}
use llama_agents.Naming.Splitting.{slash_free}
use llama_agents.Naming.RoundTrip.{IsName, from_str-step_key, step_key-from_str}
use llama_agents.Samples.{world, busy, waiting_state, flow}

abbrev plain : Serializer Event
plain = record {
  serialize = λ e. e;
  deserialize = λ e. ok e;
  is_empty_text = λ e. false;
  import_event_type = λ name. ok (Class.user 0);
}

plain-IsFaithful : IsFaithful plain
plain-IsFaithful = record { events = λ e. refl; written = λ e. refl }

abbrev waiting : BrokerState
waiting = record busy { workers = ("work", waiting_state) ∷ [] }

waiting-Matches : Matches flow.steps waiting.workers
waiting-Matches = (refl, refl, tt)

waiting-Distinct : Distinct (keys waiting.workers)
waiting-Distinct = (tt, tt)

waiting-Importable : All (Importable world plain) (values waiting.workers)
waiting-Importable = ((refl, tt), tt)

from_serialized-to_serialized_example :
    from_serialized plain (to_serialized world plain waiting) flow
    ≡ ok (restored_state flow waiting)
from_serialized-to_serialized_example =
    from_serialized-to_serialized world plain plain-IsFaithful flow waiting waiting-Matches
      waiting-Distinct waiting-Importable

from_serialized_again_example :
    from_serialized plain (to_serialized world plain (restored_state flow waiting)) flow
    ≡ ok (restored_state flow waiting)
from_serialized_again_example =
    from_serialized_again world plain flow waiting (restored_state flow waiting) plain-IsFaithful
      waiting-Matches waiting-Distinct waiting-Importable
      (from_serialized-to_serialized world plain plain-IsFaithful flow waiting waiting-Matches
        waiting-Distinct waiting-Importable)

abbrev nested : StepId
nested = record { namespace = "outer" ∷ []; name = "inner" }

names : All IsName nested.namespace × IsName nested.name
unfolding slash_free is_slash is_empty_text
names = (((refl, refl), tt), (refl, refl))

from_str-step_key_example : from_str (step_key nested) ≡ ok nested
from_str-step_key_example = from_str-step_key nested names.0 names.1

step_key-from_str_example : step_key nested ≡ "outer/inner"
unfolding from_str split is_slash
step_key-from_str_example = step_key-from_str "outer/inner" nested refl
