-- ===== src/Decision/Harness.antt =====
-- src/testing.rs: a decision against a history of events, without a store. The assertions of the
-- third step compare the result.
use marmosa.Common.{ℕ, suc, ◌≡◌, refl, ap, ◌∙◌, List, [], ◌∷◌}
use marmosa.Domain.{EventData, EventRecord}
use marmosa.Decision.{Decision, DecisionProjection, Verdict}
use marmosa.Decision.Build.{apply_all, build_decision_model_from_events}
use marmosa.Decision.Sorting.{numbered-Ordered, sort_by_position-same}
use marmosa.EventStore.Log.{NumberedFrom}

-- `to_event_records`, from a number on: positions begin at 1.
unfoldable pub records_from : ℕ → List EventData → List EventRecord
records_from n [] = []
records_from n (ed ∷ eds) =
    record {
      position = n;
      event_id = ed.event_id;
      event = ed.event;
      metadata = ed.metadata;
      timestamp = 0;
    }
    ∷ records_from (suc n) eds

unfoldable pub to_event_records : List EventData → List EventRecord
unfolding records_from
to_event_records events = records_from 1 events

-- `given(history).when(decision)`: the result that the last step compares.
unfoldable pub when : {S : Type 0} → List EventData → Decision S → Verdict
unfolding to_event_records build_decision_model_from_events
when history decision =
    decision.process
      (build_decision_model_from_events decision.projection (to_event_records history)).state

numbered : (n : ℕ) (events : List EventData) → NumberedFrom n (records_from n events)
unfolding records_from
numbered n [] = tt
numbered n (ed ∷ eds) = (refl, numbered (suc n) eds)

-- The events applied one after the other, each at the position behind that of the one before
abbrev pub replay : {S : Type 0} → DecisionProjection S → ℕ → List EventData → S → S
replay projection n [] state = state
replay projection n (ed ∷ eds) state = replay projection (suc n) eds (
    projection.apply state (record {
      position = n;
      event_id = ed.event_id;
      event = ed.event;
      metadata = ed.metadata;
      timestamp = 0;
    }))

apply_all-replay :
    {S : Type 0} (projection : DecisionProjection S) (n : ℕ) (events : List EventData) (state : S)
    → apply_all projection state (records_from n events) ≡ replay projection n events state
unfolding apply_all records_from
apply_all-replay projection n [] state = refl
apply_all-replay projection n (ed ∷ eds) state = apply_all-replay projection (suc n) eds _

-- The harness takes the decision on the state that the projection's `apply` makes of the initial
-- state and the events of the whole history, in the order in which they are given, each as a record
-- with its place in the history, counted from 1, as its position and 0 as its time.
pub when-replay :
    {S : Type 0} (history : List EventData) (decision : Decision S)
    → when history decision
      ≡ decision.process (replay decision.projection 1 history decision.projection.initial_state)
unfolding when to_event_records build_decision_model_from_events
when-replay history decision =
    ap (λ rs. decision.process (apply_all decision.projection decision.projection.initial_state rs))
      (sort_by_position-same (records_from 1 history) (numbered-Ordered 1 _ (numbered 1 history)))
    ∙ ap decision.process
        (apply_all-replay decision.projection 1 history decision.projection.initial_state)
