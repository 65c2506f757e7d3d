-- ===== src/Decision/Build.antt =====
-- src/decision_model/build.rs: a decision model from a list of events.
use marmosa.Common.{
  ℕ, Option, none, some, List, [], ◌∷◌, ◌++◌, map, leb, is_empty, last, if◌then◌else◌, contains,
}
use marmosa.Domain.{
  EventRecord, QueryItem, Query, query_item_eq, query_all, AppendCondition, matches,
}
use marmosa.Decision.{DecisionProjection, DecisionModel}

-- `sort_by_key(|e| e.position)`, which is stable: an event goes before those of its position.
unfoldable pub insert_by_position : EventRecord → List EventRecord → List EventRecord
insert_by_position r [] = r ∷ []
insert_by_position r (x ∷ xs) =
    let rest = insert_by_position r xs in if leb r.position x.position then r ∷ x ∷ xs else x ∷ rest

unfoldable pub sort_by_position : List EventRecord → List EventRecord
unfolding insert_by_position
sort_by_position [] = []
sort_by_position (r ∷ rs) = insert_by_position r (sort_by_position rs)

-- `sorted_events.last().map(|e| e.position)`
unfoldable pub last_position : List EventRecord → Option ℕ
last_position rs = elim (last rs) [ none ↦ none | some r ↦ some r.position ]

-- The loop over the items of one query: those that are new are pushed.
unfoldable pub push_items : List QueryItem → List QueryItem → List QueryItem
push_items [] all_items = all_items
push_items (item ∷ items) all_items =
    push_items items (if contains item all_items then all_items else all_items ++ item ∷ [])

module _ {S : Type 0} where
  -- `fold(projection.initial_state(), |s, e| projection.apply(s, e))`
  unfoldable pub apply_all : DecisionProjection S → S → List EventRecord → S
  apply_all projection s [] = s
  apply_all projection s (e ∷ es) = apply_all projection (projection.apply s e) es

  -- `build_decision_model_from_events`
  unfoldable pub build_decision_model_from_events :
      DecisionProjection S → List EventRecord → DecisionModel S
  unfolding sort_by_position last_position apply_all
  build_decision_model_from_events projection events = record {
    state = apply_all projection projection.initial_state (sort_by_position events);
    append_condition = record {
      fail_if_events_match = projection.query;
      after_sequence_position = last_position (sort_by_position events);
    };
  }

  -- The loop that builds the union query; nothing if it ends at a query for all events.
  unfoldable pub union_items :
      List (DecisionProjection S) → List QueryItem → Option (List QueryItem)
  unfolding push_items
  union_items [] all_items = some all_items
  union_items (projection ∷ projections) all_items =
      let rest = union_items projections (push_items projection.query.items all_items) in
      if is_empty projection.query.items then none else rest

  unfoldable pub union_query : List (DecisionProjection S) → Query
  unfolding union_items
  union_query projections = elim (union_items projections []) [
    | none ↦ query_all
    | some all_items ↦ record { items = all_items }
  ]

  -- The fold of one projection over the events that its own query matches.
  unfoldable pub apply_matching : DecisionProjection S → S → List EventRecord → S
  apply_matching projection s [] = s
  apply_matching projection s (e ∷ es) =
      apply_matching projection (if matches projection.query e then projection.apply s e else s) es

  -- `build_decision_model_nary_from_events`
  unfoldable pub build_decision_model_nary_from_events :
      List (DecisionProjection S) → List EventRecord → List S × AppendCondition
  unfolding sort_by_position last_position union_query apply_matching
  build_decision_model_nary_from_events projections events =
      let sorted_events = sort_by_position events in
      (
        map (λ projection. apply_matching projection projection.initial_state sorted_events)
            projections,
        record {
          fail_if_events_match = union_query projections;
          after_sequence_position = last_position sorted_events;
        },
      )
