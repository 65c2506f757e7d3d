-- ===== src/Decision/Execute.antt =====
-- src/decision_model/execute.rs: `DecisionModelExt` over the event store. A loop counts attempts
-- up to `max_retries - 1`; here it counts down what is left of them. The subtraction is that of a
-- `usize` of 64 bits in a release build.
use marmosa.Common.{
  ℕ, zero, suc, ◌+◌, ◌-◌, ◌%◌, none, some, List, [], ◌∷◌, ◌++◌, str, is_empty, if◌then◌else◌,
}
use marmosa.Text.{u64_mod}
use marmosa.Domain.{EventData, QueryItem, AppendCondition}
use marmosa.Exec.{
  append_condition_failed, argument_error, io_error, not_found, already_exists, Error, ok, err,
  Exec, pure, fail, attempt, ◌>>=◌,
}
use marmosa.Ports.{Platform}
use marmosa.EventStore.Read.{read_async}
use marmosa.EventStore.Append.{append_async}
use marmosa.Decision.{DecisionProjection, DecisionModel, decided, refused, Decision}
use marmosa.Decision.Build.{build_decision_model_from_events, build_decision_model_nary_from_events}

-- `max_retries - 1`
unfoldable pub last_attempt : ℕ → ℕ
last_attempt max_retries = (max_retries + (u64_mod - 1)) % u64_mod

module _ {State R : Type 0} where
  -- What the loops do after an error: another round, or the error.
  unfoldable pub retry : Error → Exec State R → Exec State R → Exec State R
  retry append_condition_failed again stop = again
  retry io_error again stop = stop
  retry not_found again stop = stop
  retry already_exists again stop = stop
  retry (argument_error message) again stop = stop

  -- The loop of `execute_decision_async`, with a number of attempts left after this one.
  unfoldable pub execute_attempts : Exec State R → ℕ → Exec State R
  unfolding retry
  execute_attempts operation zero = operation
  execute_attempts operation (suc left) = do
    result ← attempt operation
    elim result [
      | ok value ↦ pure value
      | err e ↦ retry e (execute_attempts operation left) (fail e)
    ]

  -- `execute_decision_async`
  unfoldable pub execute_decision_async : ℕ → Exec State R → Exec State R
  unfolding execute_attempts last_attempt
  execute_decision_async max_retries operation =
      execute_attempts operation (last_attempt max_retries)

module _ (p : Platform) {S : Type 0} where
  open p.backend use {State}

  -- `build_decision_model_async`
  unfoldable pub build_decision_model_async : DecisionProjection S → Exec State (DecisionModel S)
  unfolding build_decision_model_from_events
  build_decision_model_async projection = do
    events ← read_async p projection.query none none none
    pure (build_decision_model_from_events projection events)

  -- `composite_query_items.extend(p.query().items.iter().cloned())` for each projection
  unfoldable pub composite_query_items : List (DecisionProjection S) → List QueryItem
  composite_query_items [] = []
  composite_query_items (projection ∷ projections) =
      projection.query.items ++ composite_query_items projections

  -- `build_decision_model_nary_async`
  unfoldable pub build_decision_model_nary_async :
      List (DecisionProjection S) → Exec State (List S × AppendCondition)
  unfolding composite_query_items build_decision_model_nary_from_events
  build_decision_model_nary_async projections =
      if is_empty projections
      then fail (argument_error (str "projections cannot be empty"))
      else (do
        events ← read_async p (record { items = composite_query_items projections }) none none none
        pure (build_decision_model_nary_from_events projections events))

  -- One round of the loop of `execute_async`, up to its append; an error before it ends the loop.
  unfoldable pub decide : Decision S → Exec State (List EventData × AppendCondition)
  unfolding build_decision_model_async
  decide decision = do
    model ← build_decision_model_async decision.projection
    elim (decision.process model.state) [
      | refused message ↦ fail (argument_error message)
      | decided events ↦ pure (events, model.append_condition)
    ]

  -- The loop, with a number of attempts left after this one; `clock` has the time of each append
  -- by that number.
  unfoldable pub execute_rounds : Decision S → (ℕ → ℕ) → ℕ → Exec State (List EventData)
  unfolding decide retry
  execute_rounds decision clock zero = do
    found ← decide decision
    result ← attempt (append_async p (clock 0) found.0 (some found.1))
    elim result [ ok done ↦ pure found.0 | err e ↦ fail e ]
  execute_rounds decision clock (suc left) = do
    found ← decide decision
    result ← attempt (append_async p (clock (suc left)) found.0 (some found.1))
    elim result [
      | ok done ↦ pure found.0
      | err e ↦ retry e (execute_rounds decision clock left) (fail e)
    ]

  -- `execute_async`
  unfoldable pub execute_async : Decision S → ℕ → (ℕ → ℕ) → Exec State (List EventData)
  unfolding execute_rounds last_attempt
  execute_async decision max_retries clock =
      execute_rounds decision clock (last_attempt max_retries)
