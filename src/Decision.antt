-- ===== src/Decision.antt =====
-- src/decision_model: projections, decision models built from events, and the execution of
-- decisions on the store.
pub mod Build
pub mod Execute
pub mod Sorting
pub mod Single
pub mod Harness
pub mod Retry
use marmosa.Common.{List, Str}
use marmosa.Domain.{EventData, EventRecord, Query, AppendCondition}

-- `trait DecisionProjection`, by what its methods return. `DelegateDecisionProjection` holds these
-- three values, `TimeAwareDecisionProjection` a clock besides, which its `apply` reads.
pub record DecisionProjection (S : Type 0) : Type 0 where
  pub initial_state : S
  pub query : Query
  pub apply : S → EventRecord → S

pub record DecisionModel (S : Type 0) : Type 0 where
  pub state : S
  pub append_condition : AppendCondition

-- What `Decision::process` returns: events, or an error as its `Debug` text.
pub data Verdict : Type 0 where
  decided : List EventData → Verdict
  refused : Str → Verdict

-- `trait Decision`
pub record Decision (S : Type 0) : Type 0 where
  pub projection : DecisionProjection S
  pub process : S → Verdict
