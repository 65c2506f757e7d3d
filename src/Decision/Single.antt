-- ===== src/Decision/Single.antt =====
-- `execute_async` when no other task writes between its read and its append.
use marmosa.Common.{
  ℕ, zero, suc, ◌+◌, ◌≤◌, ◌<◌, ◌≡◌, refl, ◌∙◌, true, false, ◌&&◌, none, some, List, [], ◌∷◌, ◌++◌,
  arith, length, is_empty, any, is_empty-retain, All, Option-cases, inl, inr, Bool-cases,
}
use marmosa.Common.Every.{All-mono, All-retain}
use marmosa.Text.{u64_mod}
use marmosa.Domain.{EventData, EventRecord, Query, AppendCondition, matches}
use marmosa.Exec.{returns}
use marmosa.Exec.Rules.{Runs}
use marmosa.Ports.{Platform, IsLawful}
use marmosa.EventStore.Read.{is_descending}
use marmosa.EventStore.Append.{append_async}
use marmosa.EventStore.Append.Sequence.{batch_records}
use marmosa.EventStore.Append.Refines.{IsIdle, Appended}
use marmosa.EventStore.Log.{Represents, NumberedFrom}
use marmosa.EventStore.Log.Exact.{behind, IsInRange, IsPrecise, matching}
use marmosa.EventStore.Contract.{read_async-exact}
use marmosa.EventStore.Contract.Guard.{finds, append_async-accepts}
use marmosa.Decision.{DecisionProjection, decided, Decision}
use marmosa.Decision.Build.{apply_all, last_position, build_decision_model_from_events}
use marmosa.Decision.Execute.{
  build_decision_model_async, decide, execute_rounds, execute_async, last_attempt,
}
use marmosa.Decision.Sorting.{
  Ordered, numbered-Ordered, retain-Ordered, sort_by_position-same, last_position_bound,
}

-- The state that a projection has after a log.
abbrev pub state_after : {S : Type 0} → DecisionProjection S → List EventRecord → S
state_after projection log =
    apply_all projection projection.initial_state (matching projection.query none log)

-- The condition of a model that was built from a log.
abbrev pub condition_after : Query → List EventRecord → AppendCondition
condition_after query log = record {
  fail_if_events_match = query;
  after_sequence_position = last_position (matching query none log);
}

last_position-none : (rs : List EventRecord) → last_position rs ≡ none → is_empty rs ≡ true
unfolding last_position
last_position-none [] e = refl
last_position-none (r ∷ []) e = cc
last_position-none (r ∷ x ∷ xs) e = ground (arith, last_position-none (x ∷ xs) e)

last_position_below :
    (k m : ℕ) (rs : List EventRecord)
    → All (λ x. x.position < k) rs
    → last_position rs ≡ some m
    → m < k
unfolding last_position
last_position_below k m [] h e = cc
last_position_below k m (r ∷ []) h e = ground (arith, h.0, e)
last_position_below k m (r ∷ x ∷ xs) h e = last_position_below k m (x ∷ xs) h.1 e

numbered_below :
    (n : ℕ) (log : List EventRecord)
    → NumberedFrom n log
    → All (λ x. x.position < n + length log) log
numbered_below n [] h = tt
numbered_below n (r ∷ rs) h =
    (omega (arith, h.0), All-mono _ _ (λ x b. omega arith) rs (numbered_below (suc n) rs h.1))

-- Behind the last position that was read nothing matches.
none-behind :
    (query : Query) (m : ℕ) (log : List EventRecord)
    → All (λ x. x.position ≤ m) (matching query none log)
    → any (λ r. matches query r && behind (some m) r) log ≡ false
none-behind query m [] h = refl
none-behind query m (r ∷ rs) h = elim (Bool-cases (matches query r)) [
  | inl hit ↦
      let kept : (matches query r && behind none r) ≡ true = ground (arith, hit) in
      let bound : (r.position ≤ m) × All (λ x. x.position ≤ m) (matching query none rs) =
        rw kept at h in
      ground (arith, hit, bound.0, none-behind query m rs bound.1)
  | inr miss ↦ ground (arith, miss, none-behind query m rs (rw miss at h))
]

-- The condition of the model has a position of the log.
condition_after-IsInRange :
    (query : Query) (log : List EventRecord)
    → NumberedFrom 0 log
    → length log < u64_mod
    → IsInRange (condition_after query log).after_sequence_position
condition_after-IsInRange query log numbered fits m some_last =
    let below =
      last_position_below (length log) m (matching query none log)
        (All-retain _ _ log (All-mono _ _ (λ x b. omega arith) log (numbered_below 0 log numbered)))
        some_last in
    omega (arith, below)

-- What the model has read does not set off its own condition.
finds-condition_after :
    (query : Query) (log : List EventRecord)
    → NumberedFrom 0 log
    → finds (condition_after query log) log ≡ false
finds-condition_after query log numbered =
    let read = matching query none log in
    elim (Option-cases (last_position read)) [
      | inl nothing ↦ rw nothing (
          ground (
            arith,
            last_position-none read nothing,
            is_empty-retain (λ r. matches query r && behind none r) log,
          ))
      | inr (m, some_last) ↦
          let in_order : Ordered read = retain-Ordered _ log (numbered-Ordered 0 log numbered) in
          rw some_last (none-behind query m log (last_position_bound read m in_order some_last))
    ]

module _ (p : Platform) (law : IsLawful p) {S : Type 0} (log : List EventRecord) where
  open law.reliable use {view}
  open p.backend use {State}

  build_lem :
      (projection : DecisionProjection S) (s : State)
      → Represents p log (view s)
      → IsPrecise p projection.query log
      → Runs (build_decision_model_async p projection s) (λ model s'.
        (model ≡ record {
          state = state_after projection log;
          append_condition = condition_after projection.query log;
        })
        × (view s' ≡ view s))
  unfolding build_decision_model_async is_descending build_decision_model_from_events
  build_lem projection s rep precise =
      let (xs, s', e, (same, v)) =
        read_async-exact p law projection.query none none none log s rep (λ k h. cc) precise in
      let in_order =
        sort_by_position-same (matching projection.query none log)
          (retain-Ordered _ log (numbered-Ordered 0 log rep.numbered)) in
      (
        record {
          state = state_after projection log;
          append_condition = condition_after projection.query log;
        },
        s',
        ground (arith, e, same, in_order),
        (refl, v),
      )

  decide_lem :
      (decision : Decision S) (events : List EventData) (s : State)
      → Represents p log (view s)
      → IsPrecise p decision.projection.query log
      → decision.process (state_after decision.projection log) ≡ decided events
      → Runs (decide p decision s) (λ found s'.
        (found ≡ (events, condition_after decision.projection.query log)) × (view s' ≡ view s))
  unfolding decide
  decide_lem decision events s rep precise verdict =
      let (model, s', e, (same, v)) = build_lem decision.projection s rep precise in
      (
        (events, condition_after decision.projection.query log),
        s',
        ground (arith, e, same, verdict),
        (refl, v),
      )

  first_round :
      (decision : Decision S) (clock : ℕ → ℕ) (left : ℕ) (found : List EventData × AppendCondition)
      (s s1 s2 : State)
      → decide p decision s ≡ returns found s1
      → append_async p (clock left) found.0 (some found.1) s1 ≡ returns tt s2
      → execute_rounds p decision clock left s ≡ returns found.0 s2
  unfolding execute_rounds
  first_round decision clock zero found s s1 s2 e1 e2 = ground (arith, e1, e2)
  first_round decision clock (suc left) found s s1 s2 e1 e2 = ground (arith, e1, e2)

  -- If no other task writes, and the index files of the projection's query are exact, a decision
  -- is taken in the first round, whatever `max_retries` is: the projection is folded over exactly
  -- the matching records of the log, and when the decision makes events of that state, they are
  -- returned, and they stand behind the log; the model never conflicts with what it has read.
  pub execute_async-decides :
      (decision : Decision S) (max_retries : ℕ) (clock : ℕ → ℕ) (events : List EventData)
      (s : State)
      → Represents p log (view s)
      → IsIdle (view s)
      → IsPrecise p decision.projection.query log
      → decision.process (state_after decision.projection log) ≡ decided events
      → length log + length events < u64_mod
      → Runs (execute_async p decision max_retries clock s) (λ done s'.
        (done ≡ events)
        × Appended p
            (log ++ batch_records (clock (last_attempt max_retries)) (length log) events)
            (view s'))
  unfolding execute_async
  execute_async-decides decision max_retries clock events s rep idle precise verdict room =
      let query = decision.projection.query in
      let now = clock (last_attempt max_retries) in
      let (found, s1, e1, (same, v1)) = decide_lem decision events s rep precise verdict in
      let (u, s2, e2, done) =
        append_async-accepts p law now events (condition_after query log) log s1 (rw v1 rep)
          (rw v1 idle) room (condition_after-IsInRange query log rep.numbered rep.fits) precise
          (finds-condition_after query log rep.numbered) in
      (
        events,
        s2,
        first_round decision clock (last_attempt max_retries) (events, condition_after query log) s
            s1 s2 (e1 ∙ rw same) e2,
        (refl, done),
      )
