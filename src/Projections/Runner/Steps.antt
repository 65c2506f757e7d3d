-- ===== src/Projections/Runner/Steps.antt =====
-- src/projections.rs: the methods of `ProjectionRunner` do to a storage what the functions of
-- Projections/Runner/Fold do to a checkpoint and to states.
use marmosa.Common.{
  ◌≡◌, refl, sym, ◌∙◌, Option, none, some, List, [], ◌∷◌, arith, Str, All, Bool-cases, Option-cases,
  inl, inr, nat_eq, list_eq,
}
use marmosa.Domain.{EventRecord, Query, matches}
use marmosa.Exec.Rules.{Runs}
use marmosa.Ports.{Platform, Disk, IsReliable}
use marmosa.Projections.{ProjectionDefinition, ProjectionStore, ProjectionCheckpoint, Formats}
use marmosa.Projections.Contract.{Only, Only-of_eq, Only-trans, States, updated, IsKeyedStore}
use marmosa.Projections.Runner.{
  EventReader, read_related, new_state, put_state, apply_event, is_old, count, process_event,
  process_each,
}
use marmosa.Projections.Runner.Fold.{
  asked, answer, next_state, put_next, next_checkpoint, next_states, checkpoint_after, states_after,
}

module _ (p : Platform) (reliable : IsReliable p.backend) {S : Type 0} (formats : Formats p.Bytes S)
    (projection : ProjectionDefinition S) (store : ProjectionStore p.backend.State S)
    (keyed : IsKeyedStore p reliable.view store) where
  open p.backend use {State}
  open reliable use {view}

  -- What the event store answers to the query of related events for an event, while the storage
  -- has a property; without an event store, nothing.
  abbrev pub Answers :
      Option (EventReader State)
      → (Query → List EventRecord)
      → (Disk p.Bytes → Type 0)
      → EventRecord
      → Type 0
  Answers none related inv r =
      (query : Query) → asked projection related r ≡ some query → related query ≡ []
  Answers (some read_async) related inv r =
      (query : Query) (w : State)
      → asked projection related r ≡ some query
      → inv (view w)
      → Runs (read_async query none none none w)
          (λ found w'. (found ≡ related query) × (view w' ≡ view w))

  -- The keys of an event are keys of the store.
  abbrev pub HasKey : EventRecord → Type 0
  HasKey r = (key : Str) → projection.key_selector r ≡ some key → keyed.IsKey key

  module _ (event_store : Option (EventReader State)) (related : Query → List EventRecord)
      (inv : Disk p.Bytes → Type 0)
      (stable : (d d' : Disk p.Bytes) → Only keyed.owns d d' → inv d → inv d') where
    read_related_lem :
        (event_store : Option (EventReader State)) (r : EventRecord) (query : Option Query)
        (w : State)
        → Answers event_store related inv r
        → asked projection related r ≡ query
        → inv (view w)
        → Runs
            (read_related p formats projection store event_store query w)
            (λ found w'. (found ≡ answer projection related query) × (view w' ≡ view w))
    unfolding read_related
    read_related_lem event_store r none w a e i = ([], w, refl, (refl, refl))
    read_related_lem none r (some query) w a e i = ([], w, refl, (sym (a query e), refl))
    read_related_lem (some read_async) r (some query) w a e i = a query w e i

    new_state_lem :
        (current : Option S) (r : EventRecord) (w : State)
        → Answers event_store related inv r
        → inv (view w)
        → Runs
            (new_state p formats projection store event_store current r w)
            (λ state w'. (state ≡ next_state projection related current r) × (view w' ≡ view w))
    unfolding new_state next_state
    new_state_lem current r w a i = elim (Option-cases projection.as_related_events) [
      | inl plain ↦ (projection.apply current r, w, rw plain, (rw plain, refl))
      | inr (as_related, there) ↦
          let query : Option Query = as_related.get_related_events_query r in
          let (found, w', e, (same, v)) = read_related_lem event_store r query w a (rw there) i in
          (
            as_related.apply_with_related current r found,
            w',
            ground (arith, there, e),
            (ground (arith, there, same), v),
          )
    ]

    put_state_lem :
        (key : Str) (state : Option S) (states : States S) (w : State)
        → keyed.IsKey key
        → keyed.Holds states (view w)
        → Runs (put_state p formats projection store key state w) (λ _ w'.
          keyed.Holds (updated key state states) (view w') × Only keyed.owns (view w) (view w'))
    unfolding put_state
    put_state_lem key none states w k h = keyed.delete_law key states w k h
    put_state_lem key (some s) states w k h = keyed.save_law key s states w k h

    apply_event_lem :
        (selected : Option Str) (r : EventRecord) (states : States S) (w : State)
        → ((key : Str) → selected ≡ some key → keyed.IsKey key)
        → Answers event_store related inv r
        → inv (view w)
        → keyed.Holds states (view w)
        → Runs (apply_event p formats projection store event_store selected r w) (λ _ w'.
          keyed.Holds (put_next projection related selected r states) (view w')
          × Only keyed.owns (view w) (view w'))
    unfolding apply_event put_next
    apply_event_lem none r states w k a i h = (tt, w, refl, (h, Only-of_eq _ refl))
    apply_event_lem (some key) r states w k a i h =
        let (current, w1, e1, (same1, v1)) = keyed.get_law key states w (k key refl) h in
        let (state, w2, e2, (same2, v2)) = new_state_lem current r w1 a (rw v1 i) in
        let h2 : keyed.Holds states (view w2) = rw (v2, v1) h in
        let (u, w3, e3, (h3, o)) = put_state_lem key state states w2 (k key refl) h2 in
        let state_eq : state ≡ next_state projection related (states key) r = rw (← same1) same2 in
        (
          tt,
          w3,
          ground (arith, e1, e2, e3),
          (rw (← state_eq) h3, Only-trans _ (Only-of_eq _ (v2 ∙ v1)) o),
        )

    process_event_lem :
        (r : EventRecord) (c : ProjectionCheckpoint) (states : States S) (w : State)
        → HasKey r
        → Answers event_store related inv r
        → inv (view w)
        → keyed.Holds states (view w)
        → Runs (process_event p formats projection store event_store r c w) (λ c' w'.
          (c' ≡ next_checkpoint projection related r c)
          × keyed.Holds (next_states projection related r c states) (view w')
          × Only keyed.owns (view w) (view w'))
    unfolding process_event next_checkpoint next_states
    process_event_lem r c states w k a i h = elim (Bool-cases (is_old c r)) [
      | inl old ↦
          rw (process_event, next_states, next_checkpoint, old)
            (c, w, refl, (refl, h, Only-of_eq _ refl))
      | inr new ↦ elim (Bool-cases (matches projection.event_types r)) [
        | inr other ↦
            rw (process_event, next_states, next_checkpoint, new, other)
              (record c { last_position = r.position }, w, refl, (refl, h, Only-of_eq _ refl))
        | inl fits ↦
            let (u, w', e, (h', o)) =
              apply_event_lem (projection.key_selector r) r states w k a i h in
            rw (process_event, next_states, next_checkpoint, new, fits)
              (count r c, w', ground (arith, e), (refl, h', o))
      ]
    ]

    pub process_each_lem :
        (rs : List EventRecord) (c : ProjectionCheckpoint) (states : States S) (w : State)
        → All HasKey rs
        → All (Answers event_store related inv) rs
        → inv (view w)
        → keyed.Holds states (view w)
        → Runs (process_each p formats projection store event_store rs c w) (λ c' w'.
          (c' ≡ checkpoint_after projection related rs c)
          × keyed.Holds (states_after projection related rs c states) (view w')
          × Only keyed.owns (view w) (view w'))
    unfolding process_each checkpoint_after states_after
    process_each_lem [] c states w k a i h = (c, w, refl, (refl, h, Only-of_eq _ refl))
    process_each_lem (r ∷ rs) c states w k a i h =
        let (c1, w1, e1, (same1, h1, o1)) = process_event_lem r c states w k.0 a.0 i h in
        let (c2, w2, e2, (same2, h2, o2)) =
          process_each_lem rs (next_checkpoint projection related r c)
            (next_states projection related r c states) w1 k.1 a.1 (stable _ _ o1 i) h1 in
        (c2, w2, ground (arith, e1, same1, e2), (same2, h2, Only-trans _ o1 o2))
