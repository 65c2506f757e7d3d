-- ===== src/Projections/Composed/Again.antt =====
-- src/projections.rs: several calls of `process_events`, one behind the other.
use marmosa.Common.{
  ℕ, ◌≡◌, ◌≢◌, refl, sym, ap, ◌∙◌, true, false, Option, some, List, ◌++◌, Str, last, All, ltb,
  nat_eq,
}
use marmosa.Common.Every.{All-append}
use marmosa.Domain.{EventRecord}
use marmosa.Exec.Rules.{Runs}
use marmosa.Ports.{Platform, IsLawful, is_below}
use marmosa.Projections.{ProjectionDefinition, ProjectionCheckpoint, Formats}
use marmosa.Projections.Contract.{AreLossless, States}
use marmosa.Projections.Flagged.{Flagged, flagged}
use marmosa.Projections.Store.{StorageBackendProjectionStore, get_projection_path, get}
use marmosa.Projections.Store.Save.{projection_store}
use marmosa.Projections.Store.Paths.{IsPlain}
use marmosa.Projections.Store.Laws.{get_stored}
use marmosa.Projections.Runner
use marmosa.Projections.Runner.Fold.{
  furthest, furthest-append, states_after, checkpoint_after, furthest_bounds,
}
use marmosa.Projections.Runner.Fold.Passed.{
  checkpoint_after-furthest, states_after-old, checkpoint_after-old, states_after-append,
  states_after-position,
}
use marmosa.Projections.Composed.{
  World, checkpoint_path, process_events, start_of, HasCheckpoint, Holds, no_related,
  process_events_lem, all_old,
}

module _ (p : Platform) {S : Type 0} (formats : Formats p.Bytes S)
    (projection : ProjectionDefinition S)
    (store : StorageBackendProjectionStore (Flagged p.backend.State) S) (law : IsLawful p)
    (lossless : AreLossless formats)
    (named : last (get_projection_path p formats store) ≢ some b'/')
    (apart : is_below
        (get_projection_path p formats store)
        (checkpoint_path p formats projection store)
      ≡ false) where
  abbrev PlainKeys : List EventRecord → Type 0
  PlainKeys rs = All (λ r. (key : Str) → projection.key_selector r ≡ some key → IsPlain key) rs

  -- The checkpoint behind events, as it is stored
  abbrev left_by : List EventRecord → ProjectionCheckpoint → ProjectionCheckpoint
  left_by rs start =
      let c = checkpoint_after projection no_related rs start in
      Runner.checkpoint_of (flagged p) formats projection (projection_store p formats store)
        c.last_position c.total_events_processed

  left_by-furthest :
      (rs : List EventRecord) (start : ProjectionCheckpoint)
      → (left_by rs start).last_position ≡ furthest start.last_position rs
  unfolding Runner.checkpoint_of
  left_by-furthest rs start = checkpoint_after-furthest projection no_related rs start

  moved :
      (rs : List EventRecord) (start : ProjectionCheckpoint)
      → (checkpoint_after projection no_related rs start).last_position
        ≡ (left_by rs start).last_position
  unfolding Runner.checkpoint_of
  moved rs start = refl

  -- A run that passes a position, with the checkpoint that it stores
  run_behind :
      (rs : List EventRecord) (found : Option ProjectionCheckpoint) (states : States S)
      (w : World p formats projection store)
      → PlainKeys rs
      → HasCheckpoint p formats projection store law w found
      → Holds p formats projection store law states w
      → ltb 0 (furthest (start_of p formats projection store found).last_position rs) ≡ true
      → Runs (process_events p formats projection store rs w) (λ position w'.
        (position ≡ furthest (start_of p formats projection store found).last_position rs)
        × HasCheckpoint p formats projection store law w'
            (some (left_by rs (start_of p formats projection store found)))
        × Holds p formats projection store law
            (states_after projection no_related rs
              (start_of p formats projection store found)
              states)
            w')
  run_behind rs found states w keys has holds behind =
      let start : ProjectionCheckpoint = start_of p formats projection store found in
      let (position, w', e, (same, has', h')) =
        process_events_lem p formats projection store law lossless named apart rs found states w
          keys has holds in
      let reached = checkpoint_after-furthest projection no_related rs start in
      let passed = ap (ltb 0) reached ∙ behind in
      (position, w', e, (same ∙ reached, rw passed at has', h'))

  -- Under the conditions of a run without an event store (the storage has the states of all plain
  -- keys and a checkpoint or none, the projection's keys are plain, its directory does not end in a
  -- slash nor contain the checkpoint, the formats read back what they have written): if the run
  -- passes a position above 0, a second run with the same events returns the same position and
  -- leaves the state of each plain key as it was behind the first.
  pub process_events-again :
      (rs : List EventRecord) (found : Option ProjectionCheckpoint) (states : States S)
      (w : World p formats projection store) (key : Str)
      → PlainKeys rs
      → HasCheckpoint p formats projection store law w found
      → Holds p formats projection store law states w
      → ltb 0 (furthest (start_of p formats projection store found).last_position rs) ≡ true
      → IsPlain key
      → Runs (process_events p formats projection store rs w) (λ position w1.
        Runs (get p formats store key w1) (λ first w2.
          Runs (process_events p formats projection store rs w2) (λ position' w3.
            (position' ≡ position)
            × Runs (get p formats store key w3) (λ second _. second ≡ first))))
  unfolding Runner.or_start
  process_events-again rs found states w key keys has holds behind plain =
      let start : ProjectionCheckpoint = start_of p formats projection store found in
      let n : ℕ = furthest start.last_position rs in
      let (position, w1, e1, (same1, has1, h1)) =
        run_behind rs found states w keys has holds behind in
      let (first, w2, e2, (same2, v2)) =
        get_stored p formats store law.reliable key _ w1 (h1 key plain) in
      let c : ProjectionCheckpoint = left_by rs start in
      let old =
        all_old projection c n rs (left_by-furthest rs start) behind
          (furthest_bounds start.last_position rs).1 in
      let (position', w3, e3, (same3, has3, h3)) =
        process_events_lem p formats projection store law lossless named apart rs (some c)
          (states_after projection no_related rs start states) w2 keys (rw v2 has1) (rw v2 h1) in
      let stay =
        states_after-old projection no_related rs c
          (states_after projection no_related rs start states) old in
      let (second, w4, e4, (same4, v4)) =
        get_stored p formats store law.reliable key _ w3 (h3 key plain) in
      (
        position,
        w1,
        e1,
        (
          first,
          w2,
          e2,
          (
            position',
            w3,
            e3,
            (
              same3
                  ∙ (ap (λ (k : ProjectionCheckpoint). k.last_position)
                        (checkpoint_after-old projection no_related rs c old)
                      ∙ (left_by-furthest rs start ∙ sym same1)),
              (second, w4, e4, same4 ∙ (ap (λ f. f key) stay ∙ sym same2)),
            ),
          ),
        ),
      )

  -- Under the same conditions, for two lists of events of which the first takes the runner past a
  -- position above 0: one run over both lists and two runs, one for each list, return the same
  -- position in the end and leave the same state of each plain key.
  pub process_events-append :
      (rs rs' : List EventRecord) (found : Option ProjectionCheckpoint) (states : States S)
      (w : World p formats projection store) (key : Str)
      → PlainKeys rs
      → PlainKeys rs'
      → HasCheckpoint p formats projection store law w found
      → Holds p formats projection store law states w
      → ltb 0 (furthest (start_of p formats projection store found).last_position rs) ≡ true
      → IsPlain key
      → Runs (process_events p formats projection store (rs ++ rs') w) (λ position w1.
        Runs (get p formats store key w1) (λ state _.
          Runs (process_events p formats projection store rs w) (λ _ w2.
            Runs (process_events p formats projection store rs' w2) (λ position' w3.
              (position' ≡ position)
              × Runs (get p formats store key w3) (λ state' _. state' ≡ state)))))
  unfolding Runner.or_start
  process_events-append rs rs' found states w key keys keys' has holds behind plain =
      let start : ProjectionCheckpoint = start_of p formats projection store found in
      let after = states_after projection no_related rs start states in
      let c : ProjectionCheckpoint = left_by rs start in
      let (position, w1, e1, (same1, has1, h1)) =
        process_events_lem p formats projection store law lossless named apart (rs ++ rs') found
          states w (All-append _ rs rs' keys keys') has holds in
      let (state, w1', e1', (same1', v1')) =
        get_stored p formats store law.reliable key _ w1 (h1 key plain) in
      let (_, w2, e2, (same2, has2, h2)) = run_behind rs found states w keys has holds behind in
      let (position', w3, e3, (same3, has3, h3)) =
        process_events_lem p formats projection store law lossless named apart rs' (some c) after w2
          keys' has2 h2 in
      let (state', w3', e3', (same3', v3')) =
        get_stored p formats store law.reliable key _ w3 (h3 key plain) in
      let whole =
        states_after-append projection no_related rs rs' start states
        ∙ states_after-position projection no_related rs'
            (checkpoint_after projection no_related rs start) c after (moved rs start) in
      (
        position,
        w1,
        e1,
        (
          state,
          w1',
          e1',
          (
            _,
            w2,
            e2,
            (
              position',
              w3,
              e3,
              (
                same3
                    ∙ (checkpoint_after-furthest projection no_related rs' c
                        ∙ (ap (λ n. furthest n rs') (left_by-furthest rs start)
                            ∙ sym (
                                same1
                                ∙ (checkpoint_after-furthest projection no_related (rs ++ rs') start
                                    ∙ furthest-append start.last_position rs rs')))),
                (state', w3', e3', same3' ∙ (ap (λ f. f key) (sym whole) ∙ sym same1')),
              ),
            ),
          ),
        ),
      )
