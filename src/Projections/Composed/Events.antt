-- ===== src/Projections/Composed/Events.antt =====
-- src/projections.rs: the states and the checkpoint behind `process_events`.
use marmosa.Common.{ℕ, ◌≤◌, ◌≡◌, ◌≢◌, ◌∙◌, false, Option, some, List, Str, last, All, nat_eq}
use marmosa.Domain.{EventRecord}
use marmosa.Exec.Rules.{Runs}
use marmosa.Ports.{Platform, IsLawful, is_below}
use marmosa.Projections.{ProjectionDefinition, ProjectionCheckpoint, Formats}
use marmosa.Projections.Contract.{AreLossless, States}
use marmosa.Projections.Flagged.{Flagged}
use marmosa.Projections.Store.{StorageBackendProjectionStore, get_projection_path, get}
use marmosa.Projections.Store.Paths.{IsPlain}
use marmosa.Projections.Store.Laws.{get_stored}
use marmosa.Projections.Runner.Fold.{Ascending, furthest, fold_state, relevant, furthest_bounds}
use marmosa.Projections.Runner.Fold.Ahead.{states_after-fold}
use marmosa.Projections.Runner.Fold.Passed.{checkpoint_after-furthest}
use marmosa.Projections.Composed.{
  World, checkpoint_path, process_events, start_of, HasCheckpoint, Holds, no_related,
  process_events_lem,
}

module _ (p : Platform) {S : Type 0} (formats : Formats p.Bytes S)
    (projection : ProjectionDefinition S)
    (store : StorageBackendProjectionStore (Flagged p.backend.State) S) (law : IsLawful p)
    (lossless : AreLossless formats)
    (named : last (get_projection_path p formats store) ≢ some b'/')
    (apart : is_below
        (get_projection_path p formats store)
        (checkpoint_path p formats projection store)
      ≡ false)
    (rs : List EventRecord) (found : Option ProjectionCheckpoint) (states : States S)
    (w : World p formats projection store)
    (keys : All (λ r. (key : Str) → projection.key_selector r ≡ some key → IsPlain key) rs)
    (has : HasCheckpoint p formats projection store law w found)
    (holds : Holds p formats projection store law states w) where
  -- The runner without an event store processes events with rising positions, on a storage with the
  -- states of all plain keys and a checkpoint or none, where the projection's keys are plain, its
  -- directory does not end in a slash nor contain the checkpoint, and the formats read back what they
  -- have written. It returns the highest of the checkpoint's position and those of the events. The
  -- state of a key is then the fold of its own events that match the query and are not behind the
  -- checkpoint, from the state that it had. A projection with related events is given an empty list
  -- of them for each event, whatever the event store has.
  pub process_events-fold :
      (key : Str) (n : ℕ)
      → Ascending n rs
      → IsPlain key
      → Runs (process_events p formats projection store rs w) (λ position w'.
        (position ≡ furthest (start_of p formats projection store found).last_position rs)
        × Runs (get p formats store key w') (λ state _.
          state
          ≡ fold_state projection no_related
              (states key)
              (relevant projection no_related (start_of p formats projection store found) key rs)))
  process_events-fold key n up plain =
      let (position, w', e, (same, has', h')) =
        process_events_lem p formats projection store law lossless named apart rs found states w
          keys has holds in
      let start : ProjectionCheckpoint = start_of p formats projection store found in
      let (state, w'', e', (same', v)) =
        get_stored p formats store law.reliable key _ w' (h' key plain) in
      (
        position,
        w',
        e,
        (
          same ∙ checkpoint_after-furthest projection no_related rs start,
          (
            state,
            w'',
            e',
            same' ∙ states_after-fold projection no_related key n rs start states up,
          ),
        ),
      )

  -- Under the same conditions, but for events with any positions in any order, the position that the
  -- runner returns is not below the old checkpoint nor below the position of any of the events.
  pub process_events_bounds : Runs (process_events p formats projection store rs w) (λ position w'.
      ((start_of p formats projection store found).last_position ≤ position)
      × All (λ r. r.position ≤ position) rs)
  process_events_bounds =
      let (position, w', e, (same, has', h')) =
        process_events_lem p formats projection store law lossless named apart rs found states w
          keys has holds in
      let start : ProjectionCheckpoint = start_of p formats projection store found in
      let whole = same ∙ checkpoint_after-furthest projection no_related rs start in
      (position, w', e, rw (← whole) at (furthest_bounds start.last_position rs))
