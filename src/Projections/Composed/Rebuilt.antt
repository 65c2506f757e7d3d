-- ===== src/Projections/Composed/Rebuilt.antt =====
-- src/projections.rs: `rebuild` of a projection over the events of the store.
use marmosa.Common.{
  ℕ, ◌≡◌, ◌≢◌, refl, ap, ◌∙◌, false, true, ◌||◌, none, some, List, arith, Str, str, ◌==◌, last, All,
  All-of_forall, list_eq, retain_congr, nat_eq,
}
use marmosa.Text.{strip_prefix}
use marmosa.Domain.{EventRecord, Query}
use marmosa.Exec.Rules.{Runs}
use marmosa.Ports.{Platform, IsLawful, is_below, is_some}
use marmosa.EventStore.Log.{Represents}
use marmosa.Projections.{ProjectionDefinition, ProjectionCheckpoint, Formats}
use marmosa.Projections.Contract.{AreLossless, nothing_stored}
use marmosa.Projections.Flagged.{Flagged, flagged, flagged_lawful}
use marmosa.Projections.Store.{StorageBackendProjectionStore, get_projection_path, get}
use marmosa.Projections.Store.Save.{projection_store}
use marmosa.Projections.Store.Paths.{IsPlain}
use marmosa.Projections.Store.Laws.{get_stored}
use marmosa.Projections.Store.RoundTrip.{keyed}
use marmosa.Projections.Runner
use marmosa.Projections.Runner.{is_old}
use marmosa.Projections.Runner.Fold.{furthest, fold_state, relevant}
use marmosa.Projections.Runner.Fold.Ahead.{states_after-fold}
use marmosa.Projections.Runner.Fold.Passed.{checkpoint_after-furthest}
use marmosa.Projections.Runner.Rebuild.{
  related_in_log, AsksPrecisely, rebuild_lem, SparesEvents, Represents-files,
}
use marmosa.Projections.Composed.{
  World, checkpoint_path, rebuild_lock, rebuild, view, contract, events_of, below_projections,
  not_event, not_index, NumberedFrom-Ascending,
}

module _ (p : Platform) {S : Type 0} (formats : Formats p.Bytes S)
    (projection : ProjectionDefinition S)
    (store : StorageBackendProjectionStore (Flagged p.backend.State) S)
    (log : List EventRecord) where
  abbrev path : Str
  path = checkpoint_path p formats projection store

  -- The files of a projection start with a `P`.
  path_start : is_some (strip_prefix (str "P") path) ≡ true
  unfolding Runner.checkpoint_path strip_prefix
  path_start = refl

  owned_start :
      (q : Str)
      → (is_below (get_projection_path p formats store) q || q == path) ≡ true
      → is_some (strip_prefix (str "P") q) ≡ true
  unfolding get_projection_path
  owned_start q h = ground (
    arith,
    h,
    below_projections store.projection_name q,
    (list_eq {A = ℕ}).beq_iff q path,
    path_start,
  )

  pub spares :
      SparesEvents
        (flagged p)
        log
        (λ q. is_below (get_projection_path p formats store) q || q == path)
  spares = (
    λ q child. ground (arith, owned_start q, not_event q child),
    λ q index. ground (arith, owned_start q, not_index q index),
  )

  -- Behind the checkpoint of a fresh start, every event counts.
  relevant_start :
      (related : Query → List EventRecord) (key : Str)
      → relevant projection related
          (Runner.checkpoint_of
            (flagged p)
            formats
            projection
            (projection_store p formats store)
            0
            0)
          key
          log
        ≡ events_of projection key log
  unfolding is_old Runner.checkpoint_of
  relevant_start related key = retain_congr _ _ log (All-of_forall (λ r. ground arith) log)

  module _ (law : IsLawful p) (lossless : AreLossless formats)
      (named : last (get_projection_path p formats store) ≢ some b'/')
      (apart : is_below (get_projection_path p formats store) path ≡ false) where
    -- The storage represents a log, no task holds the lock of the projection, the keys of the
    -- projection are plain, and the index files are exact for its queries of related events; the
    -- directory of the projection does not end in a slash nor contain the checkpoint, and the
    -- formats read back what they have written. Then `rebuild` returns the highest position of the
    -- log, and the storage represents the same log. Whatever states and checkpoint there were
    -- before, the state of a plain key is the fold, from none, of the events of the log that match
    -- the projection's query and select the key, each with its related events in the log.
    pub rebuild-fold :
        (w : World p formats projection store) (key : Str)
        → All (λ r. (k : Str) → projection.key_selector r ≡ some k → IsPlain k) log
        → All (AsksPrecisely (flagged p) log projection) log
        → (view p formats projection store law w).locked (rebuild_lock p formats projection store)
          ≡ false
        → Represents (flagged p) log (view p formats projection store law w)
        → IsPlain key
        → Runs (rebuild p formats projection store w) (λ position w'.
          (position ≡ furthest 0 log)
          × Represents (flagged p) log (view p formats projection store law w')
          × Runs (get p formats store key w') (λ state _.
            state
            ≡ fold_state projection
                (related_in_log (flagged p) log)
                none
                (events_of projection key log)))
    unfolding keyed Runner.checkpoint_of
    rebuild-fold w key keys precise free rep plain =
        let related : Query → List EventRecord = related_in_log (flagged p) log in
        let start : ProjectionCheckpoint =
          Runner.checkpoint_of (flagged p) formats projection (projection_store p formats store) 0
            0 in
        let (position, w', e, (same, h', o)) =
          rebuild_lem (flagged p) (flagged_lawful law) formats projection
            (projection_store p formats store) lossless.checkpoint
            (contract p formats projection store law lossless named apart) apart log w keys precise
            spares free rep in
        let (state, w'', e', (same', v')) =
          get_stored p formats store law.reliable key _ w' (h' key plain) in
        (
          position,
          w',
          e,
          (
            same ∙ checkpoint_after-furthest projection related log start,
            Represents-files (flagged p) log _ _ _ spares o.files rep,
            (
              state,
              w'',
              e',
              same'
                  ∙ (states_after-fold projection related key 0 log start nothing_stored
                        (NumberedFrom-Ascending 0 log rep.numbered)
                      ∙ ap (fold_state projection related none) (relevant_start related key)),
            ),
          ),
        )
