-- ===== src/Projections/Composed.antt =====
-- src/projections.rs: a `ProjectionRunner` whose states are in a `StorageBackendProjectionStore` on
-- the storage of the event store.
pub mod Events
pub mod Again
pub mod Rebuilt
use marmosa.Common.{
  ℕ, suc, ◌≤◌, ◌≡◌, ◌≢◌, refl, true, false, ◌&&◌, Option, none, some, List, [], ◌∷◌, ◌++◌, arith,
  Str, str, list_beq, last, All, All-of_forall, retain, ltb, nat_eq, list_eq,
}
use marmosa.Common.Every.{All-mono}
use marmosa.Text.{strip_prefix}
use marmosa.Domain.{EventRecord, Query, matches}
use marmosa.Exec.{Exec}
use marmosa.Exec.Rules.{Runs}
use marmosa.Ports.{Platform, Disk, IsLawful, is_child, is_below, is_some}
use marmosa.EventStore.Log.{IsIndexFile, NumberedFrom}
use marmosa.EventStore.Read.{read_async}
use marmosa.Projections.{ProjectionDefinition, ProjectionCheckpoint, Formats}
use marmosa.Projections.Contract.{AreLossless, States, IsKeyedStore}
use marmosa.Projections.Flagged.{Flagged, flagged, flagged_lawful}
use marmosa.Projections.Store.{StorageBackendProjectionStore, get_projection_path}
use marmosa.Projections.Store.Save.{projection_store}
use marmosa.Projections.Store.Paths.{IsPlain}
use marmosa.Projections.Store.Keyed.{HoldsStates}
use marmosa.Projections.Store.RoundTrip.{keyed}
use marmosa.Projections.Runner
use marmosa.Projections.Runner.{is_old}
use marmosa.Projections.Runner.Fold.{Ascending, selects, states_after, checkpoint_after, AllOld}
use marmosa.Projections.Runner.Process

-- A directory below `Projections/` holds no file of the event store.
pub below_projections :
    (name q : Str)
    → is_below (str "Projections/" ++ name) q ≡ true
    → is_some (strip_prefix (str "P") q) ≡ true
unfolding is_below strip_prefix list_beq
below_projections name [] h = ground (arith, h)
below_projections name (c ∷ cs) h = ground (arith, h)

pub not_event :
    (q : Str) → is_child (str "Events/") q ≡ true → is_some (strip_prefix (str "P") q) ≡ false
unfolding is_child strip_prefix
not_event [] h = refl
not_event (c ∷ cs) h = ground (arith, h)

pub not_index : (q : Str) → IsIndexFile q → is_some (strip_prefix (str "P") q) ≡ false
unfolding strip_prefix
not_index [] h = refl
not_index (c ∷ cs) h = ground (arith, h)

pub NumberedFrom-Ascending : (n : ℕ) (rs : List EventRecord) → NumberedFrom n rs → Ascending n rs
NumberedFrom-Ascending n [] h = tt
NumberedFrom-Ascending n (r ∷ rs) (e, h) =
    (omega arith, rw (← e) at (NumberedFrom-Ascending (suc n) rs h))

-- The events of a key
abbrev pub events_of :
    {S : Type 0} → ProjectionDefinition S → Str → List EventRecord → List EventRecord
events_of projection key rs =
    retain (λ r. matches projection.event_types r && selects projection key r) rs

abbrev pub no_related : Query → List EventRecord
no_related query = []

-- Behind a position that all events have, all are old.
pub all_old :
    {S : Type 0} (projection : ProjectionDefinition S) (c : ProjectionCheckpoint) (n : ℕ)
    (rs : List EventRecord)
    → c.last_position ≡ n
    → ltb 0 n ≡ true
    → All (λ r. r.position ≤ n) rs
    → AllOld projection no_related c rs
unfolding is_old
all_old projection c n rs e behind h =
    All-mono _ _ (λ r below. ground (arith, e, behind, below)) rs h

module _ (p : Platform) {S : Type 0} (formats : Formats p.Bytes S)
    (projection : ProjectionDefinition S)
    (store : StorageBackendProjectionStore (Flagged p.backend.State) S) where
  abbrev pub World : Type 0
  World = Flagged p.backend.State

  abbrev pub checkpoint_path : Str
  checkpoint_path =
      Runner.checkpoint_path (flagged p) formats projection (projection_store p formats store)

  abbrev pub rebuild_lock : Str
  rebuild_lock =
      Runner.rebuild_lock (flagged p) formats projection (projection_store p formats store)

  abbrev pub rebuild : Exec World ℕ
  rebuild =
      Runner.rebuild (flagged p) formats projection (projection_store p formats store)
        (read_async (flagged p))

  abbrev pub process_events : List EventRecord → Exec World ℕ
  process_events rs =
      Runner.process_events (flagged p) formats projection (projection_store p formats store) rs

  abbrev pub start_of : Option ProjectionCheckpoint → ProjectionCheckpoint
  start_of found =
      Runner.or_start (flagged p) formats projection (projection_store p formats store) found

  module _ (law : IsLawful p) where
    abbrev pub view : World → Disk p.Bytes
    view w = law.reliable.view w.storage

    -- The checkpoint in the storage
    abbrev pub HasCheckpoint : World → Option ProjectionCheckpoint → Type 0
    HasCheckpoint w found =
        Process.HasCheckpoint (flagged p) (flagged_lawful law).reliable formats projection
          (projection_store p formats store) (view w) found

    abbrev pub Holds : States S → World → Type 0
    Holds states w = HoldsStates p formats store law.reliable states (view w)

    module _ (lossless : AreLossless formats)
        (named : last (get_projection_path p formats store) ≢ some b'/')
        (apart : is_below (get_projection_path p formats store) checkpoint_path ≡ false) where
      abbrev pub contract :
          IsKeyedStore
            (flagged p)
            (flagged_lawful law).reliable.view
            (projection_store p formats store)
      contract = keyed p formats store law.reliable lossless.wrapper lossless.metadata named

      -- Without an event store to ask, no storage is needed for the answers.
      pub process_events_lem :
          (rs : List EventRecord) (found : Option ProjectionCheckpoint) (states : States S)
          (w : World)
          → All (λ r. (key : Str) → projection.key_selector r ≡ some key → IsPlain key) rs
          → HasCheckpoint w found
          → Holds states w
          → Runs (process_events rs w) (λ position w'.
            let c = checkpoint_after projection no_related rs (start_of found) in
            (position ≡ c.last_position)
            × HasCheckpoint w' (
                Process.final_checkpoint
                  (flagged p)
                  (flagged_lawful law).reliable
                  formats
                  projection
                  (projection_store p formats store)
                  lossless.checkpoint
                  found
                  c)
            × Holds (states_after projection no_related rs (start_of found) states) w')
      unfolding Runner.process_events keyed
      process_events_lem rs found states w keys has h =
          let (position, w', e, (same, has', h', o)) =
            Process.process_events_with_store_lem (flagged p) (flagged_lawful law).reliable formats
              projection (projection_store p formats store) lossless.checkpoint contract apart none
              no_related (λ d. Unit {0}) (λ d d' o t. tt) rs found states w keys
              (All-of_forall (λ r query e. refl) rs) has tt h in
          (position, w', e, (same, has', h'))
