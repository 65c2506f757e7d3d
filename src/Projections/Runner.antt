-- ===== src/Projections/Runner.antt =====
-- src/projections.rs: `ProjectionRunner`, which applies the events of a store to the states of a
-- projection and keeps in a checkpoint how far it has come. The runner holds a storage, a
-- projection and a store of states; the event store that it reads from is a function.
pub mod Fold
pub mod Steps
pub mod Process
pub mod Rebuild
use marmosa.Common.{
  ℕ, ◌+◌, ◌%◌, Bool, true, false, not, ◌&&◌, Option, none, some, List, [], ◌∷◌, ◌++◌, Str, str, leb,
  ltb, if◌then◌else◌,
}
use marmosa.Text.{u64_mod}
use marmosa.Domain.{EventRecord, Query, ReadOption, matches, query_all}
use marmosa.Exec.{ok, err, io_error, Exec, pure, fail, attempt, ignore, lift, ok_or, ◌>>=◌, ◌>>◌}
use marmosa.Ports.{Platform}
use marmosa.Maintain.Ledger.{is_not_found}
use marmosa.Projections.{ProjectionDefinition, ProjectionStore, ProjectionCheckpoint, Formats}

-- `EventStore::read_async`
abbrev pub EventReader : Type 0 → Type 0
EventReader W = Query → Option ℕ → Option ℕ → Option (List ReadOption) → Exec W (List EventRecord)

-- The event was processed already.
unfoldable pub is_old : ProjectionCheckpoint → EventRecord → Bool
is_old checkpoint event =
    leb event.position checkpoint.last_position && ltb 0 checkpoint.last_position

-- The checkpoint behind an event that matches
unfoldable pub count : EventRecord → ProjectionCheckpoint → ProjectionCheckpoint
count event checkpoint = record checkpoint {
  last_position = event.position;
  total_events_processed = (checkpoint.total_events_processed + 1) % u64_mod;
}

module _ (p : Platform) {S : Type 0} (formats : Formats p.Bytes S)
    (projection : ProjectionDefinition S) (store : ProjectionStore p.backend.State S) where
  open p use {Bytes, backend}
  open p.backend use {State}
  open formats use {checkpoint_json}

  -- `checkpoint_path`
  unfoldable pub checkpoint_path : Str
  checkpoint_path = str "Projections/_checkpoints/" ++ (projection.projection_name ++ str ".json")

  -- `get_checkpoint`
  unfoldable pub get_checkpoint : Exec State (Option ProjectionCheckpoint)
  unfolding is_not_found
  get_checkpoint = do
    content ← attempt (backend.read_file checkpoint_path)
    elim content [
      | ok data_read ↦ (do
        checkpoint ← ok_or io_error (checkpoint_json.from_slice data_read)
        pure (some checkpoint))
      | err e ↦ if is_not_found {A = Bytes} (err e) then pure none else fail e
    ]

  unfoldable pub checkpoint_of : ℕ → ℕ → ProjectionCheckpoint
  checkpoint_of position total_events = record {
    projection_name = projection.projection_name;
    last_position = position;
    last_updated = 0;
    total_events_processed = total_events;
  }

  -- `save_checkpoint`
  unfoldable pub save_checkpoint : ℕ → ℕ → Exec State (Unit {0})
  unfolding checkpoint_of
  save_checkpoint position total_events = do
    ignore (backend.create_dir_all (str "Projections/_checkpoints"))
    content ← ok_or io_error (checkpoint_json.to_vec (checkpoint_of position total_events))
    backend.write_file checkpoint_path content

  -- The related events of an event, none without an event store
  unfoldable pub read_related :
      Option (EventReader State) → Option Query → Exec State (List EventRecord)
  read_related event_store none = pure []
  read_related none (some query) = pure []
  read_related (some read_async) (some query) = read_async query none none none

  -- `new_state`
  unfoldable pub new_state :
      Option (EventReader State) → Option S → EventRecord → Exec State (Option S)
  unfolding read_related
  new_state event_store current_state event = elim projection.as_related_events [
    | none ↦ pure (projection.apply current_state event)
    | some as_related ↦ (do
      rel_events ← read_related event_store (as_related.get_related_events_query event)
      pure (as_related.apply_with_related current_state event rel_events))
  ]

  -- `match new_state`
  unfoldable pub put_state : Str → Option S → Exec State (Unit {0})
  put_state key none = store.delete key
  put_state key (some s) = store.save key s

  -- `if let Some(key) = self.projection.key_selector(event)`
  unfoldable pub apply_event :
      Option (EventReader State) → Option Str → EventRecord → Exec State (Unit {0})
  unfolding new_state put_state
  apply_event event_store none event = pure tt
  apply_event event_store (some key) event = do
    current_state ← store.get key
    state ← new_state event_store current_state event
    put_state key state

  -- One round of the loop
  unfoldable pub process_event :
      Option (EventReader State)
      → EventRecord
      → ProjectionCheckpoint
      → Exec State ProjectionCheckpoint
  unfolding apply_event is_old count
  process_event event_store event checkpoint =
      if is_old checkpoint event
      then pure checkpoint
      else if not (matches projection.event_types event)
      then pure (record checkpoint { last_position = event.position })
      else (do
        apply_event event_store (projection.key_selector event) event
        pure (count event checkpoint))

  -- `for event in events`
  unfoldable pub process_each :
      Option (EventReader State)
      → List EventRecord
      → ProjectionCheckpoint
      → Exec State ProjectionCheckpoint
  unfolding process_event
  process_each event_store [] checkpoint = pure checkpoint
  process_each event_store (event ∷ events) checkpoint = do
    next ← process_event event_store event checkpoint
    process_each event_store events next

  -- `unwrap_or_else` of the checkpoint
  unfoldable pub or_start : Option ProjectionCheckpoint → ProjectionCheckpoint
  unfolding checkpoint_of
  or_start none = checkpoint_of 0 0
  or_start (some checkpoint) = checkpoint

  -- `process_events_internal`, which is `process_events_with_store`
  unfoldable pub process_events_with_store :
      List EventRecord → Option (EventReader State) → Exec State ℕ
  unfolding get_checkpoint process_each save_checkpoint or_start
  process_events_with_store events event_store = do
    found ← get_checkpoint
    checkpoint ← process_each event_store events (or_start found)
    (if ltb 0 checkpoint.last_position
        then save_checkpoint checkpoint.last_position checkpoint.total_events_processed
        else pure tt)
    pure checkpoint.last_position

  -- `process_events`
  unfoldable pub process_events : List EventRecord → Exec State ℕ
  unfolding process_events_with_store
  process_events events = process_events_with_store events none

  -- The asynchronous block of `rebuild`: up to the first `set_batch_mode`
  unfoldable pub reset : Exec State (Unit {0})
  unfolding save_checkpoint
  reset = do store.clear; save_checkpoint 0 0; store.set_batch_mode true

  -- From the second `set_batch_mode` on
  unfoldable pub wind_up : Exec State (Unit {0})
  wind_up = do store.set_batch_mode false; store.rebuild_metadata_index

  -- The whole block
  unfoldable pub rebuild_locked : EventReader State → Exec State ℕ
  unfolding reset wind_up process_events_with_store
  rebuild_locked read_async = do
    reset
    events ← read_async query_all none none none
    result ← attempt (process_events_with_store events (some read_async))
    wind_up
    lift result

  abbrev pub rebuild_lock : Str
  rebuild_lock = str ".proj_lock_" ++ projection.projection_name

  -- `rebuild`
  unfoldable pub rebuild : EventReader State → Exec State ℕ
  unfolding rebuild_locked
  rebuild read_async = do
    backend.acquire_stream_lock rebuild_lock
    res ← attempt (rebuild_locked read_async)
    ignore (backend.release_stream_lock rebuild_lock)
    lift res
