-- ===== src/EventStore/Append.antt =====
-- src/event_store/mod.rs, writing: `append_async` of `MarmosaStore`. The clock is read once in
-- each append, and its value is the argument `now`.
pub mod Record
pub mod Sequence
pub mod Refines
use marmosa.Common.{
  ℕ, ◌+◌, ◌%◌, Option, none, some, List, [], ◌∷◌, Str, str, ltb, if◌then◌else◌, is_empty,
}
use marmosa.Text.{u64_mod, event_file}
use marmosa.Domain.{EventData, EventRecord, AppendCondition}
use marmosa.Exec.{
  io_error, append_condition_failed, Exec, pure, fail, attempt, lift, ignore, unwrap_or, ok_or,
  ◌>>=◌, ◌>>◌,
}
use marmosa.Ports.{Platform}
use marmosa.EventStore.Indices.{add_event_to_indices}
use marmosa.EventStore.Read.{file_positions, read_internal}

-- `.max()`
unfoldable pub max_position : List ℕ → Option ℕ
max_position [] = none
max_position (x ∷ xs) = elim (max_position xs) [
  | none ↦ some x
  | some m ↦ some (if ltb m x then x else m)
]

-- `.max().map(|v| v + 1).unwrap_or(0)`
unfoldable pub next_sequence : List Str → ℕ
unfolding max_position file_positions
next_sequence files = elim (max_position (file_positions files)) [
  | none ↦ 0
  | some v ↦ (v + 1) % u64_mod
]

-- The record that an event becomes.
unfoldable pub to_record : ℕ → ℕ → EventData → EventRecord
to_record now sequence event = record {
  position = sequence;
  event_id = event.event_id;
  event = event.event;
  metadata = event.metadata;
  timestamp = now;
}

module _ (p : Platform) where
  open p use {event_json, backend}
  open p.backend use {State}

  -- `if let Some(cond) = condition { … }`
  unfoldable pub check_condition : Option AppendCondition → Exec State (Unit {0})
  check_condition none = pure tt
  check_condition (some cond) = do
    current_events ←
        read_internal p cond.fail_if_events_match cond.after_sequence_position none none
    if is_empty current_events then pure tt else fail append_condition_failed

  -- One round of the loop over the events
  unfoldable pub append_record : EventRecord → Exec State (Unit {0})
  append_record r = do
    content ← ok_or io_error (event_json.to_vec r)
    backend.write_file (event_file (str "Events") r.position) content
    add_event_to_indices p (str "Indices") r

  -- The loop over the events
  unfoldable pub append_events : ℕ → List EventData → ℕ → Exec State (Unit {0})
  unfolding to_record
  append_events now [] sequence = pure tt
  append_events now (event ∷ events) sequence = do
    append_record (to_record now sequence event)
    append_events now events ((sequence + 1) % u64_mod)

  -- The `async` block of `append_async`
  unfoldable pub append_locked : ℕ → List EventData → Option AppendCondition → Exec State (Unit {0})
  unfolding append_events append_record check_condition
  append_locked now events condition = do
    ignore (backend.create_dir_all (str "Events"))
    existing_files ← unwrap_or [] (backend.read_dir (str "Events"))
    check_condition condition
    append_events now events (next_sequence existing_files)

  -- `append_async`: the lock is given back whatever the block does.
  unfoldable pub append_async : ℕ → List EventData → Option AppendCondition → Exec State (Unit {0})
  unfolding append_locked
  append_async now events condition = do
    backend.acquire_stream_lock (str "global_store")
    result ← attempt (append_locked now events condition)
    ignore (backend.release_stream_lock (str "global_store"))
    lift result
