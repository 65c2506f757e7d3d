-- ===== src/Maintain/Files.antt =====
-- src/event_store/files.rs: single event files, addressed by signed positions.
pub mod Laws
use marmosa.Common.{
  ℕ, zero, suc, ◌+◌, ◌-◌, ◌^◌, Bool, true, false, not, ◌&&◌, Option, none, some, List, [], ◌∷◌,
  ◌++◌, Str, ◌==◌, nat_eq, ltb, leb, is_empty, if◌then◌else◌,
}
use marmosa.Text.{u64_mod, event_file}
use marmosa.Domain.{EventRecord}
use marmosa.Exec.{
  io_error, Exec, pure, fail, attempt, ignore, ok_or, lift, Result, ok, err, ◌>>=◌, ◌>>◌,
}
use marmosa.Ports.{Platform}

-- An `i64`: `pos n` is n, and `negsuc n` is -(n + 1).
pub data ℤ : Type 0 where
  pos : ℕ → ℤ
  negsuc : ℕ → ℤ

-- `position as i64` of a `u64`
unfoldable pub as_i64 : ℕ → ℤ
as_i64 n = if ltb n (2 ^ 63) then pos n else negsuc (u64_mod - (n + 1))

-- `EventFileManager::get_event_file_path`
unfoldable pub get_event_file_path : Str → ℤ → Result Str
get_event_file_path events_path (pos zero) = err io_error
get_event_file_path events_path (negsuc n) = err io_error
get_event_file_path events_path (pos (suc n)) =
    if is_empty events_path then err io_error else ok (event_file events_path (suc n))

module _ (p : Platform) where
  open p use {size, event_json, backend}
  open p.backend use {State}

  -- `event_file_exists`
  unfoldable pub event_file_exists : Str → ℤ → Exec State Bool
  unfolding get_event_file_path
  event_file_exists events_path position = elim (get_event_file_path events_path position) [
    | ok path ↦ backend.file_exists path
    | err e ↦ pure false
  ]

  -- The part of `write_event_async` that writes: at most 1024 bytes.
  unfoldable pub write_event_file : Str → Str → EventRecord → Exec State (Unit {0})
  write_event_file events_path path event = do
    ignore (backend.create_dir_all events_path)
    content ← ok_or io_error (event_json.to_vec event)
    if ltb 1024 (size content) then fail io_error else backend.write_file path content

  -- `write_event_async`; the file is looked up only if it must not be overwritten.
  unfoldable pub write_event : Str → EventRecord → Bool → Exec State (Unit {0})
  unfolding get_event_file_path write_event_file as_i64
  write_event events_path event allow_overwrite =
      if is_empty events_path
      then fail io_error
      else if event.position == 0
      then fail io_error
      else (do
        path ← lift (get_event_file_path events_path (as_i64 event.position))
        found ← if allow_overwrite then pure false else backend.file_exists path
        if found then pure tt else write_event_file events_path path event)

  -- `read_event_async`
  unfoldable pub read_event : Str → ℤ → Exec State EventRecord
  unfolding get_event_file_path
  read_event events_path position = do
    path ← lift (get_event_file_path events_path position)
    content ← backend.read_file path
    ok_or io_error (event_json.from_slice content)

  -- The loop of `read_events_async`
  unfoldable pub read_each : Str → List ℤ → List EventRecord → Exec State (List EventRecord)
  unfolding read_event
  read_each events_path [] results = pure results
  read_each events_path (position ∷ positions) results = do
    event ← read_event events_path position
    read_each events_path positions (results ++ event ∷ [])

  -- `read_events_async`
  unfoldable pub read_events : Str → List ℤ → Exec State (List EventRecord)
  unfolding read_each
  read_events events_path positions =
      if is_empty events_path then fail io_error else read_each events_path positions []
