-- ===== src/Maintain/Ledger.antt =====
-- src/event_store/ledger.rs: the last position, kept in a file `.ledger`.
pub mod Laws
use marmosa.Common.{
  ℕ, zero, suc, ◌+◌, ◌%◌, Bool, true, false, ◌&&◌, Option, none, some, List, [], ◌∷◌, ◌++◌, Str,
  str, ◌==◌, nat_eq, ltb, if◌then◌else◌,
}
use marmosa.Text.{u64_mod}
use marmosa.Exec.{
  Error, Result, ok, err, io_error, not_found, already_exists, append_condition_failed,
  argument_error, Exec, pure, fail, attempt, ignore, ok_or, ◌>>=◌, ◌>>◌,
}
use marmosa.Ports.{Platform, Codec}
use marmosa.EventStore.Read.{file_positions}
use marmosa.EventStore.Append.{max_position}

pub record LedgerData : Type 0 where
  pub last_sequence_position : ℕ
  pub event_count : ℕ

-- `LedgerManager::ledger_path`
unfoldable pub ledger_path : Str → Str
ledger_path context_path = context_path ++ str "/.ledger"

unfoldable pub is_not_found : {A : Type 0} → Result A → Bool
is_not_found (ok a) = false
is_not_found (err not_found) = true
is_not_found (err io_error) = false
is_not_found (err already_exists) = false
is_not_found (err append_condition_failed) = false
is_not_found (err (argument_error message)) = false

-- `.max().unwrap_or(0)`
unfoldable pub highest : List Str → ℕ
unfolding max_position file_positions
highest files = elim (max_position (file_positions files)) [ none ↦ 0 | some v ↦ v ]

module _ (p : Platform) (ledger_json : Codec p.Bytes LedgerData) where
  open p use {Bytes, size, backend}
  open p.backend use {State}

  -- The position in the content of a ledger file; an empty file counts as 0.
  unfoldable pub parse_ledger : Bytes → Exec State ℕ
  parse_ledger content = if size content == 0 then pure 0 else (do
    ledger ← ok_or io_error (ledger_json.from_slice content)
    pure ledger.last_sequence_position)

  -- `get_last_sequence_position_async`
  unfoldable pub get_last_sequence_position : Str → Exec State ℕ
  unfolding parse_ledger is_not_found
  get_last_sequence_position context_path = do
    content ← attempt (backend.read_file (ledger_path context_path))
    elim content [
      | ok found ↦ parse_ledger found
      | err e ↦ if is_not_found {A = Bytes} (err e) then pure 0 else fail e
    ]

  -- `get_next_sequence_position_async`; the second read is made only if the position is 0.
  unfoldable pub get_next_sequence_position : Str → Exec State ℕ
  unfolding get_last_sequence_position
  get_next_sequence_position context_path = do
    last ← get_last_sequence_position context_path
    if last == 0
        then (do
          content ← attempt (backend.read_file (ledger_path context_path))
          pure (if is_not_found content then 1 else (last + 1) % u64_mod))
        else pure ((last + 1) % u64_mod)

  -- `update_sequence_position_async`
  unfoldable pub update_sequence_position : Str → ℕ → Exec State (Unit {0})
  unfolding ledger_path
  update_sequence_position context_path position = do
    ignore (backend.create_dir_all context_path)
    content ←
        ok_or io_error (
          ledger_json.to_vec (record { last_sequence_position = position; event_count = position }))
    backend.write_file (ledger_path context_path) content

  -- `acquire_lock_async` and `release_lock_async`
  unfoldable pub acquire_lock : Str → Exec State (Unit {0})
  acquire_lock context_path = backend.acquire_stream_lock context_path

  unfoldable pub release_lock : Str → Exec State (Unit {0})
  release_lock context_path = backend.release_stream_lock context_path

  -- `reconcile_ledger_async`
  unfoldable pub reconcile_ledger : Str → Str → Exec State (Unit {0})
  unfolding highest get_last_sequence_position update_sequence_position
  reconcile_ledger context_path events_dir = do
    files ← attempt (backend.read_dir events_dir)
    elim files [
      | err e ↦ pure tt
      | ok names ↦ (do
        last ← get_last_sequence_position context_path
        if ltb last (highest names)
            then update_sequence_position context_path (highest names)
            else pure tt)
    ]
