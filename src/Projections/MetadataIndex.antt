-- ===== src/Projections/MetadataIndex.antt =====
-- src/projections.rs: `ProjectionMetadataIndex`, one file with the metadata of all keys of a
-- projection. It is written as a map with owned keys and read as one with borrowed keys.
pub mod Laws
pub mod Contract
pub mod Since
use marmosa.Common.{
  ℕ, Option, none, some, List, [], ◌∷◌, ◌++◌, Str, str, leb, is_empty, if◌then◌else◌, nat_eq,
}
use marmosa.Exec.{Result, ok, err, Exec, pure, fail, attempt, ignore, unwrap_or, ◌>>=◌, ◌>>◌}
use marmosa.Ports.{Platform, Codec, is_some}
use marmosa.InMemory.Map
use marmosa.InMemory.Map.{BTreeMap}
use marmosa.Maintain.Ledger.{is_not_found}
use marmosa.Projections.{ProjectionMetadata}

abbrev pub Index : Type 0
Index = BTreeMap ProjectionMetadata

-- `{root}/Metadata/index.json`
unfoldable pub get_index_path : Str → Str
get_index_path root = root ++ str "/Metadata/index.json"

unfoldable pub get_lock_key : Str → Str
get_lock_key root = str "metadata_lock:" ++ root

-- `if v.last_updated_at >= cutoff_time`
unfoldable pub updated_since : ℕ → List (Str × ProjectionMetadata) → List (Str × ProjectionMetadata)
updated_since cutoff_time [] = []
updated_since cutoff_time ((k, v) ∷ entries) =
    let rest = updated_since cutoff_time entries in
    if leb cutoff_time v.last_updated_at then (k, v) ∷ rest else rest

module _ (p : Platform) (index_json : Codec p.Bytes Index) where
  open p use {Bytes, backend}
  open p.backend use {State}

  unfoldable pub parse_index : Result Bytes → Exec State Index
  unfolding is_not_found
  parse_index (ok content) = elim (index_json.from_slice content) [
    | none ↦ pure Map.empty
    | some index ↦ pure index
  ]
  parse_index (err e) = if is_not_found {A = Bytes} (err e) then pure Map.empty else fail e

  -- `read_index`
  unfoldable pub read_index : Str → Exec State Index
  unfolding parse_index
  read_index path = do content ← attempt (backend.read_file path); parse_index content

  -- `if let Ok(data) = serde_json::to_vec(&index)`
  unfoldable pub write_index : Str → Index → Exec State (Unit {0})
  write_index path index = elim (index_json.to_vec index) [
    | none ↦ pure tt
    | some content ↦ ignore (backend.write_file path content)
  ]

  -- `save`
  unfoldable pub save_metadata : Str → Str → ProjectionMetadata → Exec State (Unit {0})
  unfolding get_index_path get_lock_key read_index write_index
  save_metadata root key metadata = do
    ignore (backend.create_dir_all (root ++ str "/Metadata"))
    backend.acquire_stream_lock (get_lock_key root)
    index ← unwrap_or Map.empty (read_index (get_index_path root))
    write_index (get_index_path root) (Map.insert key metadata index)
    backend.release_stream_lock (get_lock_key root)

  -- `get`
  unfoldable pub get_metadata : Str → Str → Exec State (Option ProjectionMetadata)
  unfolding get_index_path read_index
  get_metadata root key = do
    index ← unwrap_or Map.empty (read_index (get_index_path root))
    pure (Map.get key index)

  -- `get_all`
  unfoldable pub get_all_metadata : Str → Exec State Index
  unfolding get_index_path read_index
  get_all_metadata root = unwrap_or Map.empty (read_index (get_index_path root))

  -- `get_updated_since`
  unfoldable pub get_updated_since : Str → ℕ → Exec State (List (Str × ProjectionMetadata))
  unfolding get_index_path read_index updated_since
  get_updated_since root cutoff_time = do
    index ← unwrap_or Map.empty (read_index (get_index_path root))
    pure (updated_since cutoff_time index.entries)

  -- `if index.remove(key).is_some()`
  unfoldable pub drop_metadata : Str → Str → Index → Exec State (Unit {0})
  unfolding write_index
  drop_metadata path key index =
      let rest = Map.remove key index in
      if is_some (Map.get key index)
      then (if is_empty rest.entries
          then ignore (backend.delete_file path)
          else write_index path rest)
      else pure tt

  -- `delete` of an index that is there
  unfoldable pub delete_locked : Str → Str → Exec State (Unit {0})
  unfolding get_index_path get_lock_key read_index drop_metadata
  delete_locked root key = do
    backend.acquire_stream_lock (get_lock_key root)
    index ← unwrap_or Map.empty (read_index (get_index_path root))
    drop_metadata (get_index_path root) key index
    backend.release_stream_lock (get_lock_key root)

  -- `delete`
  unfoldable pub delete_metadata : Str → Str → Exec State (Unit {0})
  unfolding delete_locked
  delete_metadata root key = do
    there ← backend.file_exists (get_index_path root)
    (if there then delete_locked root key else pure tt)

  -- `clear`
  unfoldable pub clear_metadata : Str → Exec State (Unit {0})
  unfolding get_index_path get_lock_key
  clear_metadata root = do
    backend.acquire_stream_lock (get_lock_key root)
    ignore (backend.delete_file (get_index_path root))
    backend.release_stream_lock (get_lock_key root)
