-- ===== src/Projections/Store/Metadata.antt =====
-- src/projections.rs: the metadata of `StorageBackendProjectionStore` in its index file and in the
-- files of the keys.
use marmosa.Common.{
  ℕ, zero, suc, ◌+◌, ◌%◌, Bool, true, false, Option, none, some, List, [], ◌∷◌, ◌++◌, Str, str,
  length, if◌then◌else◌, nat_eq, list_eq,
}
use marmosa.Text.{u64_mod, strip_suffix, last_segment}
use marmosa.Exec.{Result, ok, err, Exec, pure, attempt, ignore, unwrap_or, ◌>>=◌, ◌>>◌}
use marmosa.Ports.{Platform, Backend, is_some}
use marmosa.InMemory.Map
use marmosa.InMemory.Map.{BTreeMap}
use marmosa.Projections.{ProjectionMetadata, Formats}
use marmosa.Projections.Flagged.{Flagged, flagged_backend}
use marmosa.Projections.Store.{
  StorageBackendProjectionStore, is_json, get_projection_path, get_file_path,
}

-- `trim_end_matches(".json")`, by at most as many rounds as the name has characters
unfoldable pub trim_json : ℕ → Str → Str
trim_json zero name = name
trim_json (suc f) name = elim (strip_suffix (str ".json") name) [
  | none ↦ name
  | some r ↦ trim_json f r
]

-- `rsplit('/').next()`, trimmed
unfoldable pub file_key : Str → Str
unfolding trim_json
file_key file_path = let name = last_segment file_path in trim_json (length name) name

-- The metadata of a new version
unfoldable pub next_metadata : ℕ → Option ProjectionMetadata → ProjectionMetadata
next_metadata now none = record {
  created_at = now;
  last_updated_at = now;
  version = 1;
  size_in_bytes = 0;
}
next_metadata now (some m) = record m { version = (m.version + 1) % u64_mod; last_updated_at = now }

module _ (p : Platform) {S : Type 0} (formats : Formats p.Bytes S)
    (store : StorageBackendProjectionStore (Flagged p.backend.State) S) where
  open p use {Bytes, empty_file, size, to_lowercase}
  open formats use {state_json, wrapper_json, metadata_json}

  abbrev World : Type 0
  World = Flagged p.backend.State

  abbrev backend : Backend Bytes
  backend = flagged_backend p.backend

  unfoldable pub metadata_dir : Str
  unfolding get_projection_path
  metadata_dir = get_projection_path p formats store ++ str "/Metadata"

  unfoldable pub metadata_index_path : Str
  unfolding get_projection_path
  metadata_index_path = get_projection_path p formats store ++ str "/Metadata/index.json"

  -- The metadata of a wrapper that is there, in batch mode
  unfoldable pub wrapped_metadata : Result Bytes → Option ProjectionMetadata
  wrapped_metadata (err e) = none
  wrapped_metadata (ok content) = elim (wrapper_json.from_slice content) [
    | none ↦ none
    | some wrapper ↦ some wrapper.metadata
  ]

  -- The content of the metadata index, empty if it is missing or corrupt
  unfoldable pub parse_index : Result Bytes → BTreeMap ProjectionMetadata
  parse_index (err e) = Map.empty
  parse_index (ok content) = elim (metadata_json.from_slice content) [
    | none ↦ Map.empty
    | some index ↦ index
  ]

  -- `if is_batch { None } else { … }`
  unfoldable pub index_unless : Bool → Exec World (Option (BTreeMap ProjectionMetadata))
  unfolding metadata_dir metadata_index_path parse_index
  index_unless true = pure none
  index_unless false = do
    ignore (backend.create_dir_all metadata_dir)
    content ← attempt (backend.read_file metadata_index_path)
    pure (some (parse_index content))

  -- `metadata_index_state`: the index that `save` has read, if not in batch mode
  unfoldable pub read_metadata_index : Exec World (Option (BTreeMap ProjectionMetadata))
  unfolding index_unless
  read_metadata_index w = index_unless w.skip_index_writes w

  -- The previous metadata, from the file of the key in batch mode, from the index otherwise
  unfoldable pub old_metadata :
      Str → Option (BTreeMap ProjectionMetadata) → Exec World (Option ProjectionMetadata)
  unfolding get_file_path wrapped_metadata
  old_metadata key (some index) = pure (Map.get key index)
  old_metadata key none = do
    content ← attempt (backend.read_file (get_file_path p formats store key))
    pure (wrapped_metadata content)

  -- `if let Some((metadata_index_path, mut metadata_index)) = metadata_index_state`
  unfoldable pub write_metadata_index :
      Str → ProjectionMetadata → Option (BTreeMap ProjectionMetadata) → Exec World (Unit {0})
  unfolding metadata_index_path
  write_metadata_index key metadata none = pure tt
  write_metadata_index key metadata (some index) =
      elim (metadata_json.to_vec (Map.insert key metadata index)) [
        | none ↦ pure tt
        | some content ↦ ignore (backend.write_file metadata_index_path content)
      ]

  -- `if metadata_index.remove(key).is_some()`
  unfoldable pub forget_in : Str → BTreeMap ProjectionMetadata → Exec World (Unit {0})
  unfolding metadata_index_path
  forget_in key index =
      if is_some (Map.get key index)
      then elim (metadata_json.to_vec (Map.remove key index)) [
        | none ↦ pure tt
        | some content ↦ ignore (backend.write_file metadata_index_path content)
      ]
      else pure tt

  unfoldable pub forget_read : Str → Result Bytes → Exec World (Unit {0})
  unfolding forget_in
  forget_read key (err e) = pure tt
  forget_read key (ok content) = elim (metadata_json.from_slice content) [
    | none ↦ pure tt
    | some index ↦ forget_in key index
  ]

  unfoldable pub forget_unless : Bool → Str → Exec World (Unit {0})
  unfolding metadata_index_path forget_read
  forget_unless true key = pure tt
  forget_unless false key = do
    content ← attempt (backend.read_file metadata_index_path)
    forget_read key content

  -- The part of `delete` that updates the metadata index, if not in batch mode
  unfoldable pub forget_metadata : Str → Exec World (Unit {0})
  unfolding forget_unless
  forget_metadata key w = forget_unless w.skip_index_writes key w

  -- The metadata of one file, for the index that is rebuilt
  unfoldable pub listed_metadata : Str → Exec World (Option ProjectionMetadata)
  unfolding is_json wrapped_metadata
  listed_metadata file_path =
      if is_json file_path
      then (do content ← attempt (backend.read_file file_path); pure (wrapped_metadata content))
      else pure none

  -- The loop of `rebuild_metadata_index`
  unfoldable pub collect_metadata :
      List Str → BTreeMap ProjectionMetadata → Exec World (BTreeMap ProjectionMetadata)
  unfolding listed_metadata file_key
  collect_metadata [] index = pure index
  collect_metadata (file_path ∷ files) index = do
    found ← listed_metadata file_path
    collect_metadata files (elim found [
      | none ↦ index
      | some metadata ↦ Map.insert (file_key file_path) metadata index
    ])

  -- `rebuild_metadata_index`
  unfoldable pub rebuild_metadata_index : Exec World (Unit {0})
  unfolding collect_metadata get_projection_path metadata_dir metadata_index_path
  rebuild_metadata_index = do
    files ← unwrap_or [] (backend.read_dir (get_projection_path p formats store))
    index ← collect_metadata files Map.empty
    ignore (backend.create_dir_all metadata_dir)
    elim (metadata_json.to_vec index) [
      | none ↦ pure tt
      | some content ↦ backend.write_file metadata_index_path content
    ]
