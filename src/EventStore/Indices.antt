-- ===== src/EventStore/Indices.antt =====
-- src/event_store/indices.rs: for each event type and each tag a file with the positions of the
-- events that have it. `TagIndex`, `EventTypeIndex` and `IndexManager` hold a storage and nothing
-- else, so their methods are functions of the platform.
pub mod Laws
use marmosa.Common.{
  ℕ, Bool, Option, none, some, List, [], ◌∷◌, ◌++◌, map, Str, str, ◌==◌, nat_eq, if◌then◌else◌,
  contains,
}
use marmosa.Common.Sorted.{sort_unstable}
use marmosa.Text.{replace}
use marmosa.Domain.{Tag, EventRecord}
use marmosa.Exec.{Result, ok, err, Exec, pure, attempt, ignore, ◌>>=◌, ◌>>◌}
use marmosa.Ports.{Platform, Codec, Backend}

-- `dedup()`: drops an element that equals the one before it.
unfoldable pub dedup : List ℕ → List ℕ
dedup [] = []
dedup (x ∷ []) = x ∷ []
dedup (x ∷ y ∷ ys) = let rest = dedup (y ∷ ys) in if x == y then rest else x ∷ rest

module _ (p : Platform) where
  open p use {Bytes, to_lowercase, positions_json, backend}
  open p.backend use {State}

  -- `sanitize_name`, the same in both index types
  unfoldable pub sanitize_name : Str → Str
  sanitize_name name = to_lowercase (replace b'?' (replace b'*' (replace b':' (replace b'/' name))))

  -- `TagIndex::get_file_path`
  unfoldable pub tag_path : Str → Tag → Str
  tag_path root tag =
      root
      ++ (str "/Tags/"
          ++ (sanitize_name tag.key ++ (str "_" ++ (sanitize_name tag.value ++ str ".json"))))

  -- `EventTypeIndex::get_file_path`
  unfoldable pub type_path : Str → Str → Str
  type_path root event_type =
      root ++ (str "/EventTypes/" ++ (sanitize_name event_type ++ str ".json"))

  -- The positions in the content of an index file; one that is missing or corrupt counts as empty.
  unfoldable pub read_positions : Result Bytes → List ℕ
  read_positions (err e) = []
  read_positions (ok content) = elim (positions_json.from_slice content) [
    | none ↦ []
    | some positions ↦ positions
  ]

  -- The branch of `add_position_async` that writes; what fails here is dropped.
  unfoldable pub write_positions : Str → List ℕ → Exec State (Unit {0})
  write_positions file_path positions = elim (positions_json.to_vec positions) [
    | none ↦ pure tt
    | some content ↦ ignore (backend.write_file file_path content)
  ]

  -- `if !positions.contains(&position) { … }`
  unfoldable pub update_positions : Str → ℕ → List ℕ → Exec State (Unit {0})
  update_positions file_path position positions =
      if contains position positions
      then pure tt
      else write_positions file_path (sort_unstable (positions ++ position ∷ []))

  -- The body that `TagIndex::add_position_async` and `EventTypeIndex::add_position_async` share.
  unfoldable pub add_position : Str → Str → Str → ℕ → Exec State (Unit {0})
  add_position dir_path file_path lock_key position = do
    ignore (backend.create_dir_all dir_path)
    backend.acquire_stream_lock lock_key
    content ← attempt (backend.read_file file_path)
    update_positions file_path position (read_positions content)
    backend.release_stream_lock lock_key

  -- `TagIndex::add_position_async`
  unfoldable pub add_tag_position : Str → Tag → ℕ → Exec State (Unit {0})
  unfolding add_position
  add_tag_position root tag position =
      add_position (root ++ str "/Tags") (tag_path root tag) (str "tag_lock:" ++ tag_path root tag)
        position

  -- `EventTypeIndex::add_position_async`
  unfoldable pub add_type_position : Str → Str → ℕ → Exec State (Unit {0})
  unfolding add_position
  add_type_position root event_type position =
      add_position (root ++ str "/EventTypes") (type_path root event_type)
        (str "event_type_lock:" ++ type_path root event_type) position

  -- `get_positions_async` of either index, at its file
  unfoldable pub get_positions : Str → Exec State (List ℕ)
  get_positions file_path = do
    content ← attempt (backend.read_file file_path)
    pure (read_positions content)

  -- The loop over the tags in `IndexManager::add_event_to_indices_async`
  unfoldable pub add_tag_positions : Str → List Tag → ℕ → Exec State (Unit {0})
  add_tag_positions root [] position = pure tt
  add_tag_positions root (tag ∷ tags) position = do
    add_tag_position root tag position
    add_tag_positions root tags position

  -- `IndexManager::add_event_to_indices_async`
  unfoldable pub add_event_to_indices : Str → EventRecord → Exec State (Unit {0})
  unfolding add_tag_positions
  add_event_to_indices root r = do
    add_type_position root r.event.event_type r.position
    add_tag_positions root r.event.tags r.position

  -- `IndexManager::get_positions_by_tag_async`
  unfoldable pub get_positions_by_tag : Str → Tag → Exec State (List ℕ)
  unfolding get_positions
  get_positions_by_tag root tag = get_positions (tag_path root tag)

  -- The loops of the two methods over several index files: the lists, one behind the other.
  unfoldable pub collect_positions : List Str → List ℕ → Exec State (List ℕ)
  collect_positions [] found = pure found
  collect_positions (file_path ∷ rest) found = do
    positions ← get_positions file_path
    collect_positions rest (found ++ positions)

  -- `IndexManager::get_positions_by_event_types_async`
  unfoldable pub get_positions_by_event_types : Str → List Str → Exec State (List ℕ)
  unfolding collect_positions
  get_positions_by_event_types root event_types = do
    positions ← collect_positions (map (type_path root) event_types) []
    pure (dedup (sort_unstable positions))

  -- `IndexManager::get_positions_by_tags_async`
  unfoldable pub get_positions_by_tags : Str → List Tag → Exec State (List ℕ)
  unfolding collect_positions
  get_positions_by_tags root tags = do
    positions ← collect_positions (map (tag_path root) tags) []
    pure (dedup (sort_unstable positions))

  -- `event_type_index_exists` and `tag_index_exists`
  unfoldable pub event_type_index_exists : Str → Str → Exec State Bool
  event_type_index_exists root event_type = backend.file_exists (type_path root event_type)

  unfoldable pub tag_index_exists : Str → Tag → Exec State Bool
  tag_index_exists root tag = backend.file_exists (tag_path root tag)
