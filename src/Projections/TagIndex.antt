-- ===== src/Projections/TagIndex.antt =====
-- src/projections.rs: `ProjectionTagIndex`, which keeps for each tag a file with the keys of the
-- projection states that have it. It holds a storage and nothing else.
pub mod Laws
pub mod Contract
pub mod Meet
use marmosa.Common.{
  ◌+◌, Bool, not, ◌&&◌, Option, none, some, List, [], ◌∷◌, ◌++◌, map, any, Str, str, ◌==◌, leb,
  length, is_empty, retain, contains, if◌then◌else◌, nat_eq, list_eq,
}
use marmosa.Common.Sorted
use marmosa.Domain.{Tag}
use marmosa.Exec.{Result, ok, err, Exec, pure, fail, attempt, ignore, unwrap_or, ◌>>=◌, ◌>>◌}
use marmosa.Ports.{Platform, Codec}
use marmosa.InMemory.Map
use marmosa.Maintain.Ledger.{is_not_found}
use marmosa.Projections.Store.Query.{key_set}

-- `to_ascii_lowercase`
unfoldable pub to_ascii_lowercase : Str → Str
to_ascii_lowercase = map (λ c. if leb b'A' c && leb c b'Z' then c + 32 else c)

-- `eq_ignore_ascii_case` of both parts of two tags
unfoldable pub same_tag : Tag → Tag → Bool
unfolding to_ascii_lowercase
same_tag t u =
    to_ascii_lowercase t.key == to_ascii_lowercase u.key
    && to_ascii_lowercase t.value == to_ascii_lowercase u.value

-- `get_index_path`
unfoldable pub get_index_path : Str → Tag → Str
unfolding to_ascii_lowercase
get_index_path root tag =
    root
    ++ (str "/Indices/"
        ++ (to_ascii_lowercase tag.key
            ++ (str "_" ++ (to_ascii_lowercase tag.value ++ str ".json"))))

-- `get_tag_lock_key`
unfoldable pub get_tag_lock_key : Str → Tag → Str
unfolding to_ascii_lowercase
get_tag_lock_key root tag =
    root ++ (str "|" ++ (to_ascii_lowercase tag.key ++ (str "|" ++ to_ascii_lowercase tag.value)))

-- `sort_by_key(|s| s.len())`, which is stable: a list is put before the first one that is longer.
unfoldable pub insert_by_length : List Str → List (List Str) → List (List Str)
insert_by_length keys [] = keys ∷ []
insert_by_length keys (set ∷ sets) =
    let rest = insert_by_length keys sets in
    if leb (length keys) (length set) then keys ∷ set ∷ sets else set ∷ rest

unfoldable pub sort_by_length : List (List Str) → List (List Str)
unfolding insert_by_length
sort_by_length [] = []
sort_by_length (keys ∷ sets) = insert_by_length keys (sort_by_length sets)

-- The loop over the other sets; it ends when no key is left.
unfoldable pub meet_all : List Str → List (List Str) → List Str
meet_all keys [] = keys
meet_all keys (set ∷ sets) =
    let kept = retain (λ k. contains k set) keys in
    let rest = meet_all kept sets in if is_empty kept then [] else rest

-- The keys that all lists share, in the order of a `BTreeSet`
unfoldable pub meet_sets : List (List Str) → List Str
unfolding meet_all key_set
meet_sets [] = []
meet_sets (keys ∷ sets) = meet_all (Map.keys (key_set keys)) sets

module _ (p : Platform) (keys_json : Codec p.Bytes (List Str)) where
  open p use {Bytes, backend}
  open p.backend use {State}

  -- The keys in the content of an index file; one that is missing or corrupt counts as empty.
  unfoldable pub parse_keys : Result Bytes → Exec State (List Str)
  unfolding is_not_found
  parse_keys (ok content) = elim (keys_json.from_slice content) [
    | none ↦ pure []
    | some keys ↦ pure keys
  ]
  parse_keys (err e) = if is_not_found {A = Bytes} (err e) then pure [] else fail e

  -- `read_keys`
  unfoldable pub read_keys : Str → Exec State (List Str)
  unfolding parse_keys
  read_keys path = do content ← attempt (backend.read_file path); parse_keys content

  -- `if let Ok(data) = serde_json::to_vec(&keys)`
  unfoldable pub write_keys : Str → List Str → Exec State (Unit {0})
  write_keys path keys = elim (keys_json.to_vec keys) [
    | none ↦ pure tt
    | some content ↦ ignore (backend.write_file path content)
  ]

  -- `if !keys.contains(…)`
  unfoldable pub push_key : Str → Str → List Str → Exec State (Unit {0})
  unfolding write_keys
  push_key path key keys = if contains key keys then pure tt else write_keys path (keys ++ key ∷ [])

  -- `add_projection`
  unfoldable pub add_projection : Str → Tag → Str → Exec State (Unit {0})
  unfolding get_index_path get_tag_lock_key read_keys push_key
  add_projection root tag key = do
    ignore (backend.create_dir_all (root ++ str "/Indices"))
    backend.acquire_stream_lock (get_tag_lock_key root tag)
    keys ← unwrap_or [] (read_keys (get_index_path root tag))
    push_key (get_index_path root tag) key keys
    backend.release_stream_lock (get_tag_lock_key root tag)

  -- `if keys.len() != original_len`
  unfoldable pub drop_key : Str → Str → List Str → Exec State (Unit {0})
  unfolding write_keys
  drop_key path key keys =
      let kept = retain (λ k. not (k == key)) keys in
      if length kept == length keys
      then pure tt
      else if is_empty kept
      then ignore (backend.delete_file path)
      else write_keys path kept

  -- `remove_projection` of a file that is there
  unfoldable pub remove_locked : Str → Tag → Str → Exec State (Unit {0})
  unfolding get_index_path get_tag_lock_key read_keys drop_key
  remove_locked root tag key = do
    backend.acquire_stream_lock (get_tag_lock_key root tag)
    keys ← unwrap_or [] (read_keys (get_index_path root tag))
    drop_key (get_index_path root tag) key keys
    backend.release_stream_lock (get_tag_lock_key root tag)

  -- `remove_projection`
  unfoldable pub remove_projection : Str → Tag → Str → Exec State (Unit {0})
  unfolding remove_locked
  remove_projection root tag key = do
    there ← backend.file_exists (get_index_path root tag)
    (if there then remove_locked root tag key else pure tt)

  -- `get_projection_keys_by_tag`
  unfoldable pub get_projection_keys_by_tag : Str → Tag → Exec State (List Str)
  unfolding read_keys get_index_path
  get_projection_keys_by_tag root tag = unwrap_or [] (read_keys (get_index_path root tag))

  -- The loop of `get_projection_keys_by_tags`; `none` when a tag has no keys.
  unfoldable pub collect_sets :
      Str → List Tag → List (List Str) → Exec State (Option (List (List Str)))
  unfolding get_projection_keys_by_tag
  collect_sets root [] sets = pure (some sets)
  collect_sets root (tag ∷ tags) sets = do
    keys ← get_projection_keys_by_tag root tag
    let rest = collect_sets root tags (sets ++ keys ∷ [])
    if is_empty keys then pure none else rest

  -- `get_projection_keys_by_tags`
  unfoldable pub get_projection_keys_by_tags : Str → List Tag → Exec State (List Str)
  unfolding collect_sets meet_sets sort_by_length
  get_projection_keys_by_tags root tags = if is_empty tags then pure [] else (do
    sets ← collect_sets root tags []
    pure (elim sets [ none ↦ [] | some found ↦ meet_sets (sort_by_length found) ]))

  -- The loop of `update_projection_tags` over the old tags
  unfoldable pub remove_old : Str → Str → List Tag → List Tag → Exec State (Unit {0})
  unfolding remove_projection same_tag
  remove_old root key new_tags [] = pure tt
  remove_old root key new_tags (old ∷ olds) = do
    (if any (λ t. same_tag t old) new_tags then pure tt else remove_projection root old key)
    remove_old root key new_tags olds

  -- The loop over the new tags
  unfoldable pub add_new : Str → Str → List Tag → List Tag → Exec State (Unit {0})
  unfolding add_projection same_tag
  add_new root key old_tags [] = pure tt
  add_new root key old_tags (new ∷ news) = do
    (if any (λ t. same_tag t new) old_tags then pure tt else add_projection root new key)
    add_new root key old_tags news

  -- `update_projection_tags`
  unfoldable pub update_projection_tags : Str → Str → List Tag → List Tag → Exec State (Unit {0})
  unfolding remove_old add_new
  update_projection_tags root key old_tags new_tags = do
    remove_old root key new_tags old_tags
    add_new root key old_tags new_tags

  -- The loop of `delete_all_indices`
  unfoldable pub delete_files : List Str → Exec State (Unit {0})
  delete_files [] = pure tt
  delete_files (file ∷ files) = do ignore (backend.delete_file file); delete_files files

  -- `delete_all_indices`
  unfoldable pub delete_all_indices : Str → Exec State (Unit {0})
  unfolding delete_files
  delete_all_indices root = do
    files ← unwrap_or [] (backend.read_dir (root ++ str "/Indices"))
    delete_files files
