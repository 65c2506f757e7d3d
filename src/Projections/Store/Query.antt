-- ===== src/Projections/Store/Query.antt =====
-- src/projections.rs: the queries of `StorageBackendProjectionStore` by tags, and `get_all`.
use marmosa.Common.{
  Option, none, some, List, [], ◌∷◌, ◌++◌, Str, str, is_empty, retain, contains, if◌then◌else◌,
  nat_eq, list_eq,
}
use marmosa.Text.{strip_suffix, last_segment}
use marmosa.Domain.{Tag}
use marmosa.Exec.{ok, err, Exec, pure, attempt, unwrap_or, ◌>>=◌}
use marmosa.Ports.{Platform, Backend}
use marmosa.InMemory.Map
use marmosa.InMemory.Map.{BTreeMap}
use marmosa.Projections.{Formats}
use marmosa.Projections.Flagged.{Flagged, flagged_backend}
use marmosa.Projections.Store.{
  StorageBackendProjectionStore, is_json, get_projection_path, tag_dir, decode_state, get_each,
}

-- The last segment of a path without its `.json`
unfoldable pub tag_file_key : Str → Option Str
tag_file_key file = strip_suffix (str ".json") (last_segment file)

unfoldable pub tag_file_keys : List Str → List Str
unfolding tag_file_key
tag_file_keys [] = []
tag_file_keys (file ∷ files) =
    let rest = tag_file_keys files in
    elim (tag_file_key file) [ none ↦ rest | some key ↦ key ∷ rest ]

-- `BTreeSet<String>` of keys
unfoldable pub key_set : List Str → BTreeMap (Unit {0})
key_set [] = Map.empty
key_set (key ∷ keys) = Map.insert key tt (key_set keys)

module _ (p : Platform) {S : Type 0} (formats : Formats p.Bytes S)
    (store : StorageBackendProjectionStore (Flagged p.backend.State) S) where
  open p use {Bytes, empty_file, size, to_lowercase}
  open formats use {state_json, wrapper_json, metadata_json}

  abbrev World : Type 0
  World = Flagged p.backend.State

  abbrev backend : Backend Bytes
  backend = flagged_backend p.backend

  -- `query_by_tag`
  unfoldable pub query_by_tag : Tag → Exec World (List S)
  unfolding get_each tag_dir tag_file_keys
  query_by_tag tag = do
    files ← unwrap_or [] (backend.read_dir (tag_dir p formats store tag))
    get_each p formats store (tag_file_keys files) []

  -- `candidate_keys` after one more tag
  unfoldable pub meet_keys : Option (List Str) → List Str → List Str
  unfolding key_set
  meet_keys none keys = Map.keys (key_set keys)
  meet_keys (some existing) keys = retain (λ k. contains k keys) existing

  -- The loop of `query_by_tags` over the tags; it ends when no candidate is left.
  unfoldable pub candidate_keys : List Tag → Option (List Str) → Exec World (List Str)
  unfolding meet_keys tag_file_keys tag_dir
  candidate_keys [] none = pure []
  candidate_keys [] (some keys) = pure keys
  candidate_keys (tag ∷ tags) candidates = do
    files ← unwrap_or [] (backend.read_dir (tag_dir p formats store tag))
    let met = meet_keys candidates (tag_file_keys files)
    let rest = candidate_keys tags (some met)
    if is_empty met then pure [] else rest

  -- `query_by_tags`
  unfoldable pub query_by_tags : List Tag → Exec World (List S)
  unfolding candidate_keys get_each
  query_by_tags tags =
      if is_empty tags
      then pure []
      else (do keys ← candidate_keys tags none; get_each p formats store keys [])

  -- The state in a file of `get_all`; what cannot be read or parsed is left out.
  unfoldable pub listed_state : Str → Exec World (Option S)
  unfolding is_json decode_state
  listed_state file_path =
      if is_json file_path
      then (do
        content ← attempt (backend.read_file file_path)
        elim content [ ok found ↦ pure (decode_state p formats store found) | err e ↦ pure none ])
      else pure none

  -- The loop of `get_all`
  unfoldable pub get_listed : List Str → List S → Exec World (List S)
  unfolding listed_state
  get_listed [] results = pure results
  get_listed (file_path ∷ files) results = do
    found ← listed_state file_path
    get_listed files (elim found [ none ↦ results | some state ↦ results ++ state ∷ [] ])

  -- `get_all`
  unfoldable pub get_all : Exec World (List S)
  unfolding get_listed get_projection_path
  get_all = do
    files ← unwrap_or [] (backend.read_dir (get_projection_path p formats store))
    get_listed files []
