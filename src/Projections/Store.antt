-- ===== src/Projections/Store.antt =====
-- src/projections.rs: `StorageBackendProjectionStore`, which keeps each state in a file of its own
-- with its metadata, an index file with the metadata of all keys, and a file for each tag of a
-- state. Its clock is a function of the storage that it is read at.
pub mod Query
pub mod Metadata
pub mod Save
pub mod Paths
pub mod Laws
pub mod Keyed
pub mod RoundTrip
use marmosa.Common.{
  ℕ, Bool, Option, none, some, List, [], ◌∷◌, ◌++◌, Str, str, if◌then◌else◌, nat_eq, list_eq,
}
use marmosa.Text.{strip_suffix}
use marmosa.Domain.{Tag}
use marmosa.Exec.{ok, err, io_error, Exec, returns, pure, fail, attempt, ignore, ok_or, ◌>>=◌, ◌>>◌}
use marmosa.Ports.{Platform, Backend, is_some}
use marmosa.InMemory.Map
use marmosa.Maintain.Ledger.{is_not_found}
use marmosa.Projections.{Formats}
use marmosa.Projections.Flagged.{Flagged, flagged_backend}

-- `StorageBackendProjectionStore`, without its storage and its flag
pub record StorageBackendProjectionStore (W S : Type 0) : Type 0 where
  pub projection_name : Str
  pub tag_provider : Option (S → List Tag)
  pub clock : W → ℕ

-- `file.ends_with(".json")`
unfoldable pub is_json : Str → Bool
is_json file = is_some (strip_suffix (str ".json") file)

module _ (p : Platform) {S : Type 0} (formats : Formats p.Bytes S)
    (store : StorageBackendProjectionStore (Flagged p.backend.State) S) where
  open p use {Bytes, empty_file, size, to_lowercase}
  open formats use {state_json, wrapper_json, metadata_json}

  abbrev World : Type 0
  World = Flagged p.backend.State

  abbrev backend : Backend Bytes
  backend = flagged_backend p.backend

  -- `get_projection_path`
  unfoldable pub get_projection_path : Str
  get_projection_path = str "Projections/" ++ store.projection_name

  -- `get_file_path`
  unfoldable pub get_file_path : Str → Str
  unfolding get_projection_path
  get_file_path key = get_projection_path ++ (b'/' ∷ (key ++ str ".json"))

  -- The directory of a tag
  unfoldable pub tag_dir : Tag → Str
  unfolding get_projection_path
  tag_dir tag =
      get_projection_path
      ++ (str "/Indices/" ++ (to_lowercase tag.key ++ (b'/' ∷ to_lowercase tag.value)))

  unfoldable pub tag_file : Tag → Str → Str
  unfolding tag_dir
  tag_file tag key = tag_dir tag ++ (b'/' ∷ (key ++ str ".json"))

  -- The state in the content of a file: of a wrapper, or the state itself
  unfoldable pub decode_state : Bytes → Option S
  decode_state content = elim (wrapper_json.from_slice content) [
    | some wrapper ↦ some wrapper.content
    | none ↦ state_json.from_slice content
  ]

  -- `get`
  unfoldable pub get : Str → Exec World (Option S)
  unfolding decode_state get_file_path is_not_found
  get key = do
    content ← attempt (backend.read_file (get_file_path key))
    elim content [
      | ok found ↦ (do state ← ok_or io_error (decode_state found); pure (some state))
      | err e ↦ if is_not_found {A = Bytes} (err e) then pure none else fail e
    ]

  -- The loop that gets the states of keys
  unfoldable pub get_each : List Str → List S → Exec World (List S)
  unfolding get
  get_each [] results = pure results
  get_each (key ∷ keys) results = do
    found ← get key
    get_each keys (elim found [ none ↦ results | some state ↦ results ++ state ∷ [] ])

  -- `clear`
  unfoldable pub clear : Exec World (Unit {0})
  unfolding get_projection_path
  clear = ignore (backend.delete_dir_all get_projection_path)

  -- `set_batch_mode`
  unfoldable pub set_batch_mode : Bool → Exec World (Unit {0})
  set_batch_mode enabled w = returns tt (record w { skip_index_writes = enabled })
