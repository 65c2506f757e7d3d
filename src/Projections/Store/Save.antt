-- ===== src/Projections/Store/Save.antt =====
-- src/projections.rs: `save` and `delete` of `StorageBackendProjectionStore`, and its record of
-- operations.
use marmosa.Common.{none, some, List, [], ◌∷◌, Str, if◌then◌else◌, nat_eq, list_eq}
use marmosa.Domain.{Tag}
use marmosa.Exec.{ok, err, io_error, Exec, returns, pure, fail, attempt, ignore, ok_or, ◌>>=◌, ◌>>◌}
use marmosa.Ports.{Platform, Backend}
use marmosa.Maintain.Ledger.{is_not_found}
use marmosa.Projections.{ProjectionStore, Formats}
use marmosa.Projections.Flagged.{Flagged, flagged_backend}
use marmosa.Projections.Store.{
  StorageBackendProjectionStore, get_projection_path, get_file_path, tag_dir, tag_file, get, clear,
  set_batch_mode,
}
use marmosa.Projections.Store.Query.{query_by_tag, query_by_tags, get_all}
use marmosa.Projections.Store.Metadata.{
  next_metadata, read_metadata_index, old_metadata, write_metadata_index, forget_metadata,
  rebuild_metadata_index,
}

module _ (p : Platform) {S : Type 0} (formats : Formats p.Bytes S)
    (store : StorageBackendProjectionStore (Flagged p.backend.State) S) where
  open p use {Bytes, empty_file, size, to_lowercase}
  open formats use {state_json, wrapper_json, metadata_json}

  abbrev World : Type 0
  World = Flagged p.backend.State

  abbrev backend : Backend Bytes
  backend = flagged_backend p.backend

  -- The loops of `save` and `delete` over the old tags
  unfoldable pub delete_tag_files : Str → List Tag → Exec World (Unit {0})
  unfolding tag_file
  delete_tag_files key [] = pure tt
  delete_tag_files key (tag ∷ tags) = do
    ignore (backend.delete_file (tag_file p formats store tag key))
    delete_tag_files key tags

  -- The first part of `save` and of `delete`
  unfoldable pub delete_old_tags : Str → Exec World (Unit {0})
  unfolding get delete_tag_files
  delete_old_tags key = elim store.tag_provider [
    | none ↦ pure tt
    | some get_tags ↦ (do
      old ← attempt (get p formats store key)
      elim old [
        | err e ↦ pure tt
        | ok none ↦ pure tt
        | ok (some old_state) ↦ delete_tag_files key (get_tags old_state)
      ])
  ]

  -- The loop of `save` over the new tags
  unfoldable pub write_tag_files : Str → List Tag → Exec World (Unit {0})
  unfolding tag_file tag_dir
  write_tag_files key [] = pure tt
  write_tag_files key (tag ∷ tags) = do
    ignore (backend.create_dir_all (tag_dir p formats store tag))
    ignore (backend.write_file (tag_file p formats store tag key) empty_file)
    write_tag_files key tags

  unfoldable pub write_new_tags : Str → S → Exec World (Unit {0})
  unfolding write_tag_files
  write_new_tags key state = elim store.tag_provider [
    | none ↦ pure tt
    | some get_tags ↦ write_tag_files key (get_tags state)
  ]

  -- `save`
  unfoldable pub save : Str → S → Exec World (Unit {0})
  unfolding delete_old_tags get_projection_path get_file_path read_metadata_index old_metadata
      next_metadata write_metadata_index write_new_tags
  save key state = do
    delete_old_tags key
    ignore (backend.create_dir_all (get_projection_path p formats store))
    now ← (λ w. returns (store.clock w) w)
    index ← read_metadata_index p formats store
    old ← old_metadata p formats store key index
    let metadata = next_metadata now old
    content ← ok_or io_error (wrapper_json.to_vec (record { content = state; metadata = metadata }))
    backend.write_file (get_file_path p formats store key) content
    write_metadata_index p formats store key (record metadata { size_in_bytes = size content })
        index
    write_new_tags key state

  -- `match self.storage.delete_file(&file_path).await`
  unfoldable pub delete_own : Str → Exec World (Unit {0})
  unfolding get_file_path is_not_found
  delete_own key = do
    deleted ← attempt (backend.delete_file (get_file_path p formats store key))
    elim deleted [
      | ok done ↦ pure tt
      | err e ↦ if is_not_found {A = Unit {0}} (err e) then pure tt else fail e
    ]

  -- `delete`
  unfoldable pub delete : Str → Exec World (Unit {0})
  unfolding delete_old_tags forget_metadata delete_own
  delete key = do delete_old_tags key; forget_metadata p formats store key; delete_own key

  -- `impl ProjectionStore for StorageBackendProjectionStore`
  unfoldable pub projection_store : ProjectionStore World S
  unfolding query_by_tag query_by_tags get get_all save delete clear set_batch_mode
      rebuild_metadata_index
  projection_store = record {
    query_by_tag = query_by_tag p formats store;
    query_by_tags = query_by_tags p formats store;
    get = get p formats store;
    get_all = get_all p formats store;
    save = save;
    delete = delete;
    clear = clear p formats store;
    set_batch_mode = set_batch_mode p formats store;
    rebuild_metadata_index = rebuild_metadata_index p formats store;
  }
