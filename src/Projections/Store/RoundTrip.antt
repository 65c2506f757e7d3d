-- ===== src/Projections/Store/RoundTrip.antt =====
-- src/projections.rs: what `get` returns behind `save`, `delete` and `clear` of
-- `StorageBackendProjectionStore`, and the store as one that a runner can work with.
use marmosa.Common.{◌≡◌, ◌≢◌, refl, ap, ◌∙◌, none, some, Str, last, false, nat_eq}
use marmosa.Exec.Rules.{Runs}
use marmosa.Ports.{Platform, IsReliable, IsLossless, is_below}
use marmosa.Projections.{Formats}
use marmosa.Projections.Contract.{States, updated, IsKeyedStore}
use marmosa.Projections.Flagged.{Flagged, flagged}
use marmosa.Projections.Store.{
  StorageBackendProjectionStore, get_projection_path, get, clear, set_batch_mode,
}
use marmosa.Projections.Store.Save.{save, delete, projection_store}
use marmosa.Projections.Store.Paths.{IsPlain, get_file_path-below}
use marmosa.Projections.Store.Laws.{view, get_stored, stored_in}
use marmosa.Projections.Store.Keyed.{HoldsStates, save_lem, delete_lem, clear_lem, rebuild_lem}

module _ (p : Platform) {S : Type 0} (formats : Formats p.Bytes S)
    (store : StorageBackendProjectionStore (Flagged p.backend.State) S)
    (reliable : IsReliable p.backend) where
  -- In a storage that has the states of all plain keys, in batch mode or not, a state is saved
  -- under a plain key; after that the same key yields the new state, and each other plain key the
  -- state that it had, if the format of the wrapper can read what it has written.
  pub get-save :
      IsLossless formats.wrapper_json
      → (key other : Str) (state : S) (states : States S) (w : Flagged p.backend.State)
      → IsPlain key
      → IsPlain other
      → HoldsStates p formats store reliable states (view p formats store reliable w)
      → Runs (save p formats store key state w) (λ _ w'.
        Runs
          (get p formats store other w')
          (λ found _. found ≡ updated key (some state) states other))
  get-save lossless key other state states w plain plain' h =
      let (u, w', e, (h', o)) =
        save_lem p formats store reliable lossless key state states w plain h in
      let (found, w'', e', (same, v)) =
        get_stored p formats store reliable other _ w' (h' other plain') in
      (u, w', e, (found, w'', e', same))

  -- In a storage that has the states of all plain keys, a plain key is deleted, whether it has a
  -- state or not; after that it yields none, and each other plain key the state that it had.
  pub get-delete :
      (key other : Str) (states : States S) (w : Flagged p.backend.State)
      → IsPlain key
      → IsPlain other
      → HoldsStates p formats store reliable states (view p formats store reliable w)
      → Runs (delete p formats store key w) (λ _ w'.
        Runs (get p formats store other w') (λ found _. found ≡ updated key none states other))
  get-delete key other states w plain plain' h =
      let (u, w', e, (h', o)) = delete_lem p formats store reliable key states w plain h in
      let (found, w'', e', (same, v)) =
        get_stored p formats store reliable other _ w' (h' other plain') in
      (u, w', e, (found, w'', e', same))

  -- Whatever the storage holds, no plain key has a state after `clear`, if the path of the
  -- projection does not end in a slash. The files outside the directory of the projection stay.
  pub get-clear :
      (key file : Str) (w : Flagged p.backend.State)
      → last (get_projection_path p formats store) ≢ some b'/'
      → IsPlain key
      → is_below (get_projection_path p formats store) file ≡ false
      → Runs (clear p formats store w) (λ _ w'.
        Runs (get p formats store key w') (λ found _. found ≡ none)
        × ((view p formats store reliable w').file file
            ≡ (view p formats store reliable w).file file))
  get-clear key file w named plain outside =
      let (u, w', e, (h', o)) = clear_lem p formats store reliable named w in
      let (found, w'', e', (same, v)) =
        get_stored p formats store reliable key _ w' (h' key plain) in
      (u, w', e, ((found, w'', e', same), o.files file outside))

  -- The store as a runner sees it
  unfoldable pub keyed :
      IsLossless formats.wrapper_json
      → IsLossless formats.metadata_json
      → last (get_projection_path p formats store) ≢ some b'/'
      → IsKeyedStore (flagged p) (view p formats store reliable) (projection_store p formats store)
  unfolding projection_store set_batch_mode
  keyed wrapper metadata named = record {
    IsKey = IsPlain;
    owns = is_below (get_projection_path p formats store);
    Holds = HoldsStates p formats store reliable;
    Holds-others = λ states d d' same h key plain.
        ap (stored_in p formats store reliable) (same _ (get_file_path-below p formats store key))
        ∙ h key plain;
    get_law = λ key states w plain h. get_stored p formats store reliable key _ w (h key plain);
    save_law = λ key state states w plain h.
        save_lem p formats store reliable wrapper key state states w plain h;
    delete_law = λ key states w plain h. delete_lem p formats store reliable key states w plain h;
    clear_law = clear_lem p formats store reliable named;
    set_batch_mode_law = λ enabled w. (tt, record w { skip_index_writes = enabled }, refl, refl);
    rebuild_metadata_index_law =
        λ states w h. rebuild_lem p formats store reliable named states w metadata h;
  }
