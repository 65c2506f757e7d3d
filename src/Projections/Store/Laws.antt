-- ===== src/Projections/Store/Laws.antt =====
-- src/projections.rs: the parts of `save` and `delete` that keep the index of tags and the index of
-- metadata, on a reliable storage.
use marmosa.Common.{
  ◌≡◌, refl, Bool, true, false, Option, none, some, List, [], ◌∷◌, arith, Str, Bool-cases,
  Option-cases, inl, inr, nat_eq, list_eq,
}
use marmosa.Domain.{Tag}
use marmosa.Exec.{Result, Exec, ok, err, not_found, returns, attempt, ignore, pure, ◌>>=◌}
use marmosa.Exec.Rules.{Runs}
use marmosa.Ports.{Platform, Disk, IsReliable, is_some}
use marmosa.Maintain.Ledger.{is_not_found}
use marmosa.InMemory.Map
use marmosa.InMemory.Map.{BTreeMap}
use marmosa.Projections.{Formats, ProjectionMetadata}
use marmosa.Projections.Contract.{Only, Only-of_eq, Only-trans, Only-write, Only-remove}
use marmosa.Projections.Flagged.{Flagged, flagged_backend, flagged_reliable}
use marmosa.Projections.Store.{
  StorageBackendProjectionStore, get_file_path, tag_dir, decode_state, get, is_json,
}
use marmosa.Projections.Store.Metadata.{
  metadata_dir, metadata_index_path, parse_index, read_metadata_index, old_metadata,
  wrapped_metadata, write_metadata_index, forget_in, forget_read, forget_unless, forget_metadata,
  index_unless, listed_metadata, collect_metadata,
}
use marmosa.Projections.Store.Save.{
  delete_tag_files, delete_old_tags, write_tag_files, write_new_tags,
}
use marmosa.Projections.Store.Paths.{is_side, tag_file-side, metadata_index_path-side}

module _ (p : Platform) {S : Type 0} (formats : Formats p.Bytes S)
    (store : StorageBackendProjectionStore (Flagged p.backend.State) S)
    (reliable : IsReliable p.backend) where
  abbrev law : IsReliable (flagged_backend p.backend)
  law = flagged_reliable reliable

  abbrev pub view : Flagged p.backend.State → Disk p.Bytes
  view w = reliable.view w.storage

  -- A run that changes files of tags and of metadata only
  abbrev pub Sides : {A : Type 0} → Exec (Flagged p.backend.State) A → Type 0
  Sides m =
      (w : Flagged p.backend.State)
      → Runs (m w) (λ _ w'. Only (is_side p formats store) (view w) (view w'))

  -- The state in the file of a key: `some none` if there is no file, `none` if it cannot be parsed.
  unfoldable pub stored_in : Option p.Bytes → Option (Option S)
  stored_in none = some none
  stored_in (some c) = elim (decode_state p formats store c) [
    | none ↦ none
    | some a ↦ some (some a)
  ]

  abbrev pub stored : Disk p.Bytes → Str → Option (Option S)
  stored d key = stored_in (d.file (get_file_path p formats store key))

  pub Sides-nothing : {A : Type 0} (a : A) → Sides (λ w. returns a w)
  Sides-nothing a w = (a, w, refl, Only-of_eq _ refl)

  pub Sides-bind :
      {A B : Type 0} (m : Exec (Flagged p.backend.State) A)
      (f : A → Exec (Flagged p.backend.State) B)
      → Sides m
      → ((a : A) → Sides (f a))
      → Sides (m >>= f)
  Sides-bind m f h k w =
      let (a, w1, e1, o1) = h w in
      let (b, w2, e2, o2) = k a w1 in (b, w2, ground (arith, e1, e2), Only-trans _ o1 o2)

  -- A file of a tag, or the index of the metadata, is written; what fails is dropped.
  Sides-write :
      (q : Str) (c : p.Bytes)
      → is_side p formats store q ≡ true
      → Sides (ignore ((flagged_backend p.backend).write_file q c))
  Sides-write q c side w =
      let (a, w', e, v) = law.write_file_law q c w in
      (tt, w', rw (e, ignore), Only-write _ q c v side)

  pub Sides-create_dir : (q : Str) → Sides (ignore ((flagged_backend p.backend).create_dir_all q))
  Sides-create_dir q w =
      let (a, w', e, v) = law.create_dir_all_law q w in (tt, w', rw (e, ignore), Only-of_eq _ v)

  Sides-delete :
      (q : Str)
      → is_side p formats store q ≡ true
      → Sides (ignore ((flagged_backend p.backend).delete_file q))
  Sides-delete q side w = elim (Option-cases ((view w).file q)) [
    | inl miss ↦
        let (w', e, v) = law.delete_file_miss q w miss in (tt, w', rw (e, ignore), Only-of_eq _ v)
    | inr (c, hit) ↦
        let (a, w', e, v) = law.delete_file_hit q w c hit in
        (tt, w', rw (e, ignore), Only-remove _ q v side)
  ]

  -- A read of a file, whatever is there
  pub Sides-read : (q : Str) → Sides (attempt ((flagged_backend p.backend).read_file q))
  Sides-read q w = elim (Option-cases ((view w).file q)) [
    | inl miss ↦
        let (w', e, v) = law.read_file_miss q w miss in
        (err not_found, w', rw (e, attempt), Only-of_eq _ v)
    | inr (c, hit) ↦
        let (a, w', e, (same, v)) = law.read_file_hit q w c hit in
        (ok a, w', rw (e, attempt), Only-of_eq _ v)
  ]

  -- `get` returns the state that is stored.
  pub get_stored :
      (key : Str) (state : Option S) (w : Flagged p.backend.State)
      → stored (view w) key ≡ some state
      → Runs (get p formats store key w) (λ found w'. (found ≡ state) × (view w' ≡ view w))
  unfolding get stored_in is_not_found
  get_stored key state w h =
      let q : Str = get_file_path p formats store key in
      elim (Option-cases ((view w).file q)) [
        | inl miss ↦
            let (w', e, v) = law.read_file_miss q w miss in
            (state, w', ground (arith, e, h, miss), (refl, v))
        | inr (c, hit) ↦
            let (a, w', e, (same, v)) = law.read_file_hit q w c hit in
            (state, w', ground (arith, e, same, h, hit), (refl, v))
      ]

  delete_tag_files-Sides :
      (key : Str) (tags : List Tag) → Sides (delete_tag_files p formats store key tags)
  unfolding delete_tag_files
  delete_tag_files-Sides key [] = Sides-nothing tt
  delete_tag_files-Sides key (tag ∷ tags) =
      Sides-bind _ _ (Sides-delete _ (tag_file-side p formats store tag key))
        (λ u. delete_tag_files-Sides key tags)

  pub delete_old_tags-Sides :
      (key : Str) (state : Option S) (w : Flagged p.backend.State)
      → stored (view w) key ≡ some state
      → Runs
          (delete_old_tags p formats store key w)
          (λ _ w'. Only (is_side p formats store) (view w) (view w'))
  unfolding delete_old_tags
  delete_old_tags-Sides key state w h = elim (Option-cases store.tag_provider) [
    | inl none_given ↦ (tt, w, rw none_given, Only-of_eq _ refl)
    | inr (get_tags, given) ↦
        let (found, w1, e1, (same, v)) = get_stored key state w h in
        elim (Option-cases state) [
          | inl fresh ↦ (tt, w1, ground (arith, given, e1, same, fresh), Only-of_eq _ v)
          | inr (old, there) ↦
              let (u, w2, e2, o) = delete_tag_files-Sides key (get_tags old) w1 in
              (tt, w2, ground (arith, given, e1, same, there, e2), rw v at o)
        ]
  ]

  write_tag_files-Sides :
      (key : Str) (tags : List Tag) → Sides (write_tag_files p formats store key tags)
  unfolding write_tag_files
  write_tag_files-Sides key [] = Sides-nothing tt
  write_tag_files-Sides key (tag ∷ tags) =
      Sides-bind _ _ (Sides-create_dir (tag_dir p formats store tag)) (λ u.
        Sides-bind _ _ (Sides-write _ p.empty_file (tag_file-side p formats store tag key))
          (λ u'. write_tag_files-Sides key tags))

  pub write_new_tags-Sides :
      (key : Str) (state : S) → Sides (write_new_tags p formats store key state)
  unfolding write_new_tags
  write_new_tags-Sides key state = elim (Option-cases store.tag_provider) [
    | inl none_given ↦ rw none_given (Sides-nothing tt)
    | inr (get_tags, given) ↦ rw given (write_tag_files-Sides key (get_tags state))
  ]

  index_unless-Sides : (batch : Bool) → Sides (index_unless p formats store batch)
  unfolding index_unless
  index_unless-Sides true = Sides-nothing none
  index_unless-Sides false = Sides-bind _ _ (Sides-create_dir (metadata_dir p formats store)) (λ u.
      Sides-bind _ _ (Sides-read (metadata_index_path p formats store))
        (λ r. Sides-nothing (some (parse_index p formats store r))))

  pub read_metadata_index-Sides : Sides (read_metadata_index p formats store)
  unfolding read_metadata_index
  read_metadata_index-Sides w = index_unless-Sides w.skip_index_writes w

  pub old_metadata-Sides :
      (key : Str) (index : Option (BTreeMap ProjectionMetadata))
      → Sides (old_metadata p formats store key index)
  unfolding old_metadata
  old_metadata-Sides key none =
      Sides-bind _ _ (Sides-read (get_file_path p formats store key))
        (λ r. Sides-nothing (wrapped_metadata p formats store r))
  old_metadata-Sides key (some index) = Sides-nothing (Map.get key index)

  pub write_index-Sides :
      (index : BTreeMap ProjectionMetadata)
      → Sides (elim (formats.metadata_json.to_vec index) [
        | none ↦ pure tt
        | some content ↦
            ignore
              ((flagged_backend p.backend).write_file (metadata_index_path p formats store) content)
      ])
  write_index-Sides index = elim (Option-cases (formats.metadata_json.to_vec index)) [
    | inl bad ↦ rw bad (Sides-nothing tt)
    | inr (c, good) ↦ rw good (Sides-write _ c (metadata_index_path-side p formats store))
  ]

  pub write_metadata_index-Sides :
      (key : Str) (m : ProjectionMetadata) (index : Option (BTreeMap ProjectionMetadata))
      → Sides (write_metadata_index p formats store key m index)
  unfolding write_metadata_index
  write_metadata_index-Sides key m none = Sides-nothing tt
  write_metadata_index-Sides key m (some index) = write_index-Sides (Map.insert key m index)

  forget_in-Sides :
      (key : Str) (index : BTreeMap ProjectionMetadata)
      → Sides (forget_in p formats store key index)
  unfolding forget_in
  forget_in-Sides key index = elim (Bool-cases (is_some (Map.get key index))) [
    | inl there ↦ rw there (write_index-Sides (Map.remove key index))
    | inr missing ↦ rw missing (Sides-nothing tt)
  ]

  forget_read-Sides : (key : Str) (r : Result p.Bytes) → Sides (forget_read p formats store key r)
  unfolding forget_read
  forget_read-Sides key (err e) = Sides-nothing tt
  forget_read-Sides key (ok found) = elim (Option-cases (formats.metadata_json.from_slice found)) [
    | inl corrupt ↦ rw (forget_read, corrupt) (Sides-nothing tt)
    | inr (index, good) ↦ rw (forget_read, good) (forget_in-Sides key index)
  ]

  forget_unless-Sides : (batch : Bool) (key : Str) → Sides (forget_unless p formats store batch key)
  unfolding forget_unless
  forget_unless-Sides true key = Sides-nothing tt
  forget_unless-Sides false key =
      Sides-bind _ _ (Sides-read (metadata_index_path p formats store)) (forget_read-Sides key)

  pub forget_metadata-Sides : (key : Str) → Sides (forget_metadata p formats store key)
  unfolding forget_metadata
  forget_metadata-Sides key w = forget_unless-Sides w.skip_index_writes key w

  listed_metadata-Sides : (file_path : Str) → Sides (listed_metadata p formats store file_path)
  unfolding listed_metadata
  listed_metadata-Sides file_path = elim (Bool-cases (is_json file_path)) [
    | inl json ↦
        rw (listed_metadata, json)
          (Sides-bind _ _ (Sides-read file_path)
            (λ r. Sides-nothing (wrapped_metadata p formats store r)))
    | inr other ↦ rw (listed_metadata, other) (Sides-nothing none)
  ]

  pub collect_metadata-Sides :
      (files : List Str) (index : BTreeMap ProjectionMetadata)
      → Sides (collect_metadata p formats store files index)
  unfolding collect_metadata
  collect_metadata-Sides [] index = Sides-nothing index
  collect_metadata-Sides (file_path ∷ files) index =
      Sides-bind _ _ (listed_metadata-Sides file_path) (λ found. collect_metadata-Sides files _)
