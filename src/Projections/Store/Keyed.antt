-- ===== src/Projections/Store/Keyed.antt =====
-- src/projections.rs: `StorageBackendProjectionStore` as a store of states, on a reliable storage and
-- with a format that can read what it has written.
use marmosa.Common.{
  ℕ, ◌≡◌, ◌≢◌, refl, ap, ◌∙◌, fun_ext, true, false, Option, none, some, last, arith, Str, ◌==◌,
  list_eq, Bool-cases, Option-cases, inl, inr, if◌then◌else◌, nat_eq,
}
use marmosa.Exec.{returns, ignore}
use marmosa.Exec.Rules.{Runs}
use marmosa.Ports.{Platform, Disk, IsReliable, IsLossless, remove, is_below}
use marmosa.InMemory.Map
use marmosa.Maintain.Ledger.{is_not_found}
use marmosa.Projections.{Formats, ProjectionMetadata}
use marmosa.Projections.Contract.{
  Only, Only-of_eq, Only-trans, Only-write, Only-remove, Only-mono, States, updated, nothing_stored,
}
use marmosa.Projections.Flagged.{Flagged, flagged_backend, flagged_reliable}
use marmosa.Projections.Store.{
  StorageBackendProjectionStore, get_projection_path, get_file_path, decode_state, clear,
}
use marmosa.Projections.Store.Save.{save, delete, delete_own}
use marmosa.Projections.Store.Metadata.{
  rebuild_metadata_index, next_metadata, metadata_dir, metadata_index_path,
}
use marmosa.Projections.Store.Paths.{
  IsPlain, is_side, get_file_path-not_side, get_file_path-below, get_file_path-injective,
  metadata_index_path-side,
}
use marmosa.Projections.Store.Laws.{
  view, stored, stored_in, delete_old_tags-Sides, write_new_tags-Sides, read_metadata_index-Sides,
  old_metadata-Sides, write_metadata_index-Sides, forget_metadata-Sides, collect_metadata-Sides,
  Sides-create_dir,
}

-- To remove a file that is not there changes nothing.
remove_absent : {Bytes : Type 0} (q : Str) (d : Disk Bytes) → d.file q ≡ none → d ≡ remove q d
remove_absent q d miss =
    ap (λ (f : Str → Option _). record d { file = f })
      (fun_ext λ r. ground (arith, miss, (list_eq {A = ℕ}).beq_iff r q))

module _ (p : Platform) {S : Type 0} (formats : Formats p.Bytes S)
    (store : StorageBackendProjectionStore (Flagged p.backend.State) S)
    (reliable : IsReliable p.backend) where
  abbrev law : IsReliable (flagged_backend p.backend)
  law = flagged_reliable reliable

  abbrev dir : Str
  dir = get_projection_path p formats store

  -- The storage has a state file for each plain key that has a state, and none for the others.
  abbrev pub HoldsStates : States S → Disk p.Bytes → Type 0
  HoldsStates states d =
      (key : Str) → IsPlain key → stored p formats store reliable d key ≡ some (states key)

  abbrev SidesOnly : Disk p.Bytes → Disk p.Bytes → Type 0
  SidesOnly = Only (is_side p formats store)

  side-below : (q : Str) → is_below dir q ≡ false → is_side p formats store q ≡ false
  side-below q h = ground (arith, h)

  stored-side :
      {d d' : Disk p.Bytes}
      → SidesOnly d d'
      → (key : Str) → IsPlain key
      → stored p formats store reliable d' key ≡ stored p formats store reliable d key
  stored-side o key plain =
      ap (stored_in p formats store reliable)
        (o.files _ (get_file_path-not_side p formats store key plain))

  HoldsStates-side :
      {states : States S} {d d' : Disk p.Bytes}
      → SidesOnly d d'
      → HoldsStates states d
      → HoldsStates states d'
  HoldsStates-side o h key plain = stored-side o key plain ∙ h key plain

  path_apart :
      (j k : Str)
      → (j == k) ≡ false
      → (get_file_path p formats store j == get_file_path p formats store k) ≡ false
  path_apart j k differ =
      elim (Bool-cases (get_file_path p formats store j == get_file_path p formats store k)) [
        | inr apart ↦ apart
        | inl same ↦
            let eq : j ≡ k =
              get_file_path-injective p formats store j k
                (((list_eq {A = ℕ}).beq_iff _ _).0 same) in
            absurd (ground (arith, differ, ((list_eq {A = ℕ}).beq_iff j k).1 eq))
      ]

  -- What a write to the file of a key does to the states
  HoldsStates-write :
      (key : Str) (state : Option S) (file : Option p.Bytes) (states : States S)
      (d d' : Disk p.Bytes)
      → HoldsStates states d
      → d'
        ≡ record d { file = λ q. if q == get_file_path p formats store key then file else d.file q }
      → stored_in p formats store reliable file ≡ some state
      → HoldsStates (updated key state states) d'
  HoldsStates-write key state file states d d' h e good j plain = elim (Bool-cases (j == key)) [
    | inl same ↦
        let eq : j ≡ key = ((list_eq {A = ℕ}).beq_iff j key).0 same in
        let whole : (get_file_path p formats store key == get_file_path p formats store key)
            ≡ true =
          ((list_eq {A = ℕ}).beq_iff _ _).1 refl in
        rw (e, same, eq, whole) good
    | inr differ ↦
        let apart : (get_file_path p formats store j == get_file_path p formats store key) ≡ false =
          path_apart j key differ in
        rw (e, differ, apart) (h j plain)
  ]

  abbrev pub Owned : Disk p.Bytes → Disk p.Bytes → Type 0
  Owned = Only (is_below dir)

  Owned-side : {d d' : Disk p.Bytes} → SidesOnly d d' → Owned d d'
  Owned-side o = Only-mono _ _ side-below o

  -- The file of a key is found empty, or with its state; then it is removed.
  delete_file_lem :
      (key : Str) (states : States S) (w : Flagged p.backend.State)
      → HoldsStates states (view p formats store reliable w)
      → (w' : Flagged p.backend.State) × (delete_own p formats store key w ≡ returns tt w')
        × HoldsStates (updated key none states) (view p formats store reliable w')
        × Owned (view p formats store reliable w) (view p formats store reliable w')
  unfolding delete_own is_not_found stored_in
  delete_file_lem key states w h =
      let q : Str = get_file_path p formats store key in
      let below = get_file_path-below p formats store key in
      elim (Option-cases ((view p formats store reliable w).file q)) [
        | inl miss ↦
            let (w', e, v) = law.delete_file_miss q w miss in
            (
              w',
              ground (arith, e),
              HoldsStates-write key none none states _ _ h (v ∙ remove_absent q _ miss) refl,
              Only-of_eq _ v,
            )
        | inr (c, hit) ↦
            let (u, w', e, v) = law.delete_file_hit q w c hit in
            (
              w',
              ground (arith, e),
              HoldsStates-write key none none states _ _ h v refl,
              Only-remove _ q v below,
            )
      ]

  module _ (lossless : IsLossless formats.wrapper_json) where
    wrapped_lem :
        (c : p.Bytes) (state : S) (metadata : ProjectionMetadata)
        → formats.wrapper_json.from_slice c ≡ some (record { content = state; metadata = metadata })
        → stored_in p formats store reliable (some c) ≡ some (some state)
    unfolding stored_in decode_state
    wrapped_lem c state metadata e = rw (stored_in, decode_state, e)

    pub save_lem :
        (key : Str) (state : S) (states : States S) (w : Flagged p.backend.State)
        → IsPlain key
        → HoldsStates states (view p formats store reliable w)
        → Runs (save p formats store key state w) (λ _ w'.
          HoldsStates (updated key (some state) states) (view p formats store reliable w')
          × Owned (view p formats store reliable w) (view p formats store reliable w'))
    unfolding save
    save_lem key state states w plain h =
        let (u1, w1, e1, o1) =
          delete_old_tags-Sides p formats store reliable key (states key) w (h key plain) in
        let (u2, w2, e2, o2) = Sides-create_dir p formats store reliable dir w1 in
        let (index, w3, e3, o3) = read_metadata_index-Sides p formats store reliable w2 in
        let (old, w4, e4, o4) = old_metadata-Sides p formats store reliable key index w3 in
        let metadata : ProjectionMetadata = next_metadata (store.clock w2) old in
        let (c, written, read) =
          lossless.round_trip (record { content = state; metadata = metadata }) in
        let (u5, w5, e5, v5) = law.write_file_law (get_file_path p formats store key) c w4 in
        let (u6, w6, e6, o6) =
          write_metadata_index-Sides p formats store reliable key
            (record metadata { size_in_bytes = p.size c }) index w5 in
        let (u7, w7, e7, o7) = write_new_tags-Sides p formats store reliable key state w6 in
        let before = Only-trans _ (Only-trans _ o1 o2) (Only-trans _ o3 o4) in
        let after = Only-trans _ o6 o7 in
        (
          tt,
          w7,
          ground (arith, e1, e2, e3, e4, written, e5, e6, e7),
          (
            HoldsStates-side after (
                HoldsStates-write key (some state) (some c) states _ _ (HoldsStates-side before h)
                  v5 (wrapped_lem c state metadata read)),
            Only-trans _ (Owned-side before) (
                Only-trans _ (Only-write _ _ c v5 (get_file_path-below p formats store key))
                  (Owned-side after)),
          ),
        )

  pub delete_lem :
      (key : Str) (states : States S) (w : Flagged p.backend.State)
      → IsPlain key
      → HoldsStates states (view p formats store reliable w)
      → Runs (delete p formats store key w) (λ _ w'.
        HoldsStates (updated key none states) (view p formats store reliable w')
        × Owned (view p formats store reliable w) (view p formats store reliable w'))
  unfolding delete
  delete_lem key states w plain h =
      let (u1, w1, e1, o1) =
        delete_old_tags-Sides p formats store reliable key (states key) w (h key plain) in
      let (u2, w2, e2, o2) = forget_metadata-Sides p formats store reliable key w1 in
      let before = Only-trans _ o1 o2 in
      let (w3, e3, holds, o3) = delete_file_lem key states w2 (HoldsStates-side before h) in
      (tt, w3, ground (arith, e1, e2, e3), (holds, Only-trans _ (Owned-side before) o3))

  module _ (named : last (get_projection_path p formats store) ≢ some b'/') where
    pub clear_lem :
        (w : Flagged p.backend.State)
        → Runs (clear p formats store w) (λ _ w'.
          HoldsStates nothing_stored (view p formats store reliable w')
          × Owned (view p formats store reliable w) (view p formats store reliable w'))
    unfolding clear stored_in
    clear_lem w =
        let (u, w', e, v) = law.delete_dir_all_law dir w named in
        (
          tt,
          w',
          rw (e, ignore),
          (
            λ key plain. rw (v, get_file_path-below p formats store key),
            rw v (record { files = λ q out. rw out; locks = refl }),
          ),
        )

    pub rebuild_lem :
        (states : States S) (w : Flagged p.backend.State)
        → IsLossless formats.metadata_json
        → HoldsStates states (view p formats store reliable w)
        → Runs (rebuild_metadata_index p formats store w) (λ _ w'.
          HoldsStates states (view p formats store reliable w')
          × Owned (view p formats store reliable w) (view p formats store reliable w'))
    unfolding rebuild_metadata_index
    rebuild_lem states w lossless h =
        let (files, w1, e1, (v1, distinct, listed)) = law.read_dir_law dir w named in
        let (index, w2, e2, o2) =
          collect_metadata-Sides p formats store reliable files Map.empty w1 in
        let (u3, w3, e3, o3) =
          Sides-create_dir p formats store reliable (metadata_dir p formats store) w2 in
        let (c, good, read) = lossless.round_trip index in
        let (u4, w4, e4, v4) = law.write_file_law (metadata_index_path p formats store) c w3 in
        let o4 = Only-write _ _ c v4 (metadata_index_path-side p formats store) in
        let all = Only-trans _ (Only-of_eq _ v1) (Only-trans _ o2 (Only-trans _ o3 o4)) in
        (tt, w4, ground (arith, e1, e2, e3, good, e4), (HoldsStates-side all h, Owned-side all))
