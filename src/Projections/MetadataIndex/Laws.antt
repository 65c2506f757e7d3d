-- ===== src/Projections/MetadataIndex/Laws.antt =====
-- src/projections.rs: the operations of `ProjectionMetadataIndex` on a reliable storage.
use marmosa.Common.{
  ℕ, ◌≡◌, refl, ap, ◌∙◌, Bool, true, false, ◌||◌, Option, none, some, ◌++◌, arith, any, Str, str,
  ◌==◌, list_eq, ltb, if◌then◌else◌, Option-cases, inl, inr, fun_ext, nat_eq,
}
use marmosa.Exec.{returns, ignore, unwrap_or}
use marmosa.Exec.Rules.{Runs}
use marmosa.Ports.{Platform, Disk, IsReliable, Codec, lock, unlock}
use marmosa.InMemory.Map
use marmosa.Maintain.Ledger.{is_not_found}
use marmosa.Projections.{ProjectionMetadata}
use marmosa.Projections.MetadataIndex.{
  Index, get_index_path, get_lock_key, parse_index, read_index, write_index, save_metadata,
}

-- JSON writes a character of the key as an escape: a quotation mark, a backslash, or a control.
abbrev pub needs_escape : Str → Bool
needs_escape key = any (λ c. ltb c 32 || (c == b'"' || c == 92)) key

-- Every map can be written. What is read has borrowed keys, which an escape cannot be read into.
pub record IsBorrowing {Bytes : Type 0} (c : Codec Bytes Index) : Type 0 where
  pub read_back :
      (index : Index)
      → (d : Bytes) × (c.to_vec index ≡ some d)
        × (c.from_slice d ≡ (if any needs_escape (Map.keys index) then none else some index))

module _ (p : Platform) (index_json : Codec p.Bytes Index) where
  -- The index in a file, empty if there is none or it cannot be read
  unfoldable pub index_in : Option p.Bytes → Index
  index_in none = Map.empty
  index_in (some c) = elim (index_json.from_slice c) [ none ↦ Map.empty | some index ↦ index ]

  abbrev pub index_at : Disk p.Bytes → Str → Index
  index_at d root = index_in (d.file (get_index_path root))

  -- What is read of an index that was written
  abbrev pub legible : Index → Index
  legible index = if any needs_escape (Map.keys index) then Map.empty else index

  index_in-written :
      (c : p.Bytes) (escaped : Bool) (index : Index)
      → index_json.from_slice c ≡ (if escaped then none else some index)
      → index_in (some c) ≡ (if escaped then Map.empty else index)
  unfolding index_in
  index_in-written c true index e = rw (index_in, e) refl
  index_in-written c false index e = rw (index_in, e) refl

  -- A lock that was free is free again.
  unlock-lock :
      (l : Str) (d d' : Disk p.Bytes)
      → d.locked l ≡ false
      → d'.locked ≡ (lock l d).locked
      → (unlock l d').locked ≡ d.locked
  unlock-lock l d d' free held =
      fun_ext λ k. ground (arith, free, ap (λ g. g k) held, (list_eq {A = ℕ}).beq_iff k l)

  module _ (reliable : IsReliable p.backend) (borrowing : IsBorrowing index_json) where
    open p.backend use {State}
    open reliable use {view}

    pub read_index_lem :
        (root : Str) (w : State)
        → Runs
            (unwrap_or Map.empty (read_index p index_json (get_index_path root)) w)
            (λ index w'. (index ≡ index_at (view w) root) × (view w' ≡ view w))
    unfolding read_index parse_index index_in is_not_found
    read_index_lem root w =
        let path : Str = get_index_path root in
        elim (Option-cases ((view w).file path)) [
          | inl miss ↦
              let (w', e, v) = reliable.read_file_miss path w miss in
              (Map.empty, w', ground (arith, e), (ground (arith, miss), v))
          | inr (c, hit) ↦
              let (a, w', e, (same, v)) = reliable.read_file_hit path w c hit in
              (index_at (view w) root, w', ground (arith, e, same, hit), (refl, v))
        ]

    write_index_lem :
        (root : Str) (index : Index) (w : State)
        → Runs (write_index p index_json (get_index_path root) index w) (λ _ w'.
          (index_at (view w') root ≡ legible index) × ((view w').locked ≡ (view w).locked))
    unfolding write_index index_in
    write_index_lem root index w =
        let path : Str = get_index_path root in
        let (c, written, read) = borrowing.read_back index in
        let (u, w', e, v) = reliable.write_file_law path c w in
        let whole : (path == path) ≡ true = ((list_eq {A = ℕ}).beq_iff path path).1 refl in
        (
          tt,
          w',
          ground (arith, written, e),
          rw (v, whole) (index_in-written c (any needs_escape (Map.keys index)) index read, refl),
        )

    delete_file_lem :
        (root : Str) (w : State)
        → (w' : State) × (ignore (p.backend.delete_file (get_index_path root)) w ≡ returns tt w')
          × (index_at (view w') root ≡ Map.empty)
          × ((view w').locked ≡ (view w).locked)
    unfolding index_in
    delete_file_lem root w =
        let path : Str = get_index_path root in
        let whole : (path == path) ≡ true = ((list_eq {A = ℕ}).beq_iff path path).1 refl in
        elim (Option-cases ((view w).file path)) [
          | inl miss ↦
              let (w', e, v) = reliable.delete_file_miss path w miss in
              (w', rw (e, ignore), rw (v, miss) refl, rw v refl)
          | inr (c, hit) ↦
              let (u, w', e, v) = reliable.delete_file_hit path w c hit in
              (w', rw (e, ignore), rw (v, whole) refl, rw v refl)
        ]

    -- What `save` leaves of the index
    pub save_metadata_lem :
        (root key : Str) (metadata : ProjectionMetadata) (w : State)
        → (view w).locked (get_lock_key root) ≡ false
        → Runs (save_metadata p index_json root key metadata w) (λ _ w'.
          (index_at (view w') root ≡ legible (Map.insert key metadata (index_at (view w) root)))
          × ((view w').locked ≡ (view w).locked))
    unfolding save_metadata
    save_metadata_lem root key metadata w free =
        let l : Str = get_lock_key root in
        let (u1, w1, e1, v1) = reliable.create_dir_all_law (root ++ str "/Metadata") w in
        let (u2, w2, e2, v2) = reliable.acquire_free l w1 (rw v1 free) in
        let (index, w3, e3, (same, v3)) = read_index_lem root w2 in
        let (u4, w4, e4, (now, locks)) = write_index_lem root (Map.insert key metadata index) w3 in
        let (u5, w5, e5, v5) = reliable.release_law l w4 in
        let old : index ≡ index_at (view w) root = rw (v2, v1) at same in
        let held : (view w4).locked ≡ (lock l (view w)).locked = rw (v3, v2, v1) at locks in
        (
          tt,
          w5,
          ground (arith, e1, e2, e3, e4, e5),
          rw v5 (
            now ∙ ap (λ i. legible (Map.insert key metadata i)) old,
            unlock-lock l (view w) (view w4) free held,
          ),
        )
