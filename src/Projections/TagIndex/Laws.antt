-- ===== src/Projections/TagIndex/Laws.antt =====
-- src/projections.rs: what `ProjectionTagIndex` finds behind `add_projection` and
-- `remove_projection`, on a reliable storage.
use marmosa.Common.{
  ℕ, ◌≡◌, refl, sym, ap, ◌∙◌, fun_ext, Bool, true, false, not, ◌&&◌, ◌||◌, Option, none, some, List,
  [], ◌∷◌, ◌++◌, arith, Str, str, ◌==◌, nat_eq, list_eq, length, is_empty, retain, contains,
  contains-append, nil_of-is_empty, Bool-cases, Option-cases, inl, inr,
}
use marmosa.Common.Kept.{retain_whole, contains-retain_other}
use marmosa.Domain.{Tag}
use marmosa.Exec.{returns, ignore, unwrap_or}
use marmosa.Exec.Rules.{Runs}
use marmosa.Ports.{Platform, Disk, IsReliable, Codec, IsLossless, write, remove, lock, unlock}
use marmosa.Maintain.Ledger.{is_not_found}
use marmosa.Projections.TagIndex.{
  get_index_path, get_tag_lock_key, parse_keys, read_keys, write_keys, push_key, add_projection,
  drop_key, remove_locked, remove_projection,
}

module _ (p : Platform) (keys_json : Codec p.Bytes (List Str)) where
  -- The keys in an index file
  unfoldable pub keys_in : Option p.Bytes → List Str
  keys_in none = []
  keys_in (some c) = elim (keys_json.from_slice c) [ none ↦ [] | some keys ↦ keys ]

  abbrev pub keys_at : Disk p.Bytes → Str → List Str
  keys_at d path = keys_in (d.file path)

  -- One index file has changed, its members as the function says; no other file and no lock.
  pub record Changes (path : Str) (f : Str → Bool → Bool) (d d' : Disk p.Bytes) : Type 0 where
    pub members : (k : Str) → contains k (keys_at d' path) ≡ f k (contains k (keys_at d path))
    pub others : (q : Str) → (q == path) ≡ false → d'.file q ≡ d.file q
    pub locks : d'.locked ≡ d.locked

  Changes-write :
      (path : Str) (f : Str → Bool → Bool) (d : Disk p.Bytes) (keys : List Str) (c : p.Bytes)
      → keys_json.from_slice c ≡ some keys
      → ((k : Str) → contains k keys ≡ f k (contains k (keys_at d path)))
      → Changes path f d (write path c d)
  unfolding keys_in
  Changes-write path f d keys c e h =
      let whole : (path == path) ≡ true = ((list_eq {A = ℕ}).beq_iff path path).1 refl in
      record { members = λ k. rw (whole, e) (h k); others = λ q n. rw n; locks = refl }

  Changes-same :
      (path : Str) (f : Str → Bool → Bool) (d : Disk p.Bytes)
      → ((k : Str) → contains k (keys_at d path) ≡ f k (contains k (keys_at d path)))
      → Changes path f d d
  Changes-same path f d h = record { members = h; others = λ q n. refl; locks = refl }

  Changes-remove :
      (path : Str) (f : Str → Bool → Bool) (d : Disk p.Bytes)
      → ((k : Str) → false ≡ f k (contains k (keys_at d path)))
      → Changes path f d (remove path d)
  unfolding keys_in
  Changes-remove path f d h =
      let whole : (path == path) ≡ true = ((list_eq {A = ℕ}).beq_iff path path).1 refl in
      record { members = λ k. rw whole (h k); others = λ q n. rw n; locks = refl }

  -- To take a lock before, and to give it back after, changes nothing.
  Changes-locked :
      (path : Str) (f : Str → Bool → Bool) (l : Str) (d d' : Disk p.Bytes)
      → d.locked l ≡ false
      → Changes path f (lock l d) d'
      → Changes path f d (unlock l d')
  Changes-locked path f l d d' free a = record {
    members = a.members;
    others = a.others;
    locks = fun_ext λ k. ground (arith, free, ap (λ g. g k) a.locks, (list_eq {A = ℕ}).beq_iff k l);
  }

  module _ (reliable : IsReliable p.backend) (lossless : IsLossless keys_json) where
    open p.backend use {State}
    open reliable use {view}

    pub read_keys_lem :
        (path : Str) (w : State)
        → Runs
            (unwrap_or [] (read_keys p keys_json path) w)
            (λ keys w'. (keys ≡ keys_at (view w) path) × (view w' ≡ view w))
    unfolding read_keys parse_keys keys_in is_not_found
    read_keys_lem path w = elim (Option-cases ((view w).file path)) [
      | inl miss ↦
          let (w', e, v) = reliable.read_file_miss path w miss in
          ([], w', ground (arith, e), (ground (arith, miss), v))
      | inr (c, hit) ↦
          let (a, w', e, (same, v)) = reliable.read_file_hit path w c hit in
          (keys_at (view w) path, w', ground (arith, e, same, hit), (refl, v))
    ]

    write_keys_lem :
        (path : Str) (f : Str → Bool → Bool) (keys : List Str) (w : State)
        → ((k : Str) → contains k keys ≡ f k (contains k (keys_at (view w) path)))
        → Runs (write_keys p keys_json path keys w) (λ _ w'. Changes path f (view w) (view w'))
    unfolding write_keys
    write_keys_lem path f keys w h =
        let (c, written, read) = lossless.round_trip keys in
        let (u, w', e, v) = reliable.write_file_law path c w in
        (tt, w', ground (arith, written, e), rw v (Changes-write path f (view w) keys c read h))

    abbrev pub with_key : Str → Str → Bool → Bool
    with_key key k b = b || key == k

    abbrev pub without_key : Str → Str → Bool → Bool
    without_key key k b = not (k == key) && b

    push_key_lem :
        (path key : Str) (w : State)
        → Runs
            (push_key p keys_json path key (keys_at (view w) path) w)
            (λ _ w'. Changes path (with_key key) (view w) (view w'))
    unfolding push_key
    push_key_lem path key w =
        let keys : List Str = keys_at (view w) path in
        elim (Bool-cases (contains key keys)) [
          | inl there ↦ (
            tt,
            w,
            rw there,
            Changes-same path _ (view w)
                (λ k. ground (arith, there, (list_eq {A = ℕ}).beq_iff key k)),
          )
          | inr new ↦ rw new (
              write_keys_lem path (with_key key) (keys ++ key ∷ []) w
                (λ k. ground (arith, contains-append k keys (key ∷ []))))
        ]

    delete_file_lem :
        (path : Str) (f : Str → Bool → Bool) (w : State)
        → ((k : Str) → false ≡ f k (contains k (keys_at (view w) path)))
        → (w' : State) × (ignore (p.backend.delete_file path) w ≡ returns tt w')
          × Changes path f (view w) (view w')
    unfolding keys_in
    delete_file_lem path f w h = elim (Option-cases ((view w).file path)) [
      | inl miss ↦
          let (w', e, v) = reliable.delete_file_miss path w miss in
          (
            w',
            rw (e, ignore),
            rw v (Changes-same path f (view w) (λ k. rw miss (rw miss at (h k)))),
          )
      | inr (c, hit) ↦
          let (u, w', e, v) = reliable.delete_file_hit path w c hit in
          (w', rw (e, ignore), rw v (Changes-remove path f (view w) h))
    ]

    drop_key_lem :
        (path key : Str) (w : State)
        → Runs
            (drop_key p keys_json path key (keys_at (view w) path) w)
            (λ _ w'. Changes path (without_key key) (view w) (view w'))
    unfolding drop_key keys_in
    drop_key_lem path key w =
        let keys : List Str = keys_at (view w) path in
        let kept : List Str = retain (λ k. not (k == key)) keys in
        elim (Bool-cases (length kept == length keys)) [
          | inl same ↦
              let all : kept ≡ keys = retain_whole _ keys ((nat_eq.beq_iff _ _).0 same) in
              (
                tt,
                w,
                ground (arith, same),
                Changes-same path _ (view w)
                    (λ k. ap (contains k) (sym all) ∙ contains-retain_other key k keys),
              )
          | inr fewer ↦ elim (Bool-cases (is_empty kept)) [
            | inr some_left ↦
                let (u, w', e, changes) =
                  write_keys_lem path (without_key key) kept w
                    (λ k. contains-retain_other key k keys) in
                (u, w', ground (arith, fewer, some_left, e), changes)
            | inl none_left ↦
                let (w', e, changes) = delete_file_lem path (without_key key) w (λ k.
                  ap (contains k) (sym (nil_of-is_empty kept none_left))
                  ∙ contains-retain_other key k keys) in
                (tt, w', ground (arith, fewer, none_left, e), changes)
          ]
        ]

    -- The index file of a tag has the key besides the keys that it had.
    pub add_projection_lem :
        (root : Str) (tag : Tag) (key : Str) (w : State)
        → (view w).locked (get_tag_lock_key root tag) ≡ false
        → Runs
            (add_projection p keys_json root tag key w)
            (λ _ w'. Changes (get_index_path root tag) (with_key key) (view w) (view w'))
    unfolding add_projection
    add_projection_lem root tag key w free =
        let path : Str = get_index_path root tag in
        let l : Str = get_tag_lock_key root tag in
        let (u1, w1, e1, v1) = reliable.create_dir_all_law (root ++ str "/Indices") w in
        let (u2, w2, e2, v2) = reliable.acquire_free l w1 (rw v1 free) in
        let (keys, w3, e3, (same, v3)) = read_keys_lem path w2 in
        let (u4, w4, e4, changes) = push_key_lem path key w3 in
        let (u5, w5, e5, v5) = reliable.release_law l w4 in
        let keys_eq : keys ≡ keys_at (view w3) path = rw v3 same in
        let locked : view w3 ≡ lock l (view w) = v3 ∙ (v2 ∙ ap (lock l) v1) in
        (
          tt,
          w5,
          ground (arith, e1, e2, e3, keys_eq, e4, e5),
          rw v5 (Changes-locked path _ l (view w) (view w4) free (rw locked at changes)),
        )

    remove_locked_lem :
        (root : Str) (tag : Tag) (key : Str) (w : State)
        → (view w).locked (get_tag_lock_key root tag) ≡ false
        → Runs
            (remove_locked p keys_json root tag key w)
            (λ _ w'. Changes (get_index_path root tag) (without_key key) (view w) (view w'))
    unfolding remove_locked
    remove_locked_lem root tag key w free =
        let path : Str = get_index_path root tag in
        let l : Str = get_tag_lock_key root tag in
        let (u2, w2, e2, v2) = reliable.acquire_free l w free in
        let (keys, w3, e3, (same, v3)) = read_keys_lem path w2 in
        let (u4, w4, e4, changes) = drop_key_lem path key w3 in
        let (u5, w5, e5, v5) = reliable.release_law l w4 in
        let keys_eq : keys ≡ keys_at (view w3) path = rw v3 same in
        let locked : view w3 ≡ lock l (view w) = v3 ∙ v2 in
        (
          tt,
          w5,
          ground (arith, e2, e3, keys_eq, e4, e5),
          rw v5 (Changes-locked path _ l (view w) (view w4) free (rw locked at changes)),
        )

    -- The index file of a tag has the keys that it had but the one; without a file nothing changes.
    pub remove_projection_lem :
        (root : Str) (tag : Tag) (key : Str) (w : State)
        → (view w).locked (get_tag_lock_key root tag) ≡ false
        → Runs
            (remove_projection p keys_json root tag key w)
            (λ _ w'. Changes (get_index_path root tag) (without_key key) (view w) (view w'))
    unfolding remove_projection keys_in
    remove_projection_lem root tag key w free =
        let path : Str = get_index_path root tag in
        let (there, w1, e1, (same, v1)) = reliable.file_exists_law path w in
        elim (Option-cases ((view w).file path)) [
          | inl miss ↦ (
            tt,
            w1,
            ground (arith, e1, same, miss),
            rw v1 (Changes-same path _ (view w) (λ k. rw miss (ground arith))),
          )
          | inr (c, hit) ↦
              let (u2, w2, e2, changes) = remove_locked_lem root tag key w1 (rw v1 free) in
              (u2, w2, ground (arith, e1, same, hit, e2), rw v1 at changes)
        ]
