-- ===== src/EventStore/Indices/Laws.antt =====
-- What the index operations do to a reliable storage.
use marmosa.Common.{
  ℕ, Bool, true, false, ◌&&◌, ◌||◌, Option, none, some, List, [], ◌∷◌, ◌++◌, ◌≡◌, refl, fun_ext, ap,
  ◌∙◌, arith, Str, str, ◌==◌, nat_eq, list_eq, list_beq, Bool-cases, Option-cases, inl, inr, any,
  contains, contains-append,
}
use marmosa.Common.Sorted.{sort_unstable, contains-sort_unstable}
use marmosa.Domain.{Tag, EventRecord}
use marmosa.Exec.{Result, ok, err, not_found, attempt, ◌>>=◌}
use marmosa.Exec.Rules.{Runs}
use marmosa.Ports.{Platform, Disk, IsLawful, write, lock, unlock}
use marmosa.EventStore.Indices.{
  tag_path, type_path, read_positions, write_positions, update_positions, add_position,
  add_tag_position, add_type_position, add_tag_positions, add_event_to_indices, get_positions,
}

-- The lock that `append_async` holds.
abbrev pub global_lock : Str
global_lock = str "global_store"

module _ (p : Platform) where
  open p use {Bytes, positions_json, backend}
  open p.backend use {State}

  abbrev content : Option Bytes → Result Bytes
  content none = err not_found
  content (some c) = ok c

  -- The positions in an index file.
  unfoldable pub index_at : Disk Bytes → Str → List ℕ
  index_at d q = read_positions p (content (d.file q))

  -- The position was added to the index files of a class, and nothing else changed.
  pub record Adds (paths : Str → Bool) (position : ℕ) (d d' : Disk Bytes) : Type 0 where
    pub members :
        (q : Str) (k : ℕ)
        → contains k (index_at d' q) ≡ ((paths q && position == k) || contains k (index_at d q))
    pub others : (q : Str) → paths q ≡ false → d'.file q ≡ d.file q
    pub locks : d'.locked ≡ d.locked

  -- No index lock is held.
  abbrev pub IndexLocksFree : Disk Bytes → Type 0
  IndexLocksFree d = (l : Str) → (l == global_lock) ≡ false → d.locked l ≡ false

  pub Adds-trans :
      (P Q : Str → Bool) (position : ℕ) {d d' d'' : Disk Bytes}
      → Adds P position d d'
      → Adds Q position d' d''
      → Adds (λ q. P q || Q q) position d d''
  Adds-trans P Q position a b = record {
    members = λ q k. ground (arith, a.members q k, b.members q k);
    others = λ q h. ground (arith, a.others q, b.others q);
    locks = cc (a.locks, b.locks);
  }

  Adds-write :
      (q : Str) (position : ℕ) (d : Disk Bytes) (xs : List ℕ) (c : Bytes)
      → positions_json.from_slice c ≡ some xs
      → ((k : ℕ) → contains k xs ≡ (position == k || contains k (index_at d q)))
      → Adds (λ r. r == q) position d (write q c d)
  unfolding index_at read_positions
  Adds-write q position d xs c e h = record {
    members = λ r k. ground (arith, h k, (list_eq {A = ℕ}).beq_iff r q);
    others = λ r n. ground arith;
    locks = refl;
  }

  -- The position is there already.
  Adds-same :
      (q : Str) (position : ℕ) (d d' : Disk Bytes)
      → d' ≡ d
      → contains position (index_at d q) ≡ true
      → Adds (λ r. r == q) position d d'
  Adds-same q position d d' v h = rw v (record {
    members = λ r k. ground (arith, (list_eq {A = ℕ}).beq_iff r q);
    others = λ r n. refl;
    locks = refl;
  })

  -- To take a lock before, and to give it back after, changes nothing.
  Adds-locked :
      (P : Str → Bool) (position : ℕ) (l : Str) (d d' : Disk Bytes)
      → d.locked l ≡ false
      → Adds P position (lock l d) d'
      → Adds P position d (unlock l d')
  unfolding index_at
  Adds-locked P position l d d' free a = record {
    members = a.members;
    others = a.others;
    locks = fun_ext λ k. ground (arith, free, ap (λ f. f k) a.locks, (list_eq {A = ℕ}).beq_iff k l);
  }

  module _ (law : IsLawful p) where
    open law use {reliable, positions}
    open law.reliable use {view}

    read_index :
        (q : Str) (s : State)
        → Runs
            (attempt (backend.read_file q) s)
            (λ r s'. (read_positions p r ≡ index_at (view s) q) × (view s' ≡ view s))
    unfolding index_at
    read_index q s = elim (Option-cases ((view s).file q)) [
      | inl miss ↦
          let (s', e, v) = reliable.read_file_miss q s miss in
          (err not_found, s', rw (e, attempt), (rw miss, v))
      | inr (c, hit) ↦
          let (a, s', e, (same, v)) = reliable.read_file_hit q s c hit in
          (ok a, s', rw (e, attempt), (rw (hit, same), v))
    ]

    pub get_positions_lem :
        (q : Str) (s : State)
        → Runs
            (get_positions p q s)
            (λ found s'. (found ≡ index_at (view s) q) × (view s' ≡ view s))
    unfolding get_positions
    get_positions_lem q s =
        let (r, s', e, h) = read_index q s in (read_positions p r, s', rw (e, ◌>>=◌), h)

    write_positions_lem :
        (q : Str) (position : ℕ) (s : State)
        → Runs
            (write_positions p q (sort_unstable (index_at (view s) q ++ position ∷ [])) s)
            (λ _ s'. Adds (λ r. r == q) position (view s) (view s'))
    unfolding write_positions
    write_positions_lem q position s =
        let old : List ℕ = index_at (view s) q in
        let new : List ℕ = sort_unstable (old ++ position ∷ []) in
        let (c, written, read) = positions.round_trip new in
        let (a, s', e, v) = reliable.write_file_law q c s in
        (
          tt,
          s',
          ground (arith, written, e),
          rw v (
              Adds-write q position (view s) new c read (λ k. ground (
                arith,
                contains-sort_unstable k (old ++ position ∷ []),
                contains-append k old (position ∷ []),
              ))),
        )

    -- The index file after the update, whatever it held.
    update_positions_lem :
        (q : Str) (position : ℕ) (s : State)
        → Runs
            (update_positions p q position (index_at (view s) q) s)
            (λ _ s'. Adds (λ r. r == q) position (view s) (view s'))
    unfolding update_positions
    update_positions_lem q position s =
        elim (Bool-cases (contains position (index_at (view s) q))) [
          | inl old ↦ (tt, s, rw old, Adds-same q position (view s) (view s) refl old)
          | inr new ↦ rw new (write_positions_lem q position s)
        ]

    add_position_lem :
        (dir q l : Str) (position : ℕ) (s : State)
        → (view s).locked l ≡ false
        → Runs
            (add_position p dir q l position s)
            (λ _ s'. Adds (λ r. r == q) position (view s) (view s'))
    unfolding add_position
    add_position_lem dir q l position s free =
        let (u1, s1, e1, v1) = reliable.create_dir_all_law dir s in
        let (u2, s2, e2, v2) = reliable.acquire_free l s1 (rw v1 free) in
        let (r, s3, e3, (x3, v3)) = read_index q s2 in
        let (u4, s4, e4, adds) = update_positions_lem q position s3 in
        let (u5, s5, e5, v5) = reliable.release_law l s4 in
        let same : read_positions p r ≡ index_at (view s3) q = rw v3 x3 in
        let locked : view s3 ≡ lock l (view s) = v3 ∙ (v2 ∙ ap (lock l) v1) in
        (
          tt,
          s5,
          ground (arith, e1, e2, e3, same, e4, e5),
          rw v5 (Adds-locked (λ r. r == q) position l (view s) (view s4) free (rw locked at adds)),
        )

    -- The files that index an event.
    abbrev tag_files : Str → List Tag → Str → Bool
    tag_files root tags q = any (λ t. q == tag_path p root t) tags

    add_tag_positions_lem :
        (root : Str) (tags : List Tag) (position : ℕ) (s : State)
        → IndexLocksFree (view s)
        → Runs
            (add_tag_positions p root tags position s)
            (λ _ s'. Adds (tag_files root tags) position (view s) (view s'))
    unfolding add_tag_positions add_tag_position list_beq
    add_tag_positions_lem root [] position s free =
        (tt, s, refl, record { members = λ q k. refl; others = λ q h. refl; locks = refl })
    add_tag_positions_lem root (t ∷ ts) position s free =
        let (u1, s1, e1, a1) =
          add_position_lem (root ++ str "/Tags") (tag_path p root t)
            (str "tag_lock:" ++ tag_path p root t) position s (free _ refl) in
        let (u2, s2, e2, a2) =
          add_tag_positions_lem root ts position s1 (λ l h. rw a1.locks (free l h)) in
        (
          tt,
          s2,
          ground (arith, e1, e2),
          Adds-trans (λ q. q == tag_path p root t) (tag_files root ts) position a1 a2,
        )

    -- If no index lock is held, the position of an event is added to the index file of its type
    -- and to those of its tags, whatever these files held: they have it besides what they had. No
    -- other file changes, and no lock.
    pub add_event_to_indices_lem :
        (root : Str) (r : EventRecord) (s : State)
        → IndexLocksFree (view s)
        → Runs (add_event_to_indices p root r s) (λ _ s'.
          Adds
            (λ q. q == type_path p root r.event.event_type || tag_files root r.event.tags q)
            r.position
            (view s)
            (view s'))
    unfolding add_event_to_indices add_type_position list_beq
    add_event_to_indices_lem root r s free =
        let (u1, s1, e1, a1) =
          add_position_lem (root ++ str "/EventTypes") (type_path p root r.event.event_type)
            (str "event_type_lock:" ++ type_path p root r.event.event_type) r.position s
            (free _ refl) in
        let (u2, s2, e2, a2) =
          add_tag_positions_lem root r.event.tags r.position s1 (λ l h. rw a1.locks (free l h)) in
        (
          tt,
          s2,
          ground (arith, e1, e2),
          Adds-trans (λ q. q == type_path p root r.event.event_type) (tag_files root r.event.tags)
              r.position a1 a2,
        )
