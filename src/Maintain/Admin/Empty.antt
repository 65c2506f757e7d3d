-- ===== src/Maintain/Admin/Empty.antt =====
-- src/event_store/admin.rs: the storage after `delete_store`.
use marmosa.Common.{
  ◌≢◌, last, All, Bool-cases, list_beq, ℕ, ◌≡◌, refl, ◌∙◌, ap, true, none, some, List, [], ◌∷◌,
  arith, Str, str, ◌==◌, nat_eq, list_eq, contains, Option-cases, inl, inr,
}
use marmosa.Exec.{ignore, ◌>>◌}
use marmosa.Exec.Rules.{Runs}
use marmosa.Ports.{Platform, Disk, IsLawful, is_child, is_below, remove_tree, remove}
use marmosa.EventStore.Indices.{read_positions}
use marmosa.EventStore.Indices.Laws.{index_at}
use marmosa.EventStore.Log.{Represents, record_at, encoded}
use marmosa.Maintain.Admin.{delete_dirs, delete_store}

no_files :
    (p : Platform) (d : Disk p.Bytes)
    → ((q : Str) → is_below (str "Events") q ≡ true → d.file q ≡ none)
    → ((q : Str) → is_below (str "Indices") q ≡ true → d.file q ≡ none)
    → Represents p [] d
unfolding is_below is_child record_at encoded index_at read_positions
no_files p d events indices = record {
  numbered = tt;
  fits = omega arith;
  events = λ q h. ground (arith, h, events q);
  indices = λ q k h. ground (arith, h, indices q);
}

-- The files after directories are deleted.
abbrev remove_trees : {Bytes : Type 0} → List Str → Disk Bytes → Disk Bytes
remove_trees [] d = d
remove_trees (dir ∷ dirs) d = remove_trees dirs (remove_tree dir d)

module _ {Bytes : Type 0} where
  remove_trees-locked : (dirs : List Str) (d : Disk Bytes) → (remove_trees dirs d).locked ≡ d.locked
  remove_trees-locked [] d = refl
  remove_trees-locked (dir ∷ dirs) d = remove_trees-locked dirs (remove_tree dir d)

  -- What is gone stays away.
  remove_trees-none :
      (dirs : List Str) (d : Disk Bytes) (q : Str)
      → d.file q ≡ none
      → (remove_trees dirs d).file q ≡ none
  remove_trees-none [] d q h = h
  remove_trees-none (dir ∷ dirs) d q h =
      remove_trees-none dirs (remove_tree dir d) q (ground (arith, h))

  remove_trees-below :
      (dirs : List Str) (dir : Str) (d : Disk Bytes) (q : Str)
      → contains dir dirs ≡ true
      → is_below dir q ≡ true
      → (remove_trees dirs d).file q ≡ none
  remove_trees-below [] dir d q h b = cc
  remove_trees-below (x ∷ xs) dir d q h b = elim (Bool-cases (x == dir)) [
    | inl same ↦
        let e : x ≡ dir = ((list_eq {A = ℕ}).beq_iff x dir).0 same in
        remove_trees-none xs (remove_tree x d) q (ground (arith, e, b))
    | inr differ ↦ remove_trees-below xs dir (remove_tree x d) q (ground (arith, differ, h)) b
  ]

  removed-none : (l : Str) (d : Disk Bytes) (q : Str) → d.file q ≡ none → (remove l d).file q ≡ none
  removed-none l d q h = ground (arith, h)

abbrev store_dirs : List Str
store_dirs = str "Events" ∷ str "Indices" ∷ str "Projections" ∷ str ".ledger" ∷ []

plain_dirs : All (λ dir. last dir ≢ some b'/') store_dirs
plain_dirs = ((λ h. cc), ((λ h. cc), ((λ h. cc), ((λ h. cc), tt))))

has_events : contains (str "Events") store_dirs ≡ true
unfolding list_beq
has_events = refl

has_indices : contains (str "Indices") store_dirs ≡ true
unfolding list_beq
has_indices = refl

module _ (p : Platform) (law : IsLawful p) where
  open law.reliable use {view}
  open p.backend use {State}

  delete_dirs_lem :
      (dirs : List Str) (s : State)
      → All (λ dir. last dir ≢ some b'/') dirs
      → Runs (delete_dirs p dirs s) (λ _ s'. view s' ≡ remove_trees dirs (view s))
  unfolding delete_dirs
  delete_dirs_lem [] s h = (tt, s, refl, refl)
  delete_dirs_lem (dir ∷ dirs) s (h, hs) =
      let (u1, s1, e1, v1) = law.reliable.delete_dir_all_law dir s h in
      let (u2, s2, e2, v2) = delete_dirs_lem dirs s1 hs in
      (tt, s2, ground (arith, e1, e2), v2 ∙ ap (remove_trees dirs) v1)

  -- The files of the directories are gone, and the locks are as they were.
  record Gone (dirs : List Str) (d d' : Disk p.Bytes) : Type 0 where
    files : (dir q : Str) → contains dir dirs ≡ true → is_below dir q ≡ true → d'.file q ≡ none
    locks : d'.locked ≡ d.locked

  delete_lem :
      (dirs : List Str) (l : Str) (s : State)
      → All (λ dir. last dir ≢ some b'/') dirs
      → Runs
          ((delete_dirs p dirs >> ignore (p.backend.delete_file l)) s)
          (λ _ s'. Gone dirs (view s) (view s'))
  delete_lem dirs l s h =
      let (u, s1, e1, v1) = delete_dirs_lem dirs s h in
      let locks = remove_trees-locked dirs (view s) in
      elim (Option-cases ((view s1).file l)) [
        | inl miss ↦
            let (s2, e2, v2) = law.reliable.delete_file_miss l s1 miss in
            (
              tt,
              s2,
              ground (arith, e1, e2),
              record {
                files = λ dir q m b. rw (v2, v1) (remove_trees-below dirs dir (view s) q m b);
                locks = ap (λ d. d.locked) (v2 ∙ v1) ∙ locks;
              },
            )
        | inr (c, hit) ↦
            let (u2, s2, e2, v2) = law.reliable.delete_file_hit l s1 c hit in
            (
              tt,
              s2,
              ground (arith, e1, e2),
              record {
                files = λ dir q m b.
                    rw (v2, v1)
                      (removed-none l (remove_trees dirs (view s)) q
                        (remove_trees-below dirs dir (view s) q m b));
                locks = ap (λ d. d.locked) v2 ∙ (ap (λ d. d.locked) v1 ∙ locks);
              },
            )
      ]

  deleted : (s : State) → Runs (delete_store p s) (λ _ s'. Gone store_dirs (view s) (view s'))
  unfolding delete_store
  deleted s = delete_lem store_dirs (str ".store.lock") s plain_dirs

  -- Whatever a storage held, after `delete_store` it represents the empty log, with no event and
  -- no position in an index; the locks are as they were.
  pub delete_store-Represents :
      (s : State)
      → Runs
          (delete_store p s)
          (λ _ s'. Represents p [] (view s') × ((view s').locked ≡ (view s).locked))
  delete_store-Represents s =
      let (u, s', e, gone) = deleted s in
      (
        u,
        s',
        e,
        (
          no_files p (view s') (λ q h. gone.files (str "Events") q has_events h)
              (λ q h. gone.files (str "Indices") q has_indices h),
          gone.locks,
        ),
      )
