-- ===== src/InMemory/Reliable.antt =====
-- src/in_memory.rs: the laws of a reliable storage, for `InMemoryStorage`.
use marmosa.Common.{
  ℕ, ◌≡◌, ◌≢◌, refl, fun_ext, Bool, not, ◌&&◌, some, List, [], ◌∷◌, ◌++◌, arith, Str, str, nat_eq,
  list_eq, contains, Distinct, last, retain,
}
use marmosa.Exec.Rules.{Runs}
use marmosa.Ports.{Disk, IsReliable, is_some, is_child, is_below, remove_tree}
use marmosa.InMemory.Map
use marmosa.InMemory.{
  InMemoryStorage, in_memory, dir_prefix, in_tree, create_dir_all, read_file, write_file,
  delete_file, delete_dir_all, read_dir, file_exists, acquire_stream_lock, release_stream_lock,
}

contains-retain_str :
    (q : Str) (f : Str → Bool) (xs : List Str) → contains q (retain f xs) ≡ (f q && contains q xs)
contains-retain_str q f [] = ground arith
contains-retain_str q f (x ∷ xs) =
    ground (arith, contains-retain_str q f xs, (list_eq {A = ℕ}).beq_iff x q)

retain-Distinct : (f : Str → Bool) (xs : List Str) → Distinct xs → Distinct (retain f xs)
retain-Distinct f [] d = tt
retain-Distinct f (x ∷ xs) d = ground (arith, retain-Distinct f xs d.1, contains-retain_str x f xs)

dir_prefix_plain : (p : Str) → last p ≢ some b'/' → dir_prefix p ≡ p ++ str "/"
unfolding dir_prefix
dir_prefix_plain p h = ground arith

is_below-in_tree : (p q : Str) → last p ≢ some b'/' → not (in_tree p q) ≡ not (is_below p q)
unfolding in_tree is_below
is_below-in_tree p q h = ground (arith, dir_prefix_plain p h)

module _ {Bytes : Type 0} where
  -- The files, and the locks that are taken.
  abbrev pub view : InMemoryStorage Bytes → Disk Bytes
  view s = record { file = λ q. Map.get q s.files; locked = λ l. is_some (Map.get l s.locks) }

  pub Disk-ext :
      (d d' : Disk Bytes)
      → ((q : Str) → d.file q ≡ d'.file q)
      → ((l : Str) → d.locked l ≡ d'.locked l)
      → d ≡ d'
  Disk-ext d d' h k = λ i. record {
    file = fun_ext {f = d.file} {g = d'.file} h i;
    locked = fun_ext {f = d.locked} {g = d'.locked} k i;
  }

  -- `read_dir` of a path that does not end in `/` returns, each once, the paths of the files that
  -- stand directly in that directory and no other, and changes nothing.
  pub read_dir_lem :
      (p : Str) (s : InMemoryStorage Bytes)
      → last p ≢ some b'/'
      → Runs (read_dir p s) (λ names s'.
        (view s' ≡ view s)
        × Distinct names
        × ((q : Str) → contains q names ≡ (is_child (p ++ str "/") q && is_some ((view s).file q))))
  unfolding read_dir
  read_dir_lem p s h = (
    retain (is_child (dir_prefix p)) (Map.keys s.files),
    s,
    refl,
    (
      refl,
      retain-Distinct (is_child (dir_prefix p)) (Map.keys s.files) (Map.keys-Distinct s.files),
      λ q. ground (
        arith,
        contains-retain_str q (is_child (dir_prefix p)) (Map.keys s.files),
        dir_prefix_plain p h,
        Map.contains-keys q s.files,
      ),
    ),
  )

  -- `delete_dir_all` of a path that does not end in `/` removes the file of that path and the
  -- files below it, and leaves all other files and the locks.
  pub delete_dir_all_lem :
      (p : Str) (s : InMemoryStorage Bytes)
      → last p ≢ some b'/'
      → Runs (delete_dir_all p s) (λ _ s'. view s' ≡ remove_tree p (view s))
  unfolding delete_dir_all
  delete_dir_all_lem p s h = (
    tt,
    record s {
      files = Map.retain_keys (λ k. not (in_tree p k)) s.files;
      dirs = Map.retain_keys (λ k. not (in_tree p k)) s.dirs;
    },
    refl,
    Disk-ext _ _
        (λ q.
          ground
            (arith, Map.get-retain_keys q (λ k. not (in_tree p k)) s.files, is_below-in_tree p q h))
        (λ l. refl),
  )

  -- Every operation does what the interface asks.
  unfoldable pub in_memory-IsReliable : IsReliable (in_memory Bytes)
  unfolding create_dir_all read_file write_file delete_file delete_dir_all read_dir file_exists
      acquire_stream_lock release_stream_lock
  in_memory-IsReliable = record {
    view = view;
    create_dir_all_law = λ p s. (tt, record s { dirs = Map.insert p tt s.dirs }, refl, refl);
    read_file_hit = λ p s d h. (d, s, ground (arith, h), (refl, refl));
    read_file_miss = λ p s h. (s, ground (arith, h), refl);
    write_file_law = λ p d s. (
      tt,
      record s { files = Map.insert p d s.files },
      refl,
      Disk-ext _ _ (λ q. Map.get-insert q p d s.files) (λ l. refl),
    );
    delete_file_hit = λ p s d h. (
      tt,
      record s { files = Map.remove p s.files },
      ground (arith, h),
      Disk-ext _ _ (λ q. Map.get-remove q p s.files) (λ l. refl),
    );
    delete_file_miss = λ p s h. (s, ground (arith, h), refl);
    delete_dir_all_law = delete_dir_all_lem;
    read_dir_law = read_dir_lem;
    file_exists_law = λ p s. (is_some (Map.get p s.files), s, refl, (refl, refl));
    acquire_free = λ l s h. (
      tt,
      record s { locks = Map.insert l tt s.locks },
      ground (arith, h),
      Disk-ext _ _ (λ q. refl) (λ k. ground (arith, Map.get-insert k l tt s.locks)),
    );
    acquire_held = λ l s h. (s, ground (arith, h), refl);
    release_law = λ l s. (
      tt,
      record s { locks = Map.remove l s.locks },
      refl,
      Disk-ext _ _ (λ q. refl) (λ k. ground (arith, Map.get-remove k l s.locks)),
    );
  }
