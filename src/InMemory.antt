-- ===== src/InMemory.antt =====
-- src/in_memory.rs: the storage backend that keeps files, directories and locks in sorted maps.
pub mod Map
pub mod Reliable
use marmosa.Common.{
  ℕ, ◌+◌, ◌%◌, Bool, true, false, not, ◌||◌, Option, none, some, List, ◌++◌, ◌≡◌, Str, str, ◌==◌,
  nat_eq, list_eq, if◌then◌else◌, last, retain,
}
use marmosa.Text.{u64_mod, strip_prefix}
use marmosa.Exec.{not_found, Outcome, returns, fails, blocks, Exec}
use marmosa.Ports.{Backend, is_child, is_below, is_some}
use Map
use Map.{BTreeMap}

-- `InMemoryStorage`; `locks` is a set, a map to nothing.
pub record InMemoryStorage (Bytes : Type 0) : Type 0 where
  pub files : BTreeMap Bytes
  pub dirs : BTreeMap (Unit {0})
  pub locks : BTreeMap (Unit {0})

-- `path.ends_with('/')`
unfoldable pub ends_with_slash : Str → Bool
ends_with_slash path = elim (last path) [ none ↦ false | some c ↦ c == b'/' ]

-- `if path.ends_with('/') { path.to_string() } else { format!("{}/", path) }`
unfoldable pub dir_prefix : Str → Str
unfolding ends_with_slash
dir_prefix path = if ends_with_slash path then path else path ++ str "/"

-- `k.starts_with(&prefix) || **k == *path`
unfoldable pub in_tree : Str → Str → Bool
unfolding dir_prefix
in_tree path k = is_some (strip_prefix (dir_prefix path) k) || k == path

module _ {Bytes : Type 0} where
  -- `InMemoryStorage::new`
  unfoldable pub new : InMemoryStorage Bytes
  new = record { files = Map.empty; dirs = Map.empty; locks = Map.empty }

  unfoldable pub create_dir_all : Str → Exec (InMemoryStorage Bytes) (Unit {0})
  create_dir_all path s = returns tt (record s { dirs = Map.insert path tt s.dirs })

  unfoldable pub read_file : Str → Exec (InMemoryStorage Bytes) Bytes
  read_file path s = elim (Map.get path s.files) [
    | none ↦ fails not_found s
    | some content ↦ returns content s
  ]

  unfoldable pub write_file : Str → Bytes → Exec (InMemoryStorage Bytes) (Unit {0})
  write_file path content s = returns tt (record s { files = Map.insert path content s.files })

  unfoldable pub delete_file : Str → Exec (InMemoryStorage Bytes) (Unit {0})
  delete_file path s = elim (Map.get path s.files) [
    | none ↦ fails not_found s
    | some content ↦ returns tt (record s { files = Map.remove path s.files })
  ]

  unfoldable pub delete_dir_all : Str → Exec (InMemoryStorage Bytes) (Unit {0})
  unfolding in_tree
  delete_dir_all path s = returns tt (record s {
    files = Map.retain_keys (λ k. not (in_tree path k)) s.files;
    dirs = Map.retain_keys (λ k. not (in_tree path k)) s.dirs;
  })

  unfoldable pub read_dir : Str → Exec (InMemoryStorage Bytes) (List Str)
  unfolding dir_prefix
  read_dir path s = returns (retain (is_child (dir_prefix path)) (Map.keys s.files)) s

  unfoldable pub file_exists : Str → Exec (InMemoryStorage Bytes) Bool
  file_exists path s = returns (is_some (Map.get path s.files)) s

  -- The loop ends when the lock is free. Within one task nobody frees it.
  unfoldable pub acquire_stream_lock : Str → Exec (InMemoryStorage Bytes) (Unit {0})
  acquire_stream_lock stream_id s =
      if is_some (Map.get stream_id s.locks)
      then blocks s
      else returns tt (record s { locks = Map.insert stream_id tt s.locks })

  unfoldable pub release_stream_lock : Str → Exec (InMemoryStorage Bytes) (Unit {0})
  release_stream_lock stream_id s = returns tt (record s { locks = Map.remove stream_id s.locks })

-- `impl StorageBackend for InMemoryStorage`
abbrev pub in_memory : (Bytes : Type 0) → Backend Bytes
in_memory Bytes = record {
  State = InMemoryStorage Bytes;
  create_dir_all = create_dir_all;
  read_file = read_file;
  write_file = write_file;
  delete_file = delete_file;
  delete_dir_all = delete_dir_all;
  read_dir = read_dir;
  file_exists = file_exists;
  acquire_stream_lock = acquire_stream_lock;
  release_stream_lock = release_stream_lock;
}

-- `ManualClock`: the time as a `u64`; `fetch_add` wraps around.
pub record ManualClock : Type 0 where
  pub time : ℕ

unfoldable pub advance : ℕ → ManualClock → ManualClock
advance millis c = record { time = (c.time + millis) % u64_mod }

unfoldable pub set : ℕ → ManualClock → ManualClock
set millis c = record { time = millis }
