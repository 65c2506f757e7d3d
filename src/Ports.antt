-- ===== src/Ports.antt =====
-- src/ports.rs: the storage that the store runs on, as an interface of operations and laws.
-- `Platform` adds what the crate takes from elsewhere: `serde_json` and Unicode lower case.
use marmosa.Common.{
  ℕ, Bool, true, false, not, ◌&&◌, Option, none, some, List, ◌++◌, ◌≡◌, ◌≢◌, last, Str, str, ◌==◌,
  nat_eq, list_eq, if◌then◌else◌, contains, Distinct,
}
use marmosa.Text.{strip_prefix}
use marmosa.Exec.{not_found, fails, blocks, Exec}
use marmosa.Exec.Rules.{Runs}
use marmosa.Domain.{EventRecord}

-- `trait StorageBackend`, over the type of file contents.
pub record Backend (Bytes : Type 0) : Type 1 where
  pub State : Type 0
  pub create_dir_all : Str → Exec State (Unit {0})
  pub read_file : Str → Exec State Bytes
  pub write_file : Str → Bytes → Exec State (Unit {0})
  pub delete_file : Str → Exec State (Unit {0})
  pub delete_dir_all : Str → Exec State (Unit {0})
  pub read_dir : Str → Exec State (List Str)
  pub file_exists : Str → Exec State Bool
  pub acquire_stream_lock : Str → Exec State (Unit {0})
  pub release_stream_lock : Str → Exec State (Unit {0})

-- What can be seen of a storage: its files, and the locks that are held.
pub record Disk (Bytes : Type 0) : Type 0 where
  pub file : Str → Option Bytes
  pub locked : Str → Bool

abbrev pub is_some {ℓ} : {A : Type ℓ} → Option A → Bool
is_some none = false
is_some (some a) = true

-- `path` is a file directly in the directory with the prefix `dir/`.
unfoldable pub is_child : Str → Str → Bool
is_child prefix path = elim (strip_prefix prefix path) [
  | none ↦ false
  | some rest ↦ not (contains b'/' rest)
]

-- `path` is the directory or lies below it.
unfoldable pub is_below : Str → Str → Bool
is_below dir path = elim (strip_prefix (dir ++ str "/") path) [
  | none ↦ path == dir
  | some rest ↦ true
]

module _ {Bytes : Type 0} where
  abbrev pub write : Str → Bytes → Disk Bytes → Disk Bytes
  write p b d = record d { file = λ q. if q == p then some b else d.file q }

  abbrev pub remove : Str → Disk Bytes → Disk Bytes
  remove p d = record d { file = λ q. if q == p then none else d.file q }

  abbrev pub remove_tree : Str → Disk Bytes → Disk Bytes
  remove_tree p d = record d { file = λ q. if is_below p q then none else d.file q }

  abbrev pub lock : Str → Disk Bytes → Disk Bytes
  lock l d = record d { locked = λ k. if k == l then true else d.locked k }

  abbrev pub unlock : Str → Disk Bytes → Disk Bytes
  unlock l d = record d { locked = λ k. if k == l then false else d.locked k }

  -- A storage without faults: each operation succeeds and does what its name says; only a file
  -- that is not there is an error, and only a lock that is held makes a task wait.
  pub record IsReliable (b : Backend Bytes) : Type 0 where
    pub view : b.State → Disk Bytes
    pub create_dir_all_law :
        (p : Str) (s : b.State) → Runs (b.create_dir_all p s) (λ _ s'. view s' ≡ view s)
    pub read_file_hit :
        (p : Str) (s : b.State) (d : Bytes)
        → (view s).file p ≡ some d
        → Runs (b.read_file p s) (λ a s'. (a ≡ d) × (view s' ≡ view s))
    pub read_file_miss :
        (p : Str) (s : b.State)
        → (view s).file p ≡ none
        → (s' : b.State) × (b.read_file p s ≡ fails not_found s') × (view s' ≡ view s)
    pub write_file_law :
        (p : Str) (d : Bytes) (s : b.State)
        → Runs (b.write_file p d s) (λ _ s'. view s' ≡ write p d (view s))
    pub delete_file_hit :
        (p : Str) (s : b.State) (d : Bytes)
        → (view s).file p ≡ some d
        → Runs (b.delete_file p s) (λ _ s'. view s' ≡ remove p (view s))
    pub delete_file_miss :
        (p : Str) (s : b.State)
        → (view s).file p ≡ none
        → (s' : b.State) × (b.delete_file p s ≡ fails not_found s') × (view s' ≡ view s)
    pub delete_dir_all_law :
        (p : Str) (s : b.State)
        → last p ≢ some b'/'
        → Runs (b.delete_dir_all p s) (λ _ s'. view s' ≡ remove_tree p (view s))
    pub read_dir_law :
        (p : Str) (s : b.State)
        → last p ≢ some b'/'
        → Runs (b.read_dir p s) (λ names s'.
          (view s' ≡ view s)
          × Distinct names
          × ((q : Str)
              → contains q names ≡ (is_child (p ++ str "/") q && is_some ((view s).file q))))
    pub file_exists_law :
        (p : Str) (s : b.State)
        → Runs
            (b.file_exists p s)
            (λ found s'. (found ≡ is_some ((view s).file p)) × (view s' ≡ view s))
    pub acquire_free :
        (l : Str) (s : b.State)
        → (view s).locked l ≡ false
        → Runs (b.acquire_stream_lock l s) (λ _ s'. view s' ≡ lock l (view s))
    pub acquire_held :
        (l : Str) (s : b.State)
        → (view s).locked l ≡ true
        → (s' : b.State) × (b.acquire_stream_lock l s ≡ blocks s') × (view s' ≡ view s)
    pub release_law :
        (l : Str) (s : b.State)
        → Runs (b.release_stream_lock l s) (λ _ s'. view s' ≡ unlock l (view s))

-- `serde_json::to_vec` and `serde_json::from_slice` at one type.
pub record Codec (Bytes A : Type 0) : Type 0 where
  pub to_vec : A → Option Bytes
  pub from_slice : Bytes → Option A

-- What is written can be read back.
pub record IsLossless {Bytes A : Type 0} (c : Codec Bytes A) : Type 0 where
  pub round_trip : (a : A) → (d : Bytes) × (c.to_vec a ≡ some d) × (c.from_slice d ≡ some a)

pub record Platform : Type 1 where
  pub Bytes : Type 0
  pub empty_file : Bytes
  pub size : Bytes → ℕ
  pub event_json : Codec Bytes EventRecord
  pub positions_json : Codec Bytes (List ℕ)
  pub to_lowercase : Str → Str
  pub backend : Backend Bytes

pub record IsLawful (p : Platform) : Type 0 where
  pub reliable : IsReliable p.backend
  pub events : IsLossless p.event_json
  pub positions : IsLossless p.positions_json
