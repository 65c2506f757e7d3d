-- ===== src/Projections/Contract.antt =====
-- src/projections.rs: what a runner relies on in the store of its states. The client sees a function
-- from keys to states, and a class of files that are the store's own.
use marmosa.Common.{
  ℕ, ◌≡◌, refl, ap, ◌∙◌, Bool, true, false, Option, none, some, arith, Str, ◌==◌, list_eq,
  if◌then◌else◌, nat_eq,
}
use marmosa.Exec.Rules.{Runs}
use marmosa.Ports.{Platform, Disk, IsLossless, write, remove}
use marmosa.Projections.{ProjectionStore, Formats}

-- The files that fail the test have not changed, and no lock has.
pub record Only {Bytes : Type 0} (f : Str → Bool) (d d' : Disk Bytes) : Type 0 where
  pub files : (q : Str) → f q ≡ false → d'.file q ≡ d.file q
  pub locks : d'.locked ≡ d.locked

module _ {Bytes : Type 0} (f : Str → Bool) where
  pub Only-of_eq : {d d' : Disk Bytes} → d' ≡ d → Only f d d'
  Only-of_eq e = record { files = λ q h. ap (λ d. d.file q) e; locks = ap (λ d. d.locked) e }

  pub Only-trans : {d d' d'' : Disk Bytes} → Only f d d' → Only f d' d'' → Only f d d''
  Only-trans a b = record { files = λ q h. b.files q h ∙ a.files q h; locks = b.locks ∙ a.locks }

  pub Only-write :
      (p : Str) (c : Bytes) {d d' : Disk Bytes} → d' ≡ write p c d → f p ≡ true → Only f d d'
  Only-write p c {d} e h =
      rw e (record {
        files = λ q n. ground (arith, h, n, (list_eq {A = ℕ}).beq_iff q p);
        locks = refl;
      })

  pub Only-remove : (p : Str) {d d' : Disk Bytes} → d' ≡ remove p d → f p ≡ true → Only f d d'
  Only-remove p {d} e h =
      rw e (record {
        files = λ q n. ground (arith, h, n, (list_eq {A = ℕ}).beq_iff q p);
        locks = refl;
      })

pub Only-mono :
    {Bytes : Type 0} (f g : Str → Bool) {d d' : Disk Bytes}
    → ((q : Str) → g q ≡ false → f q ≡ false)
    → Only f d d'
    → Only g d d'
Only-mono f g h a = record { files = λ q n. a.files q (h q n); locks = a.locks }

-- The formats of the stored types read back what they have written.
pub record AreLossless {Bytes S : Type 0} (formats : Formats Bytes S) : Type 0 where
  pub wrapper : IsLossless formats.wrapper_json
  pub checkpoint : IsLossless formats.checkpoint_json
  pub metadata : IsLossless formats.metadata_json

-- The states of all keys
abbrev pub States : Type 0 → Type 0
States S = Str → Option S

abbrev pub updated : {S : Type 0} → Str → Option S → States S → States S
updated key state states k = if k == key then state else states k

abbrev pub nothing_stored : {S : Type 0} → States S
nothing_stored k = none

-- A store of states, over a view of its storage. `Holds states d`: the storage has these states at
-- the keys that the store can tell apart. Only the files that are the store's own change.
pub record IsKeyedStore (p : Platform) {S : Type 0} (view : p.backend.State → Disk p.Bytes)
    (store : ProjectionStore p.backend.State S) : Type 1 where
  pub IsKey : Str → Type 0
  pub owns : Str → Bool
  pub Holds : States S → Disk p.Bytes → Type 0
  pub Holds-others :
      (states : States S) (d d' : Disk p.Bytes)
      → ((q : Str) → owns q ≡ true → d'.file q ≡ d.file q)
      → Holds states d
      → Holds states d'
  pub get_law :
      (key : Str) (states : States S) (w : p.backend.State)
      → IsKey key
      → Holds states (view w)
      → Runs (store.get key w) (λ found w'. (found ≡ states key) × (view w' ≡ view w))
  pub save_law :
      (key : Str) (state : S) (states : States S) (w : p.backend.State)
      → IsKey key
      → Holds states (view w)
      → Runs
          (store.save key state w)
          (λ _ w'. Holds (updated key (some state) states) (view w') × Only owns (view w) (view w'))
  pub delete_law :
      (key : Str) (states : States S) (w : p.backend.State)
      → IsKey key
      → Holds states (view w)
      → Runs
          (store.delete key w)
          (λ _ w'. Holds (updated key none states) (view w') × Only owns (view w) (view w'))
  pub clear_law :
      (w : p.backend.State)
      → Runs (store.clear w) (λ _ w'. Holds nothing_stored (view w') × Only owns (view w) (view w'))
  pub set_batch_mode_law :
      (enabled : Bool) (w : p.backend.State)
      → Runs (store.set_batch_mode enabled w) (λ _ w'. view w' ≡ view w)
  pub rebuild_metadata_index_law :
      (states : States S) (w : p.backend.State)
      → Holds states (view w)
      → Runs
          (store.rebuild_metadata_index w)
          (λ _ w'. Holds states (view w') × Only owns (view w) (view w'))
