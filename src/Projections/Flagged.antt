-- ===== src/Projections/Flagged.antt =====
-- The storage with the flag `skip_index_writes` of a projection store beside it. The operations of
-- the storage leave the flag alone.
use marmosa.Common.{Bool, List, ◌≡◌}
use marmosa.Exec.{Error, Outcome, returns, fails, blocks, Exec}
use marmosa.Exec.Rules.{Runs}
use marmosa.Domain.{EventRecord}
use marmosa.EventStore.Indices.{read_positions, type_path, tag_path, sanitize_name}
use marmosa.EventStore.Indices.Laws.{index_at}
use marmosa.EventStore.Log.{Represents, encoded}
use marmosa.Ports.{Disk, Backend, Platform, IsReliable, IsLawful}

pub record Flagged (S : Type 0) : Type 0 where
  pub storage : S
  pub skip_index_writes : Bool

module _ {S A : Type 0} where
  abbrev pub beside : Bool → Outcome S A → Outcome (Flagged S) A
  beside b (returns a s) = returns a (record { storage = s; skip_index_writes = b })
  beside b (fails e s) = fails e (record { storage = s; skip_index_writes = b })
  beside b (blocks s) = blocks (record { storage = s; skip_index_writes = b })

  abbrev pub on_storage : Exec S A → Exec (Flagged S) A
  on_storage m w = beside w.skip_index_writes (m w.storage)

  pub Runs-on_storage :
      (m : Exec S A) (w : Flagged S) (P : A → S → Type 0)
      → Runs (m w.storage) P
      → Runs (on_storage m w) (λ a w'. P a w'.storage)
  Runs-on_storage m w P (a, s, e, h) =
      (a, record { storage = s; skip_index_writes = w.skip_index_writes }, rw e, h)

  pub Fails-on_storage :
      {e : Error} (m : Exec S A) (w : Flagged S) (P : S → Type 0)
      → (s : S) × (m w.storage ≡ fails e s) × P s
      → (w' : Flagged S) × (on_storage m w ≡ fails e w') × P w'.storage
  Fails-on_storage m w P (s, e, h) =
      (record { storage = s; skip_index_writes = w.skip_index_writes }, rw e, h)

module _ {Bytes : Type 0} where
  abbrev pub flagged_backend : Backend Bytes → Backend Bytes
  flagged_backend b = record {
    State = Flagged b.State;
    create_dir_all = λ p. on_storage (b.create_dir_all p);
    read_file = λ p. on_storage (b.read_file p);
    write_file = λ p d. on_storage (b.write_file p d);
    delete_file = λ p. on_storage (b.delete_file p);
    delete_dir_all = λ p. on_storage (b.delete_dir_all p);
    read_dir = λ p. on_storage (b.read_dir p);
    file_exists = λ p. on_storage (b.file_exists p);
    acquire_stream_lock = λ l. on_storage (b.acquire_stream_lock l);
    release_stream_lock = λ l. on_storage (b.release_stream_lock l);
  }

  abbrev pub flagged_reliable : {b : Backend Bytes} → IsReliable b → IsReliable (flagged_backend b)
  flagged_reliable {b} law = record {
    view = λ w. law.view w.storage;
    create_dir_all_law =
        λ p w. Runs-on_storage (b.create_dir_all p) w _ (law.create_dir_all_law p w.storage);
    read_file_hit =
        λ p w d h. Runs-on_storage (b.read_file p) w _ (law.read_file_hit p w.storage d h);
    read_file_miss =
        λ p w h. Fails-on_storage (b.read_file p) w _ (law.read_file_miss p w.storage h);
    write_file_law =
        λ p d w. Runs-on_storage (b.write_file p d) w _ (law.write_file_law p d w.storage);
    delete_file_hit =
        λ p w d h. Runs-on_storage (b.delete_file p) w _ (law.delete_file_hit p w.storage d h);
    delete_file_miss =
        λ p w h. Fails-on_storage (b.delete_file p) w _ (law.delete_file_miss p w.storage h);
    delete_dir_all_law =
        λ p w h. Runs-on_storage (b.delete_dir_all p) w _ (law.delete_dir_all_law p w.storage h);
    read_dir_law = λ p w h. Runs-on_storage (b.read_dir p) w _ (law.read_dir_law p w.storage h);
    file_exists_law =
        λ p w. Runs-on_storage (b.file_exists p) w _ (law.file_exists_law p w.storage);
    acquire_free =
        λ l w h. Runs-on_storage (b.acquire_stream_lock l) w _ (law.acquire_free l w.storage h);
    acquire_held = λ l w h.
        let (t, e, v) = law.acquire_held l w.storage h in
        (record { storage = t; skip_index_writes = w.skip_index_writes }, rw e, v);
    release_law =
        λ l w. Runs-on_storage (b.release_stream_lock l) w _ (law.release_law l w.storage);
  }

-- `p` with the flag beside its storage
abbrev pub flagged : Platform → Platform
flagged p = record {
  Bytes = p.Bytes;
  empty_file = p.empty_file;
  size = p.size;
  event_json = p.event_json;
  positions_json = p.positions_json;
  to_lowercase = p.to_lowercase;
  backend = flagged_backend p.backend;
}

abbrev pub flagged_lawful : {p : Platform} → IsLawful p → IsLawful (flagged p)
flagged_lawful {p} law = record {
  reliable = flagged_reliable law.reliable;
  events = law.events;
  positions = law.positions;
}

-- The flag does not matter for what a storage represents.
pub Represents-flagged :
    (p : Platform) (log : List EventRecord) (d : Disk p.Bytes)
    → Represents p log d
    → Represents (flagged p) log d
unfolding encoded index_at read_positions type_path tag_path sanitize_name
Represents-flagged p log d rep = record {
  numbered = rep.numbered;
  fits = rep.fits;
  events = rep.events;
  indices = rep.indices;
}
