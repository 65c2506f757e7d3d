-- ===== src/Tests/Samples.antt =====
-- A platform with documents for file contents, and a store of three events.
use marmosa.Common.{
  ℕ, ◌<◌, length, replicate, ◌+◌, refl, sym, subst, ap, ◌&&◌, Option, none, some, List, [], ◌∷◌,
  map, arith, Str, str, leb, if◌then◌else◌,
}
use marmosa.Text.{u64_mod}
use marmosa.Domain.{Tag, EventData, EventRecord, Query}
use marmosa.Exec.{Outcome, returns, fails, blocks}
use marmosa.Ports.{Platform, IsLawful}
use marmosa.InMemory.{InMemoryStorage, in_memory, new}
use marmosa.InMemory.Map
use marmosa.InMemory.Map.{BTreeMap}
use marmosa.Projections.{ProjectionWrapper, ProjectionCheckpoint, ProjectionMetadata}
use marmosa.InMemory.Reliable.{in_memory-IsReliable}
use marmosa.EventStore.Append.{append_async}
use marmosa.EventStore.Append.Sequence.{batch_records}
use marmosa.EventStore.Append.Refines.{IsIdle, Appended, is_conflict, append_async-refines}
use marmosa.EventStore.Indices.{read_positions}
use marmosa.EventStore.Indices.Laws.{index_at}
use marmosa.EventStore.Log.{Represents, record_at, encoded}

-- The content of a file.
pub data Doc : Type 0 where
  raw : Str → Doc
  event_doc : EventRecord → Doc
  positions_doc : List ℕ → Doc
  wrapper_doc : ProjectionWrapper ℕ → Doc
  checkpoint_doc : ProjectionCheckpoint → Doc
  metadata_doc : BTreeMap ProjectionMetadata → Doc
  keys_doc : List Str → Doc

abbrev event_of : Doc → Option EventRecord
event_of (event_doc r) = some r
event_of _ = none

abbrev positions_from : Doc → Option (List ℕ)
positions_from (positions_doc ps) = some ps
positions_from _ = none

abbrev pub platform : Platform
platform = record {
  Bytes = Doc;
  empty_file = raw [];
  size = λ d. 1;
  event_json = record { to_vec = λ r. some (event_doc r); from_slice = event_of };
  positions_json = record { to_vec = λ ps. some (positions_doc ps); from_slice = positions_from };
  to_lowercase = map (λ c. if leb b'A' c && leb c b'Z' then c + 32 else c);
  backend = in_memory Doc;
}

abbrev pub lawful : IsLawful platform
lawful = record {
  reliable = in_memory-IsReliable;
  events = record { round_trip = λ r. (event_doc r, refl, refl) };
  positions = record { round_trip = λ ps. (positions_doc ps, refl, refl) };
}

abbrev pub Store : Type 0
Store = InMemoryStorage Doc

abbrev pub empty_store : Store
empty_store = new

pub empty_store-Represents : Represents platform [] (lawful.reliable.view empty_store)
unfolding new Map.get Map.empty record_at index_at read_positions encoded in_memory-IsReliable
empty_store-Represents = record {
  numbered = tt;
  fits = omega arith;
  events = λ q h. refl;
  indices = λ q k h. refl;
}

pub empty_store-IsIdle : IsIdle (lawful.reliable.view empty_store)
unfolding new Map.get Map.empty in_memory-IsReliable
empty_store-IsIdle = λ l. refl

abbrev pub tag_of : Str → Str → Tag
tag_of key value = record { key = key; value = value }

abbrev pub sample : Str → Str → List Tag → EventData
sample event_id event_type tags = record {
  event_id = event_id;
  event = record { event_type = event_type; content = str "{}"; tags = tags };
  metadata = none;
}

abbrev pub batch : List EventData
batch =
    sample (str "e1") (str "Opened") (tag_of (str "door") (str "1") ∷ [])
    ∷ sample (str "e2") (str "Closed") (tag_of (str "door") (str "1") ∷ [])
    ∷ sample (str "e3") (str "Opened") (tag_of (str "door") (str "2") ∷ [])
    ∷ []

abbrev final : {S A : Type 0} → Outcome S A → S → S
final (returns a s) d = s
final (fails e s) d = s
final (blocks s) d = s

-- The store after one batch into the empty one.
abbrev pub store_of : List EventData → Store
store_of events = final (append_async platform 7 events none empty_store) empty_store

pub store_of-Appended :
    (events : List EventData)
    → length events < u64_mod
    → Appended platform (batch_records 7 0 events) (lawful.reliable.view (store_of events))
unfolding is_conflict
store_of-Appended events room =
    let (u, s, e, done) =
      append_async-refines platform lawful 7 events none [] empty_store empty_store-Represents
        empty_store-IsIdle (omega (arith, room)) refl in
    subst (λ x. Appended platform (batch_records 7 0 events) (lawful.reliable.view x))
      (sym (ap (λ o. final o empty_store) e)) done

abbrev pub log : List EventRecord
log = batch_records 7 0 batch

abbrev pub store : Store
store = store_of batch

pub store-Appended : Appended platform log (lawful.reliable.view store)
store-Appended = store_of-Appended batch (omega arith)

-- Eleven events of one type, and a query for another type with the same index file.
abbrev pub crowd : List EventData
crowd = replicate 11 (sample (str "e") (str "a*b") [])

abbrev pub crowd_log : List EventRecord
crowd_log = batch_records 7 0 crowd

pub crowd-Appended : Appended platform crowd_log (lawful.reliable.view (store_of crowd))
crowd-Appended = store_of-Appended crowd (omega arith)

abbrev pub look_alike : Query
look_alike = record { items = record { event_types = str "a:b" ∷ []; tags = [] } ∷ [] }

abbrev pub opened : Query
opened = record { items = record { event_types = str "Opened" ∷ []; tags = [] } ∷ [] }

abbrev pub door_one : Query
door_one = record {
  items = record { event_types = []; tags = tag_of (str "door") (str "1") ∷ [] } ∷ [];
}
