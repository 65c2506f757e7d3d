-- ===== src/EventStore/Log.antt =====
-- The abstract view of the store: one list of records, numbered from 0, and what the files of a
-- storage have to hold to represent it.
pub mod Positions
pub mod Files
pub mod Fetch
pub mod Exact
use marmosa.Common.{
  ℕ, zero, suc, ◌+◌, ◌≤◌, ◌<◌, ◌≡◌, Bool, true, false, ◌&&◌, ◌||◌, Option, none, some, List, [],
  ◌∷◌, ◌++◌, Str, str, ◌==◌, nat_eq, list_eq, leb, length, any, all, not, is_empty, retain,
  contains,
}
use marmosa.Text.{u64_mod, event_file, strip_prefix}
use marmosa.Domain.{Tag, EventRecord, QueryItem, Query}
use marmosa.Ports.{Platform, Codec, Disk, is_child, is_some}
use marmosa.EventStore.Indices.{type_path, tag_path}
use marmosa.EventStore.Indices.Laws.{index_at, IndexLocksFree, global_lock}
use marmosa.EventStore.Read.{first_position}
use marmosa.EventStore.Append.{to_record}

-- The record at `k` has the position `n + k`.
abbrev pub NumberedFrom : ℕ → List EventRecord → Type 0
NumberedFrom n [] = Unit
NumberedFrom n (r ∷ rs) = (r.position ≡ n) × NumberedFrom (suc n) rs

-- The record of a log whose event file has a path.
unfoldable pub record_at : Str → List EventRecord → Option EventRecord
record_at q [] = none
record_at q (r ∷ rs) = elim (q == event_file (str "Events") r.position) [
  | true ↦ some r
  | false ↦ record_at q rs
]

-- The file at a path is in an index of the record.
abbrev pub indexes : (p : Platform) → Str → EventRecord → Bool
indexes p q r =
    q == type_path p (str "Indices") r.event.event_type
    || any (λ t. q == tag_path p (str "Indices") t) r.event.tags

abbrev pub indexes_type : (p : Platform) → Str → EventRecord → Bool
indexes_type p t r = indexes p (type_path p (str "Indices") t) r

abbrev pub indexes_tag : (p : Platform) → Tag → EventRecord → Bool
indexes_tag p t r = indexes p (tag_path p (str "Indices") t) r

unfoldable pub encoded : (p : Platform) → Option EventRecord → Option p.Bytes
encoded p none = none
encoded p (some r) = p.event_json.to_vec r

-- The file lies in the directory of the indices.
abbrev pub IsIndexFile : Str → Type 0
IsIndexFile q = is_some (strip_prefix (str "Indices/") q) ≡ true

-- A storage represents a log: the files in `Events` are the records, and each index file has the
-- positions of the records that it indexes.
pub record Represents (p : Platform) (log : List EventRecord) (d : Disk p.Bytes) : Type 0 where
  pub numbered : NumberedFrom 0 log
  pub fits : length log < u64_mod
  pub events :
      (q : Str) → is_child (str "Events/") q ≡ true → d.file q ≡ encoded p (record_at q log)
  pub indices :
      (q : Str) (k : ℕ)
      → IsIndexFile q
      → contains k (index_at p d q) ≡ any (λ r. indexes p q r && r.position == k) log

-- The records that the index files yield for one item of a query. An item with neither types nor
-- tags yields none; names that share an index file are not told apart.
unfoldable pub is_item_candidate : (p : Platform) → QueryItem → EventRecord → Bool
is_item_candidate p item r =
    not (is_empty item.event_types && is_empty item.tags)
    && (is_empty item.event_types || any (λ t. indexes_type p t r) item.event_types)
    && (is_empty item.tags || all (λ t. indexes_tag p t r) item.tags)

unfoldable pub is_candidate : (p : Platform) → Query → EventRecord → Bool
is_candidate p query r =
    is_empty query.items || any (λ item. is_item_candidate p item r) query.items

-- The candidates behind a start position.
abbrev pub candidates : (p : Platform) → Query → Option ℕ → List EventRecord → List EventRecord
candidates p query start log =
    retain (λ r. is_candidate p query r && leb (first_position start) r.position) log

abbrev pub positions_of : List EventRecord → List ℕ
positions_of [] = []
positions_of (r ∷ rs) = r.position ∷ positions_of rs
