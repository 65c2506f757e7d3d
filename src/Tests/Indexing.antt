-- ===== src/Tests/Indexing.antt =====
-- The theorems on the indices and the options of projections, and on histories.
use marmosa.Common.{
  ◌≤◌, ◌≡◌, ◌↔◌, refl, false, not, ◌&&◌, ◌||◌, Option, none, some, List, [], ◌∷◌, ◌++◌, all, arith,
  Str, str, ◌==◌, list_beq, any, contains, if◌then◌else◌, nat_eq, list_eq, Distinct,
}
use marmosa.Domain.{Tag, query_all}
use marmosa.Exec.{is_waiting}
use marmosa.Exec.Rules.{Runs}
use marmosa.Ports.{Codec, IsLossless}
use marmosa.InMemory.{new}
use marmosa.InMemory.Map
use marmosa.InMemory.Reliable.{in_memory-IsReliable}
use marmosa.EventStore.Read.{read_async}
use marmosa.EventStore.Read.Records.{read_async-fetch}
use marmosa.EventStore.Append.{append_async}
use marmosa.EventStore.Append.Refines.{Appended, is_conflict, append_async-refines}
use marmosa.EventStore.Append.Sequence.{batch_records}
use marmosa.Projections.{ProjectionMetadata}
use marmosa.Projections.TagIndex.{
  get_index_path, add_projection, remove_projection, get_projection_keys_by_tag,
  get_projection_keys_by_tags,
}
use marmosa.Projections.TagIndex.Laws.{keys_at}
use marmosa.Projections.TagIndex.Contract.{get_keys-add, get_keys-remove}
use marmosa.Projections.TagIndex.Meet.{contains-get_keys_by_tags}
use marmosa.Projections.MetadataIndex.{Index, save_metadata, get_metadata, get_updated_since}
use marmosa.Projections.MetadataIndex.Laws.{needs_escape, IsBorrowing, index_at, index_in}
use marmosa.Projections.MetadataIndex.Since.{recent, get_updated_since-save_metadata}
use marmosa.Projections.MetadataIndex.Contract.{get-save_metadata, get-save_metadata_escaped}
use marmosa.Projections.Options.{
  from_millis, default_options, validate_projections, validate_projections_bounds,
}
use marmosa.History.{
  appended, has_read, History, beginning, next, IsSound, History-IsSound, append_async-ends,
}
use marmosa.Tests.Samples.{
  Doc, metadata_doc, keys_doc, platform, lawful, empty_store, empty_store-IsIdle,
  empty_store-Represents, tag_of, batch, store, store-Appended,
}

abbrev keys_from : Doc → Option (List Str)
keys_from (keys_doc ks) = some ks
keys_from _ = none

abbrev keys_json : Codec Doc (List Str)
keys_json = record { to_vec = λ ks. some (keys_doc ks); from_slice = keys_from }

abbrev keys_lossless : IsLossless keys_json
keys_lossless = record { round_trip = λ ks. (keys_doc ks, refl, refl) }

abbrev red : Tag
red = tag_of (str "Color") (str "Red")

abbrev shouted : Tag
shouted = tag_of (str "COLOR") (str "red")

get_keys-add_example :
    Runs (get_projection_keys_by_tag platform keys_json (str "P") shouted store) (λ before w1.
      Runs (add_projection platform keys_json (str "P") red (str "k") w1) (λ _ w2.
        Runs (get_projection_keys_by_tag platform keys_json (str "P") shouted w2) (λ after _.
          contains (str "k") after ≡ (
            contains (str "k") before
            || (get_index_path (str "P") shouted == get_index_path (str "P") red
                && str "k" == str "k")))))
get_keys-add_example =
    get_keys-add platform keys_json lawful.reliable keys_lossless (str "P") red shouted (str "k")
      (str "k") store (store-Appended.idle _)

get_keys-remove_example :
    Runs (get_projection_keys_by_tag platform keys_json (str "P") red store) (λ before w1.
      Runs (remove_projection platform keys_json (str "P") red (str "k") w1) (λ _ w2.
        Runs (get_projection_keys_by_tag platform keys_json (str "P") red w2) (λ after _.
          contains (str "k") after ≡ (
            contains (str "k") before
            && not (
                get_index_path (str "P") red == get_index_path (str "P") red
                && str "k" == str "k")))))
get_keys-remove_example =
    get_keys-remove platform keys_json lawful.reliable keys_lossless (str "P") red red (str "k")
      (str "k") store (store-Appended.idle _)

contains-get_keys_by_tags_example :
    Runs
      (get_projection_keys_by_tags platform keys_json (str "P") (red ∷ shouted ∷ []) store)
      (λ keys _.
        contains (str "k") keys
        ≡ all
            (λ tag. contains (str "k") (
              keys_at platform keys_json
                (lawful.reliable.view store)
                (get_index_path (str "P") tag)))
            (red ∷ shouted ∷ []))
contains-get_keys_by_tags_example =
    contains-get_keys_by_tags platform keys_json lawful.reliable keys_lossless (str "P") (str "k")
      (red ∷ shouted ∷ []) store

-- A reader of borrowed keys
abbrev borrowed_from : Doc → Option Index
borrowed_from (metadata_doc m) = if any needs_escape (Map.keys m) then none else some m
borrowed_from _ = none

abbrev index_json : Codec Doc Index
index_json = record { to_vec = λ m. some (metadata_doc m); from_slice = borrowed_from }

abbrev borrowing : IsBorrowing index_json
borrowing = record { read_back = λ m. (metadata_doc m, refl, refl) }

abbrev fresh : ProjectionMetadata
fresh = record { created_at = 1; last_updated_at = 2; version = 1; size_in_bytes = 9 }

clean :
    any needs_escape (
      Map.keys (
        Map.insert
          (str "k")
          fresh
          (index_at platform index_json (lawful.reliable.view empty_store) (str "P"))))
    ≡ false
unfolding index_in new Map.get Map.empty Map.insert Map.keys in_memory-IsReliable
clean = refl

get-save_metadata_example :
    Runs (save_metadata platform index_json (str "P") (str "k") fresh empty_store) (λ _ w'.
      Runs
        (get_metadata platform index_json (str "P") (str "k") w')
        (λ found _. found ≡ some fresh))
unfolding list_beq
get-save_metadata_example =
    get-save_metadata platform index_json lawful.reliable borrowing (str "P") (str "k") (str "k")
      fresh empty_store (empty_store-IsIdle _) clean

get-save_metadata_escaped_example :
    Runs (save_metadata platform index_json (str "P") (str "a\"b") fresh store) (λ _ w'.
      Runs (get_metadata platform index_json (str "P") (str "k") w') (λ found _. found ≡ none))
get-save_metadata_escaped_example =
    get-save_metadata_escaped platform index_json lawful.reliable borrowing (str "P") (str "a\"b")
      (str "k") fresh store (store-Appended.idle _) refl

validate_projections_bounds_example : (validate_projections default_options ≡ []) ↔ (
    ((from_millis 100 ≤ default_options.polling_interval)
      × (default_options.polling_interval ≤ from_millis 3600000))
    × ((1 ≤ default_options.batch_size) × (default_options.batch_size ≤ 100000))
    × ((1 ≤ default_options.max_concurrent_rebuilds)
        × (default_options.max_concurrent_rebuilds ≤ 64))
    × ((100 ≤ default_options.rebuild_flush_interval)
        × (default_options.rebuild_flush_interval ≤ 1000000))
    × ((100 ≤ default_options.rebuild_batch_size) × (default_options.rebuild_batch_size ≤ 1000000)))
validate_projections_bounds_example = validate_projections_bounds default_options

get_updated_since-save_metadata_example :
    Runs (save_metadata platform index_json (str "P") (str "k") fresh empty_store) (λ _ w1.
      Runs (get_updated_since platform index_json (str "P") 2 w1) (λ found _.
        Distinct (Map.entry_keys found)
        × ((k : Str)
            → Map.lookup k found
              ≡ recent 2 (
                  if k == str "k"
                  then some fresh
                  else Map.get k (
                      index_at platform index_json (lawful.reliable.view empty_store) (str "P"))))))
get_updated_since-save_metadata_example =
    get_updated_since-save_metadata platform index_json lawful.reliable borrowing (str "P")
      (str "k") fresh 2 empty_store (empty_store-IsIdle _) clean

unconditional : is_conflict platform none [] ≡ false
unfolding is_conflict
unconditional = refl

-- A store that is empty at first, a batch, and a read
abbrev opening : IsSound platform lawful 0 (lawful.reliable.view empty_store)
opening = record {
  log = [];
  represents = empty_store-Represents;
  idle = empty_store-IsIdle;
  few = omega arith;
}

abbrev first_batch :
    Runs
      (append_async platform 7 batch none empty_store)
      (λ _ s'. Appended platform ([] ++ batch_records 7 0 batch) (lawful.reliable.view s'))
first_batch =
    append_async-refines platform lawful 7 batch none [] empty_store empty_store-Represents
      empty_store-IsIdle (omega arith) unconditional

abbrev then_read :
    Runs
      (read_async platform query_all none none none first_batch.1)
      (λ _ s'. lawful.reliable.view s' ≡ lawful.reliable.view first_batch.1)
then_read =
    let (xs, s', e, (same, v)) =
      read_async-fetch platform lawful ([] ++ batch_records 7 0 batch)
        (lawful.reliable.view first_batch.1) first_batch.3.represents query_all none none none
        first_batch.1 refl in
    (xs, s', e, v)

abbrev day : History platform empty_store 3 then_read.1
day =
    next (next beginning (appended 7 batch none first_batch.2))
      (has_read query_all none none none then_read.0 then_read.2)

History-IsSound_example : IsSound platform lawful 3 (lawful.reliable.view then_read.1)
History-IsSound_example = History-IsSound platform lawful opening day (omega arith)

append_async-ends_example : is_waiting (append_async platform 9 batch none then_read.1) ≡ false
append_async-ends_example = append_async-ends platform lawful 9 batch none opening day (omega arith)
