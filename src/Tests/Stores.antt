-- ===== src/Tests/Stores.antt =====
-- The theorems on the store, the indices and decisions, on the sample store.
use marmosa.Common.{
  ◌<◌, ◌≡◌, refl, ap, true, false, ◌||◌, none, some, List, [], ◌∷◌, ◌++◌, arith, str, ◌==◌, nat_eq,
  list_eq, list_beq, length, any, Str,
}
use marmosa.Text.{replace}
use marmosa.Domain.{
  EventData, EventRecord, query_all, AppendCondition, matches, matches_some, type_match, tag_match,
  descending,
}
use marmosa.Exec.{append_condition_failed, fails, blocks}
use marmosa.Exec.Rules.{Runs}
use marmosa.Ports.{is_some}
use marmosa.InMemory.Map
use marmosa.InMemory.Reliable.{in_memory-IsReliable}
use marmosa.EventStore.Indices.{sanitize_name, type_path, tag_path, add_event_to_indices}
use marmosa.EventStore.Indices.Laws.{global_lock, Adds, add_event_to_indices_lem}
use marmosa.EventStore.Read.{read_async, first_position, get_positions_for_query}
use marmosa.EventStore.Read.Positions.{get_positions_for_query_lem}
use marmosa.EventStore.Append.{append_async, to_record}
use marmosa.EventStore.Append.Sequence.{batch_records}
use marmosa.EventStore.Append.Refines.{Appended, Represents-files}
use marmosa.EventStore.Log.{Represents, is_candidate, is_item_candidate, positions_of, candidates}
use marmosa.EventStore.Log.Fetch.{order}
use marmosa.EventStore.Log.Exact.{IsPrecise, limit, matching}
use marmosa.EventStore.Contract.{read_async-exact, append_async-read_all, append_async-waits}
use marmosa.EventStore.Contract.Guard.{append_async-rejects, append_async-accepts, finds}
use marmosa.EventStore.Contract.Gaps.{bare_query, read_async-bare, read_async-unfiltered}
use marmosa.Tests.Samples.{
  platform, lawful, empty_store, empty_store-Represents, empty_store-IsIdle, tag_of, sample, batch,
  log, Store, store, store-Appended, opened, door_one, store_of, crowd, crowd_log, crowd-Appended,
  look_alike,
}

abbrev one_more : List EventData
one_more = sample (str "e4") (str "Opened") [] ∷ []

append_async-read_all_example : Runs (append_async platform 7 batch none empty_store) (λ _ s'.
    Runs (read_async platform query_all none none none s') (λ xs _. xs ≡ batch_records 7 0 batch))
append_async-read_all_example =
    append_async-read_all platform lawful 7 batch [] empty_store empty_store-Represents
      empty_store-IsIdle (omega arith)

abbrev opened_after_none : AppendCondition
opened_after_none = record { fail_if_events_match = opened; after_sequence_position = none }

abbrev opened_after_two : AppendCondition
opened_after_two = record { fail_if_events_match = opened; after_sequence_position = some 2 }

finds_opened : finds opened_after_none log ≡ true
unfolding matches matches_some type_match tag_match batch_records to_record first_position list_beq
finds_opened = refl

append_async-rejects_example :
    (s' : _) × (append_async platform 9 one_more (some opened_after_none) store
      ≡ fails append_condition_failed s')
    × (lawful.reliable.view s' ≡ lawful.reliable.view store)
append_async-rejects_example =
    append_async-rejects platform lawful 9 one_more opened_after_none log store
      store-Appended.represents store-Appended.idle refl finds_opened

opened-IsPrecise : IsPrecise platform opened log
unfolding is_candidate is_item_candidate matches matches_some type_match tag_match batch_records
    to_record type_path tag_path sanitize_name replace list_beq
opened-IsPrecise = (refl, (refl, (refl, tt)))

finds_nothing : finds opened_after_two log ≡ false
unfolding matches matches_some type_match tag_match batch_records to_record first_position list_beq
finds_nothing = refl

length-log : length log ≡ 3
unfolding batch_records
length-log = refl

append_async-accepts_example :
    Runs (append_async platform 9 one_more (some opened_after_two) store) (λ _ s'.
      Appended platform (log ++ batch_records 9 (length log) one_more) (lawful.reliable.view s'))
append_async-accepts_example =
    append_async-accepts platform lawful 9 one_more opened_after_two log store
      store-Appended.represents store-Appended.idle (omega (arith, length-log))
      (λ k h. ground arith) opened-IsPrecise finds_nothing

read_async-exact_example :
    Runs (read_async platform opened (some 0) (some 5) (some (descending ∷ [])) store) (λ xs s'.
      (xs ≡ limit opened (some 5) (order (some (descending ∷ [])) (matching opened (some 0) log)))
      × (lawful.reliable.view s' ≡ lawful.reliable.view store))
read_async-exact_example =
    read_async-exact platform lawful opened (some 0) (some 5) (some (descending ∷ [])) log store
      store-Appended.represents (λ k h. ground arith) opened-IsPrecise

-- The lock of the store is taken.
abbrev held_store : Store
held_store = record store { locks = Map.insert (str "global_store") tt store.locks }

only_held : (l : Str) → (lawful.reliable.view held_store).locked l ≡ (l == global_lock)
unfolding in_memory-IsReliable
only_held l = ground (
  arith,
  ap is_some (Map.get-insert l (str "global_store") tt store.locks),
  store-Appended.idle l,
)

held-Represents : Represents platform log (lawful.reliable.view held_store)
unfolding in_memory-IsReliable
held-Represents = Represents-files platform log _ _ refl store-Appended.represents

append_async-waits_example :
    (t : Store) × (append_async platform 9 one_more (some opened_after_two) held_store ≡ blocks t)
    × (lawful.reliable.view t ≡ lawful.reliable.view held_store)
    × Runs (platform.backend.release_stream_lock global_lock t) (λ _ s1.
      Runs (append_async platform 9 one_more none s1) (λ _ s2.
        Appended platform (log ++ batch_records 9 (length log) one_more) (lawful.reliable.view s2)))
append_async-waits_example =
    append_async-waits platform lawful 9 one_more (some opened_after_two) log held_store
      held-Represents only_held (omega (arith, length-log))

read_async-bare_example :
    ((r : EventRecord) → matches bare_query r ≡ true)
    × Runs (read_async platform bare_query none none none store) (λ xs _. xs ≡ [])
read_async-bare_example =
    read_async-bare platform lawful none none none log store store-Appended.represents

get_positions_for_query_example :
    Runs (get_positions_for_query platform door_one (some 0) store) (λ ps s'.
      (ps ≡ positions_of (candidates platform door_one (some 0) log))
      × (lawful.reliable.view s' ≡ lawful.reliable.view store))
get_positions_for_query_example =
    get_positions_for_query_lem platform log (lawful.reliable.view store) store-Appended.represents
      lawful door_one (some 0) store refl

abbrev fourth : EventRecord
fourth = to_record 9 3 (sample (str "e4") (str "Opened") (tag_of (str "door") (str "3") ∷ []))

add_event_to_indices_example :
    Runs (add_event_to_indices platform (str "Indices") fourth store) (λ _ s'.
      Adds platform
        (λ q.
          q == type_path platform (str "Indices") fourth.event.event_type
          || any (λ t. q == tag_path platform (str "Indices") t) fourth.event.tags)
        fourth.position
        (lawful.reliable.view store)
        (lawful.reliable.view s'))
add_event_to_indices_example =
    add_event_to_indices_lem platform lawful (str "Indices") fourth store
      (λ l h. store-Appended.idle l)

crowded : 10 < length (candidates platform look_alike none crowd_log)
unfolding is_candidate is_item_candidate batch_records to_record type_path sanitize_name replace
    list_beq first_position
crowded = omega arith

read_async-unfiltered_example :
    Runs
      (read_async platform look_alike none none none (store_of crowd))
      (λ xs _. xs ≡ order none (candidates platform look_alike none crowd_log))
read_async-unfiltered_example =
    read_async-unfiltered platform lawful look_alike none none crowd_log (store_of crowd)
      crowd-Appended.represents refl crowded

-- None of the eleven records that this read returns matches its query.
none_match_look_alike : matching look_alike none crowd_log ≡ []
unfolding matches matches_some type_match tag_match batch_records to_record list_beq
none_match_look_alike = refl
