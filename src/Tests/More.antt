-- ===== src/Tests/More.antt =====
-- The theorems on the ledger, on event files, on deletion and on the extensions, at inputs of their
-- own.
use marmosa.Common.{
  ℕ, suc, ◌+◌, ◌%◌, ◌≡◌, refl, true, Option, none, some, [], ◌∷◌, arith, Str, str, nat_eq, list_eq,
  list_beq, last,
}
use marmosa.Text.{u64_mod, replace}
use marmosa.Domain.{EventRecord, matches, matches_some, type_match, tag_match}
use marmosa.Exec.Rules.{Runs}
use marmosa.Ports.{Codec, IsLossless}
use marmosa.InMemory.Map
use marmosa.EventStore.Indices.{sanitize_name, type_path, tag_path}
use marmosa.EventStore.Append.{to_record}
use marmosa.EventStore.Append.Sequence.{batch_records}
use marmosa.EventStore.Log.{Represents, is_candidate, is_item_candidate}
use marmosa.EventStore.Log.Exact.{IsPrecise, matching}
use marmosa.Maintain.Ledger.{
  LedgerData, get_last_sequence_position, get_next_sequence_position, update_sequence_position,
}
use marmosa.Maintain.Ledger.Laws.{update-get_next}
use marmosa.Maintain.Files.{pos, write_event, read_event}
use marmosa.Maintain.Files.Laws.{write_event-read_event}
use marmosa.Maintain.Admin.{delete_store}
use marmosa.Maintain.Admin.Empty.{delete_store-Represents}
use marmosa.Extensions.{read_last, group_events}
use marmosa.Extensions.Last.{read_last-last}
use marmosa.Extensions.Grouped.{apply_own, group_events-own}
use marmosa.Tests.Samples.{
  Doc, event_doc, positions_doc, platform, lawful, store, store-Appended, log, sample, opened,
}

-- A ledger as a list of two numbers.
abbrev ledger_of : Doc → Option LedgerData
ledger_of (positions_doc (a ∷ b ∷ rest)) =
    some (record { last_sequence_position = a; event_count = b })
ledger_of _ = none

abbrev ledger_json : Codec Doc LedgerData
ledger_json = record {
  to_vec = λ l. some (positions_doc (l.last_sequence_position ∷ l.event_count ∷ []));
  from_slice = ledger_of;
}

ledger_json-IsLossless : IsLossless ledger_json
ledger_json-IsLossless = record {
  round_trip = λ l. (positions_doc (l.last_sequence_position ∷ l.event_count ∷ []), refl, refl);
}

update-get_next_example :
    Runs (update_sequence_position platform ledger_json (str "shop") 41 store) (λ _ s'.
      Runs (get_last_sequence_position platform ledger_json (str "shop") s') (λ m _. m ≡ 41)
      × Runs
          (get_next_sequence_position platform ledger_json (str "shop") s')
          (λ m _. m ≡ (41 + 1) % u64_mod))
update-get_next_example =
    update-get_next platform lawful ledger_json ledger_json-IsLossless (λ l d h. refl) (str "shop")
      41 store

abbrev seventh : EventRecord
seventh = to_record 9 7 (sample (str "e7") (str "Opened") [])

seventh_position : seventh.position ≡ 7
unfolding to_record
seventh_position = refl

write_event-read_event_example :
    Runs (write_event platform (str "Files") seventh true store) (λ _ s'.
      Runs (read_event platform (str "Files") (pos seventh.position) s') (λ x _. x ≡ seventh))
write_event-read_event_example =
    write_event-read_event platform lawful (str "Files") seventh (event_doc seventh) store refl
      (omega (arith, seventh_position)) (omega (arith, seventh_position)) refl (omega arith)

delete_store-Represents_example : Runs (delete_store platform store) (λ _ s'.
    Represents platform [] (lawful.reliable.view s')
    × ((lawful.reliable.view s').locked ≡ (lawful.reliable.view store).locked))
delete_store-Represents_example = delete_store-Represents platform lawful store

opened-exact : IsPrecise platform opened log
unfolding is_candidate is_item_candidate matches matches_some type_match tag_match batch_records
    to_record type_path tag_path sanitize_name replace list_beq
opened-exact = (refl, (refl, (refl, tt)))

read_last-last_example : Runs (read_last platform opened store) (λ r s'.
    (r ≡ last (matching opened none log)) × (lawful.reliable.view s' ≡ lawful.reliable.view store))
read_last-last_example =
    read_last-last platform lawful opened log store store-Appended.represents opened-exact

-- The number of events of each type.
abbrev by_type : EventRecord → Option Str
by_type r = some r.event.event_type

abbrev count : Option ℕ → EventRecord → Option ℕ
count none r = some 1
count (some n) r = some (suc n)

group_events-own_example :
    Map.get (str "Opened") (group_events by_type count log Map.empty)
    ≡ apply_own by_type count (str "Opened") log (Map.get (str "Opened") Map.empty)
group_events-own_example = group_events-own by_type count (str "Opened") log Map.empty
