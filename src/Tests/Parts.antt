-- ===== src/Tests/Parts.antt =====
-- The theorems on decisions, file names and the storage in memory, at inputs of their own.
use marmosa.Common.{
  ℕ, suc, ◌≡◌, ◌≢◌, refl, ◌&&◌, some, List, [], ◌∷◌, ◌++◌, arith, Str, str, nat_eq, list_eq,
  list_beq, if◌then◌else◌, leb, ltb, last, length, contains, Distinct,
}
use marmosa.Text.{event_file, position_of_file, replace}
use marmosa.Text.FileName.{position_of_file-event_file}
use marmosa.Domain.{EventData, matches, matches_some, type_match, tag_match}
use marmosa.Exec.{append_condition_failed, fails, returns, Exec}
use marmosa.Exec.Rules.{Runs}
use marmosa.Ports.{remove_tree, is_child, is_some}
use marmosa.InMemory.{read_dir, delete_dir_all}
use marmosa.InMemory.Reliable.{view, read_dir_lem, delete_dir_all_lem}
use marmosa.EventStore.Indices.{sanitize_name, type_path, tag_path}
use marmosa.EventStore.Read.{first_position}
use marmosa.EventStore.Append.{to_record}
use marmosa.EventStore.Append.Sequence.{batch_records}
use marmosa.EventStore.Append.Refines.{Appended}
use marmosa.EventStore.Log.{is_candidate, is_item_candidate}
use marmosa.EventStore.Log.Exact.{IsPrecise}
use marmosa.Decision.{Decision, decided, refused}
use marmosa.Decision.Build.{apply_all}
use marmosa.Decision.Execute.{execute_async, execute_decision_async}
use marmosa.Decision.Retry.{
  conflict, no_conflict, execute_decision_async-succeeds, execute_decision_async-gives_up,
}
use marmosa.Decision.Single.{state_after, execute_async-decides}
use marmosa.Tests.Samples.{platform, lawful, log, store, store-Appended, sample, opened}

-- It counts the doors that were opened, and opens one more unless there are three.
abbrev open_door : Decision ℕ
open_door = record {
  projection = record { initial_state = 0; query = opened; apply = λ n e. suc n };
  process = λ n.
      if leb 3 n then refused (str "full") else decided (sample (str "e4") (str "Opened") [] ∷ []);
}

abbrev next_door : List EventData
next_door = sample (str "e4") (str "Opened") [] ∷ []

opened-IsPrecise : IsPrecise platform opened log
unfolding is_candidate is_item_candidate matches matches_some type_match tag_match batch_records
    to_record type_path tag_path sanitize_name replace list_beq
opened-IsPrecise = (refl, (refl, (refl, tt)))

two_opened : open_door.process (state_after open_door.projection log) ≡ decided next_door
unfolding matches matches_some type_match tag_match batch_records to_record list_beq first_position
    apply_all
two_opened = refl

length-log : length log ≡ 3
unfolding batch_records
length-log = refl

execute_async-decides_example :
    Runs (execute_async platform open_door 3 (λ left. 20) store) (λ done s'.
      (done ≡ next_door)
      × Appended platform
          (log ++ batch_records 20 (length log) next_door)
          (lawful.reliable.view s'))
execute_async-decides_example =
    execute_async-decides platform lawful log open_door 3 (λ left. 20) next_door store
      store-Appended.represents store-Appended.idle opened-IsPrecise two_opened
      (omega (arith, length-log))

-- An operation that conflicts until its state is 2.
abbrev stubborn : Exec ℕ ℕ
stubborn n = if ltb n 2 then fails append_condition_failed (suc n) else returns 10 5

execute_decision_async-succeeds_example : execute_decision_async 3 stubborn 0 ≡ returns 10 5
execute_decision_async-succeeds_example =
    execute_decision_async-succeeds stubborn 2 3 0 2 5 10
      (conflict refl (conflict refl no_conflict)) refl (omega arith) (omega arith)

execute_decision_async-gives_up_example :
    execute_decision_async 2 stubborn 0 ≡ fails append_condition_failed 2
execute_decision_async-gives_up_example =
    execute_decision_async-gives_up stubborn 2 0 2 (conflict refl (conflict refl no_conflict))
      (omega arith) (omega arith)

position_of_file-event_file_example :
    position_of_file (event_file (str "Events") 12345678901) ≡ some 12345678901
position_of_file-event_file_example =
    position_of_file-event_file (str "Events") 12345678901 (omega arith)

plain_events : last (str "Events") ≢ some b'/'
plain_events e = cc

read_dir_example : Runs (read_dir (str "Events") store) (λ names s'.
    (view s' ≡ view store)
    × Distinct names
    × ((q : Str)
        → contains q names
          ≡ (is_child (str "Events" ++ str "/") q && is_some ((view store).file q))))
read_dir_example = read_dir_lem (str "Events") store plain_events

delete_dir_all_example :
    Runs
      (delete_dir_all (str "Events") store)
      (λ _ s'. view s' ≡ remove_tree (str "Events") (view store))
delete_dir_all_example = delete_dir_all_lem (str "Events") store plain_events
