-- ===== src/Tests/Running.antt =====
-- The theorems on the runner of a projection, over the sample store.
use marmosa.Common.{
  ℕ, suc, ◌+◌, ◌≤◌, ◌≡◌, refl, subst, true, false, Option, none, some, List, [], ◌∷◌, ◌++◌, All,
  arith, Str, str, list_beq, ltb, nat_eq, list_eq,
}
use marmosa.Text.{strip_prefix}
use marmosa.Domain.{EventRecord, query_all}
use marmosa.Exec.Rules.{Runs}
use marmosa.Ports.{is_below}
use marmosa.InMemory.{new}
use marmosa.InMemory.Map
use marmosa.InMemory.Reliable.{in_memory-IsReliable}
use marmosa.EventStore.Append.{to_record}
use marmosa.EventStore.Append.Sequence.{batch_records}
use marmosa.Projections.{ProjectionDefinition}
use marmosa.Projections.Contract.{nothing_stored}
use marmosa.Projections.Store.{get_projection_path, get}
use marmosa.Projections.Store.Paths.{IsPlain}
use marmosa.Projections.Runner
use marmosa.Projections.Runner.Fold.{Ascending, furthest, fold_state, relevant}
use marmosa.Projections.Runner.Process.{checkpoint_in}
use marmosa.Projections.Composed.{
  checkpoint_path, process_events, start_of, no_related, HasCheckpoint,
}
use marmosa.Projections.Composed.Events.{process_events-fold, process_events_bounds}
use marmosa.Projections.Composed.Again.{process_events-again, process_events-append}
use marmosa.Tests.Samples.{platform, lawful, log, batch, opened}
use marmosa.Tests.Projecting.{formats, lossless, counters, world, world-HoldsStates, named}

-- The number of events of each type, one more for each related event
abbrev count_up : Option ℕ → List EventRecord → Option ℕ
count_up none [] = some 1
count_up none (r ∷ rs) = some 2
count_up (some n) [] = some (suc n)
count_up (some n) (r ∷ rs) = some (n + 2)

abbrev pub by_type : ProjectionDefinition ℕ
by_type = record {
  projection_name = str "Counters";
  event_types = opened;
  key_selector = λ r. some r.event.event_type;
  apply = λ current r. count_up current [];
  as_related_events = some (record {
    get_related_events_query = λ r. some query_all;
    apply_with_related = λ current r related. count_up current related;
  });
}

key_fits : (name : Str) → IsPlain name → (key : Str) → some name ≡ some key → IsPlain key
key_fits name plain key e = let same : name ≡ key = cc in subst IsPlain same plain

pub keys_fit : All (λ r. (key : Str) → by_type.key_selector r ≡ some key → IsPlain key) log
unfolding batch_records to_record
keys_fit = (key_fits _ refl, (key_fits _ refl, (key_fits _ refl, tt)))

pub apart :
    is_below
      (get_projection_path platform formats counters)
      (checkpoint_path platform formats by_type counters)
    ≡ false
unfolding get_projection_path Runner.checkpoint_path is_below strip_prefix list_beq
apart = refl

no_checkpoint : HasCheckpoint platform formats by_type counters lawful world none
unfolding checkpoint_in new Map.get Map.empty in_memory-IsReliable
no_checkpoint = refl

rising : Ascending 0 log
unfolding batch_records to_record
rising = (omega arith, (omega arith, (omega arith, tt)))

process_events-fold_example :
    Runs (process_events platform formats by_type counters log world) (λ position w'.
      (position ≡ furthest (start_of platform formats by_type counters none).last_position log)
      × Runs (get platform formats counters (str "Opened") w') (λ state _.
        state
        ≡ fold_state by_type no_related none (
            relevant by_type no_related
              (start_of platform formats by_type counters none)
              (str "Opened")
              log)))
process_events-fold_example =
    process_events-fold platform formats by_type counters lawful lossless named apart log none
      nothing_stored world keys_fit no_checkpoint world-HoldsStates (str "Opened") 0 rising refl

process_events_bounds_example :
    Runs (process_events platform formats by_type counters log world) (λ position w'.
      ((start_of platform formats by_type counters none).last_position ≤ position)
      × All (λ r. r.position ≤ position) log)
process_events_bounds_example =
    process_events_bounds platform formats by_type counters lawful lossless named apart log none
      nothing_stored world keys_fit no_checkpoint world-HoldsStates

passes : ltb 0 (furthest (start_of platform formats by_type counters none).last_position log) ≡ true
unfolding furthest batch_records to_record Runner.or_start Runner.checkpoint_of
passes = refl

process_events-again_example :
    Runs (process_events platform formats by_type counters log world) (λ position w1.
      Runs (get platform formats counters (str "Opened") w1) (λ first w2.
        Runs (process_events platform formats by_type counters log w2) (λ position' w3.
          (position' ≡ position)
          × Runs (get platform formats counters (str "Opened") w3) (λ second _. second ≡ first))))
process_events-again_example =
    process_events-again platform formats by_type counters lawful lossless named apart log none
      nothing_stored world (str "Opened") keys_fit no_checkpoint world-HoldsStates passes refl

-- Three more events behind those of the log
abbrev later : List EventRecord
later = batch_records 8 3 batch

later_keys_fit : All (λ r. (key : Str) → by_type.key_selector r ≡ some key → IsPlain key) later
unfolding batch_records to_record
later_keys_fit = (key_fits _ refl, (key_fits _ refl, (key_fits _ refl, tt)))

process_events-append_example :
    Runs (process_events platform formats by_type counters (log ++ later) world) (λ position w1.
      Runs (get platform formats counters (str "Opened") w1) (λ state _.
        Runs (process_events platform formats by_type counters log world) (λ _ w2.
          Runs (process_events platform formats by_type counters later w2) (λ position' w3.
            (position' ≡ position)
            × Runs
                (get platform formats counters (str "Opened") w3)
                (λ state' _. state' ≡ state)))))
process_events-append_example =
    process_events-append platform formats by_type counters lawful lossless named apart log later
      none nothing_stored world (str "Opened") keys_fit later_keys_fit no_checkpoint
      world-HoldsStates passes refl
