-- ===== src/Tests/Rebuilding.antt =====
-- The theorems on rebuilding: one projection over the sample store, and several tasks.
use marmosa.Common.{
  ◌≡◌, refl, subst, false, none, some, All, All-of_forall, str, list_beq, nat_eq, list_eq, ℕ, suc,
  Str, List, [], ◌∷◌,
}
use marmosa.Domain.{query_all, matches, matches_some, type_match, tag_match}
use marmosa.Exec.{Error, io_error, returns, fails}
use marmosa.Exec.Rules.{Runs}
use marmosa.EventStore.Log.{Represents}
use marmosa.EventStore.Log.Exact.{IsPrecise}
use marmosa.EventStore.Contract.{query_all-IsPrecise}
use marmosa.EventStore.Append.{to_record}
use marmosa.EventStore.Append.Sequence.{batch_records}
use marmosa.Projections.{ProjectionCheckpoint}
use marmosa.Projections.Flagged.{Flagged, flagged, Represents-flagged}
use marmosa.Projections.Store.{get}
use marmosa.Projections.Runner.Fold.{furthest, fold_state, next_state}
use marmosa.Projections.Runner.Rebuild.{related_in_log, AsksPrecisely}
use marmosa.Projections.Composed.Rebuilt.{rebuild-fold}
use marmosa.Projections.Composed.{rebuild, events_of, view}
use marmosa.Projections.Rebuilder.{RebuildTask}
use marmosa.Tests.Samples.{platform, lawful, store, store-Appended, log}
use marmosa.Tests.Projecting.{formats, lossless, counters, named}
use marmosa.Tests.Running.{by_type, keys_fit, apart}

-- The sample store with the flag
abbrev full : Flagged platform.backend.State
full = record { storage = store; skip_index_writes = false }

full-Represents :
    Represents (flagged platform) log (view platform formats by_type counters lawful full)
full-Represents =
    Represents-flagged platform log (lawful.reliable.view store) store-Appended.represents

precise : All (AsksPrecisely (flagged platform) log by_type) log
precise =
    All-of_forall
      (λ r query e.
        let same : query_all ≡ query = cc in
        subst (λ q. IsPrecise (flagged platform) q log) same
          (query_all-IsPrecise (flagged platform) log))
      log

-- Each of the two openings has related events.
opened_twice :
    fold_state by_type
      (related_in_log (flagged platform) log)
      none
      (events_of by_type (str "Opened") log)
    ≡ some 4
unfolding fold_state next_state batch_records to_record matches matches_some type_match tag_match
    list_beq
opened_twice = refl

rebuild-fold_example : Runs (rebuild platform formats by_type counters full) (λ position w'.
    (position ≡ furthest 0 log)
    × Represents (flagged platform) log (view platform formats by_type counters lawful w')
    × Runs (get platform formats counters (str "Opened") w') (λ state _.
      state
      ≡ fold_state by_type
          (related_in_log (flagged platform) log)
          none
          (events_of by_type (str "Opened") log)))
rebuild-fold_example =
    rebuild-fold platform formats by_type counters log lawful lossless named apart full
      (str "Opened") keys_fit precise (store-Appended.idle _) full-Represents refl

abbrev kept : ProjectionCheckpoint
kept = record {
  projection_name = str "A";
  last_position = 2;
  last_updated = 5;
  total_events_processed = 3;
}

-- A task that has a checkpoint, one that rebuilds, and one that fails
abbrev tasks : List (RebuildTask ℕ)
tasks =
    record {
      name = str "A";
      rebuild = λ w. returns 3 (suc w);
      get_checkpoint = λ w. returns (some kept) w;
    }
    ∷ record {
      name = str "B";
      rebuild = λ w. returns 3 (suc w);
      get_checkpoint = λ w. returns none w;
    }
    ∷ record {
      name = str "C";
      rebuild = λ w. fails io_error w;
      get_checkpoint = λ w. fails io_error w;
    }
    ∷ []

abbrev debug : Error → Str
debug e = str "IoError"
