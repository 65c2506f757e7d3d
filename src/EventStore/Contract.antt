-- ===== src/EventStore/Contract.antt =====
-- What `read_async` and `append_async` promise to a caller, on a storage that represents a log and
-- with no other task at work.
pub mod Guard
pub mod Gaps
use marmosa.Common.{
  ℕ, ◌+◌, ◌≤◌, ◌<◌, ◌≡◌, refl, sym, ap, ◌∙◌, Bool, true, false, not, ◌&&◌, Option, none, some, List,
  [], ◌∷◌, ◌++◌, arith, leb, length, Str, ◌==◌, nat_eq, list_eq, is_empty, is_empty-retain, any,
  retain, All, All-of_forall,
}
use marmosa.Text.{u64_mod}
use marmosa.Domain.{EventData, EventRecord, Query, query_all, AppendCondition, ReadOption, matches}
use marmosa.Exec.{blocks, ◌>>=◌}
use marmosa.Exec.Rules.{Runs}
use marmosa.Ports.{Platform, Disk, IsLawful}
use marmosa.EventStore.Indices.Laws.{global_lock}
use marmosa.EventStore.Read.{first_position, is_descending, read_async}
use marmosa.EventStore.Read.Records.{read_async-fetch}
use marmosa.EventStore.Append.{append_async}
use marmosa.EventStore.Append.Sequence.{batch_records}
use marmosa.EventStore.Append.Refines.{
  IsIdle, Appended, is_conflict, append_async-refines, Represents-files,
}
use marmosa.EventStore.Log.{Represents, candidates, is_candidate}
use marmosa.EventStore.Log.Fetch.{fetch, order}
use marmosa.EventStore.Log.Exact.{IsPrecise, IsInRange, matching, limit, fetch-exact}

-- If the index files find for the records of the log just what the query matches (`IsPrecise`), and
-- the position behind the start position is a `u64`, a read returns the records of the log that
-- match the query and stand behind the start position, in ascending or descending order, cut to the
-- limit, and leaves the storage as it was. A read of all events with the limit 0 still takes one.
pub read_async-exact :
    (p : Platform) (law : IsLawful p) (query : Query) (start max_count : Option ℕ)
    (options : Option (List ReadOption)) (log : List EventRecord) (s : p.backend.State)
    → Represents p log (law.reliable.view s)
    → IsInRange start
    → IsPrecise p query log
    → Runs (read_async p query start max_count options s) (λ xs s'.
      (xs ≡ limit query max_count (order options (matching query start log)))
      × (law.reliable.view s' ≡ law.reliable.view s))
read_async-exact p law query start max_count options log s rep range precise =
    let (xs, s', e, (same, v)) =
      read_async-fetch p law log (law.reliable.view s) rep query start max_count options s refl in
    (xs, s', e, (same ∙ fetch-exact p query start max_count options log range precise, v))

-- The query for all events is precise on every log.
pub query_all-IsPrecise : (p : Platform) (log : List EventRecord) → IsPrecise p query_all log
unfolding is_candidate matches
query_all-IsPrecise p log = All-of_forall (λ r. refl) log

pub matching-query_all : (log : List EventRecord) → matching query_all none log ≡ log
unfolding matches
matching-query_all [] = refl
matching-query_all (r ∷ rs) = ground (arith, matching-query_all rs)

-- An append without a condition to a store that no task holds succeeds, and a read of all events
-- after it returns the old records and behind them the new ones, numbered from the length of the
-- old log on, as long as the positions fit in a `u64`.
pub append_async-read_all :
    (p : Platform) (law : IsLawful p) (now : ℕ) (events : List EventData) (log : List EventRecord)
    (s : p.backend.State)
    → Represents p log (law.reliable.view s)
    → IsIdle (law.reliable.view s)
    → length log + length events < u64_mod
    → Runs (append_async p now events none s) (λ _ s'.
      Runs
        (read_async p query_all none none none s')
        (λ xs _. xs ≡ log ++ batch_records now (length log) events))
unfolding is_conflict is_descending
append_async-read_all p law now events log s rep idle room =
    let (u, s1, e1, done) = append_async-refines p law now events none log s rep idle room refl in
    let new = log ++ batch_records now (length log) events in
    let (xs, s2, e2, (same, v)) =
      read_async-exact p law query_all none none none new s1 done.represents (λ k h. cc)
        (query_all-IsPrecise p new) in
    (u, s1, e1, (xs, s2, e2, same ∙ matching-query_all new))

-- While another task holds the lock of the store, and no other lock is held, on a storage that
-- represents a log, an append with any condition waits, and has changed nothing when it begins to
-- wait: files and locks are those that there were. When the other task gives the lock back there,
-- an append without a condition, with room for its events in a `u64`, stores the batch once behind
-- the log, and all locks are free.
pub append_async-waits :
    (p : Platform) (law : IsLawful p) (now : ℕ) (events : List EventData)
    (condition : Option AppendCondition) (log : List EventRecord) (s : p.backend.State)
    → Represents p log (law.reliable.view s)
    → ((l : Str) → (law.reliable.view s).locked l ≡ (l == global_lock))
    → length log + length events < u64_mod
    → (t : p.backend.State) × (append_async p now events condition s ≡ blocks t)
      × (law.reliable.view t ≡ law.reliable.view s)
      × Runs (p.backend.release_stream_lock global_lock t) (λ _ s1.
        Runs (append_async p now events none s1) (λ _ s2.
          Appended p (log ++ batch_records now (length log) events) (law.reliable.view s2)))
unfolding append_async is_conflict
append_async-waits p law now events condition log s rep busy room =
    let held : (law.reliable.view s).locked global_lock ≡ true =
      busy global_lock ∙ ((list_eq {A = ℕ}).beq_iff global_lock global_lock).1 refl in
    let (t, waits, same) = law.reliable.acquire_held global_lock s held in
    let (u, s1, e1, v1) = law.reliable.release_law global_lock t in
    let locks : (l : Str) → (law.reliable.view s1).locked l ≡ false =
      λ l. rw (v1, same) (ground (arith, busy l)) in
    let files : (law.reliable.view s1).file ≡ (law.reliable.view s).file = rw (v1, same) refl in
    (
      t,
      ground (arith, waits),
      same,
      (
        u,
        s1,
        e1,
        append_async-refines p law now events none log s1 (Represents-files p log _ _ files rep)
            locks room refl,
      ),
    )
