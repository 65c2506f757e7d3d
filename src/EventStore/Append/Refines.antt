-- ===== src/EventStore/Append/Refines.antt =====
-- `append_async` on a storage that represents a log and holds no lock.
use marmosa.Common.{
  ℕ, ◌+◌, ◌<◌, ◌≡◌, refl, ◌∙◌, fun_ext, Bool, true, false, not, ◌&&◌, Option, none, some, List,
  ◌++◌, arith, Str, str, nat_eq, list_eq, length, is_empty, contains, Distinct,
}
use marmosa.Text.{u64_mod}
use marmosa.Domain.{EventData, EventRecord, AppendCondition}
use marmosa.Exec.{append_condition_failed, fails}
use marmosa.Exec.Rules.{Runs}
use marmosa.Ports.{Platform, Disk, IsLawful, lock, unlock, is_child, is_some}
use marmosa.EventStore.Indices.Laws.{index_at, global_lock, IndexLocksFree}
use marmosa.EventStore.Read.{read_async}
use marmosa.EventStore.Read.Records.{read_async-fetch}
use marmosa.EventStore.Append.{next_sequence, check_condition, append_locked, append_async}
use marmosa.EventStore.Append.Sequence.{
  batch_records, contains-numbered, next_sequence_lem, append_events_lem,
}
use marmosa.EventStore.Log.{Represents, candidates}
use marmosa.EventStore.Log.Files.{contains-listed}
use marmosa.EventStore.Log.Fetch.{fetch}

-- No task holds a lock.
abbrev pub IsIdle : {Bytes : Type 0} → Disk Bytes → Type 0
IsIdle d = (l : Str) → d.locked l ≡ false

-- The condition finds a record in the log.
unfoldable pub is_conflict : Platform → Option AppendCondition → List EventRecord → Bool
is_conflict p none log = false
is_conflict p (some cond) log = not (
    is_empty (
      fetch cond.fail_if_events_match none none
        (candidates p cond.fail_if_events_match cond.after_sequence_position log)))

unlock-lock :
    {Bytes : Type 0} (l : Str) (d : Disk Bytes) → d.locked l ≡ false → unlock l (lock l d) ≡ d
unlock-lock l d h = λ i. record {
  file = d.file;
  locked =
      fun_ext {f = (unlock l (lock l d)).locked} {g = d.locked}
        (λ k. ground (arith, h, (list_eq {A = ℕ}).beq_iff k l)) i;
}

-- The storage after a batch that was appended.
pub record Appended (p : Platform) (log : List EventRecord) (d : Disk p.Bytes) : Type 0 where
  pub represents : Represents p log d
  pub idle : IsIdle d

module _ (p : Platform) where
  -- Only the files matter.
  pub Represents-files :
      (log : List EventRecord) (d d' : Disk p.Bytes)
      → d'.file ≡ d.file
      → Represents p log d
      → Represents p log d'
  unfolding index_at
  Represents-files log d d' e rep = record {
    numbered = rep.numbered;
    fits = rep.fits;
    events = λ q h. rw e (rep.events q h);
    indices = λ q k h. rw e (rep.indices q k h);
  }

  module _ (law : IsLawful p) where
    open law.reliable use {view}
    open p.backend use {State}

    check_passes :
        (condition : Option AppendCondition) (log : List EventRecord) (d : Disk p.Bytes) (s : State)
        → Represents p log d
        → view s ≡ d
        → is_conflict p condition log ≡ false
        → Runs (check_condition p condition s) (λ _ s'. view s' ≡ d)
    unfolding check_condition is_conflict read_async
    check_passes none log d s rep v h = (tt, s, refl, v)
    check_passes (some cond) log d s rep v h =
        let (xs, s1, e1, (same, v1)) =
          read_async-fetch p law log d rep cond.fail_if_events_match cond.after_sequence_position
            none none s v in
        (tt, s1, ground (arith, e1, same, h), v1)

    check_fails :
        (condition : Option AppendCondition) (log : List EventRecord) (d : Disk p.Bytes) (s : State)
        → Represents p log d
        → view s ≡ d
        → is_conflict p condition log ≡ true
        → (s' : State) × (check_condition p condition s ≡ fails append_condition_failed s')
          × (view s' ≡ d)
    unfolding check_condition is_conflict read_async
    check_fails none log d s rep v h = cc
    check_fails (some cond) log d s rep v h =
        let (xs, s1, e1, (same, v1)) =
          read_async-fetch p law log d rep cond.fail_if_events_match cond.after_sequence_position
            none none s v in
        (s1, ground (arith, e1, same, h), v1)

    next_position_lem :
        (log : List EventRecord) (d : Disk p.Bytes) (names : List Str)
        → Represents p log d
        → Distinct names
        → ((q : Str) → contains q names ≡ (is_child (str "Events/") q && is_some (d.file q)))
        → next_sequence names ≡ length log
    next_position_lem log d names rep distinct listed =
        next_sequence_lem names (length log) rep.fits (λ k. ground (
          arith,
          contains-listed p law.events log d rep names distinct listed k,
          contains-numbered 0 k log rep.numbered,
        ))

    locked_passes :
        (now : ℕ) (events : List EventData) (condition : Option AppendCondition)
        (log : List EventRecord) (s : State)
        → Represents p log (view s)
        → IndexLocksFree p (view s)
        → length log + length events < u64_mod
        → is_conflict p condition log ≡ false
        → Runs (append_locked p now events condition s) (λ _ s'.
          Represents p (log ++ batch_records now (length log) events) (view s')
          × ((view s').locked ≡ (view s).locked))
    unfolding append_locked
    locked_passes now events condition log s rep free room clear =
        let d = view s in
        let (u0, s0, e0, v0) = law.reliable.create_dir_all_law (str "Events") s in
        let (names, s1, e1, (v1, distinct, listed)) =
          law.reliable.read_dir_law (str "Events") s0 (ground arith) in
        let lists : (q : Str)
            → contains q names ≡ (is_child (str "Events/") q && is_some (d.file q)) =
          λ q. rw v0 at (listed q) in
        let (u2, s2, e2, v2) = check_passes condition log d s1 rep (v1 ∙ v0) clear in
        let next = next_position_lem log d names rep distinct lists in
        let (u3, s3, e3, (rep3, locks3)) =
          append_events_lem p law now events (length log) log s2 refl (rw v2 rep)
            (λ l h. rw v2 (free l h)) room in
        (tt, s3, ground (arith, e0, e1, e2, next, e3), (rep3, rw v2 at locks3))

    locked_fails :
        (now : ℕ) (events : List EventData) (condition : Option AppendCondition)
        (log : List EventRecord) (s : State)
        → Represents p log (view s)
        → is_conflict p condition log ≡ true
        → (s' : State) × (append_locked p now events condition s ≡ fails append_condition_failed s')
          × (view s' ≡ view s)
    unfolding append_locked
    locked_fails now events condition log s rep conflict =
        let (u0, s0, e0, v0) = law.reliable.create_dir_all_law (str "Events") s in
        let (names, s1, e1, (v1, distinct, listed)) =
          law.reliable.read_dir_law (str "Events") s0 (ground arith) in
        let (s2, e2, v2) = check_fails condition log (view s) s1 rep (v1 ∙ v0) conflict in
        (s2, ground (arith, e0, e1, e2), v2)

    -- without a conflict
    pub append_async-refines :
        (now : ℕ) (events : List EventData) (condition : Option AppendCondition)
        (log : List EventRecord) (s : State)
        → Represents p log (view s)
        → IsIdle (view s)
        → length log + length events < u64_mod
        → is_conflict p condition log ≡ false
        → Runs
            (append_async p now events condition s)
            (λ _ s'. Appended p (log ++ batch_records now (length log) events) (view s'))
    unfolding append_async
    append_async-refines now events condition log s rep idle room clear =
        let (u1, s1, e1, v1) = law.reliable.acquire_free global_lock s (idle global_lock) in
        let held : Represents p log (view s1) =
          Represents-files log (view s) (view s1) (rw v1) rep in
        let (u2, s2, e2, (rep2, locks2)) =
          locked_passes now events condition log s1 held (λ l h. rw v1 (ground (arith, h, idle l)))
            room clear in
        let (u3, s3, e3, v3) = law.reliable.release_law global_lock s2 in
        (
          tt,
          s3,
          ground (arith, e1, e2, e3),
          record {
            represents = Represents-files _ (view s2) (view s3) (rw v3) rep2;
            idle = λ l. rw (v3, locks2, v1) (ground (arith, idle l));
          },
        )

    pub append_async-conflict :
        (now : ℕ) (events : List EventData) (condition : Option AppendCondition)
        (log : List EventRecord) (s : State)
        → Represents p log (view s)
        → IsIdle (view s)
        → is_conflict p condition log ≡ true
        → (s' : State) × (append_async p now events condition s ≡ fails append_condition_failed s')
          × (view s' ≡ view s)
    unfolding append_async
    append_async-conflict now events condition log s rep idle conflict =
        let (u1, s1, e1, v1) = law.reliable.acquire_free global_lock s (idle global_lock) in
        let held : Represents p log (view s1) =
          Represents-files log (view s) (view s1) (rw v1) rep in
        let (s2, e2, v2) = locked_fails now events condition log s1 held conflict in
        let (u3, s3, e3, v3) = law.reliable.release_law global_lock s2 in
        (
          s3,
          ground (arith, e1, e2, e3),
          v3 ∙ (rw (v2, v1) (unlock-lock global_lock (view s) (idle global_lock))),
        )
