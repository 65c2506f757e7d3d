-- ===== src/History.antt =====
-- Histories of a store: calls of `append_async`, `read_async` (src/event_store/mod.rs) and
-- `delete_store` (src/event_store/admin.rs), one behind the other, whatever each of them returns.
use marmosa.Common.{
  ℕ, suc, ◌∷◌, subst, ◌+◌, ◌≤◌, ◌<◌, ◌≡◌, refl, ap, ◌∙◌, Option, List, [], ◌++◌, arith, length,
  length-append, Bool-cases, inl, inr, false,
}
use marmosa.Text.{u64_mod}
use marmosa.Domain.{EventData, EventRecord, Query, AppendCondition, ReadOption}
use marmosa.Exec.{Error, Outcome, returns, fails, is_waiting}
use marmosa.Ports.{Platform, Disk, IsLawful}
use marmosa.EventStore.Append.{append_async}
use marmosa.EventStore.Append.Sequence.{batch_records}
use marmosa.EventStore.Append.Refines.{
  IsIdle, is_conflict, append_async-refines, append_async-conflict,
}
use marmosa.EventStore.Log.{Represents}
use marmosa.EventStore.Read.{read_async}
use marmosa.EventStore.Read.Records.{read_async-fetch}
use marmosa.Maintain.Admin.{delete_store}
use marmosa.Maintain.Admin.Empty.{delete_store-Represents}

length-batch_records :
    (now n : ℕ) (events : List EventData) → length (batch_records now n events) ≡ length events
unfolding batch_records
length-batch_records now n [] = refl
length-batch_records now n (e ∷ es) = ap suc (length-batch_records now (suc n) es)

module _ (p : Platform) where
  open p.backend use {State}

  -- One call, with the number of events that it offers to the store
  pub data Step (s : State) : ℕ → State → Type 0 where
    appended :
        {s' : State} (now : ℕ) (events : List EventData) (condition : Option AppendCondition)
        → append_async p now events condition s ≡ returns tt s'
        → Step s (length events) s'
    refused :
        {s' : State} (now : ℕ) (events : List EventData) (condition : Option AppendCondition)
        (e : Error)
        → append_async p now events condition s ≡ fails e s'
        → Step s (length events) s'
    has_read :
        {s' : State} (query : Query) (start max_count : Option ℕ)
        (options : Option (List ReadOption)) (found : List EventRecord)
        → read_async p query start max_count options s ≡ returns found s'
        → Step s 0 s'
    deleted : {s' : State} → delete_store p s ≡ returns tt s' → Step s 0 s'

  pub data History (s : State) : ℕ → State → Type 0 where
    beginning : History s 0 s
    next : {n k : ℕ} {t u : State} → History s n t → Step t k u → History s (n + k) u

  module _ (law : IsLawful p) where
    open law.reliable use {view}

    -- A store with at most `n` events, and no task in it
    pub record IsSound (n : ℕ) (d : Disk p.Bytes) : Type 0 where
      pub log : List EventRecord
      pub represents : Represents p log d
      pub idle : IsIdle d
      pub few : length log ≤ n

    more : {n : ℕ} {d : Disk p.Bytes} (k : ℕ) → IsSound n d → IsSound (n + k) d
    more k sound = record {
      log = sound.log;
      represents = sound.represents;
      idle = sound.idle;
      few = omega (arith, sound.few);
    }

    -- The state that a run returns is the only one.
    landed :
        {A : Type 0} {o : Outcome State A} {a b : A} {t u : State} (P : Disk p.Bytes → Type 0)
        → o ≡ returns a t
        → o ≡ returns b u
        → P (view u)
        → P (view t)
    landed {t} {u} P e e' h = let same : u ≡ t = cc in subst (λ s. P (view s)) same h

    landed_failed :
        {A : Type 0} {o : Outcome State A} {a b : Error} {t u : State} (P : Disk p.Bytes → Type 0)
        → o ≡ fails a t
        → o ≡ fails b u
        → P (view u)
        → P (view t)
    landed_failed {t} {u} P e e' h = let same : u ≡ t = cc in subst (λ s. P (view s)) same h

    Step-IsSound :
        {n k : ℕ} {s s' : State}
        → Step s k s'
        → n + k < u64_mod
        → IsSound n (view s)
        → IsSound (n + k) (view s')
    Step-IsSound {n} {s} (appended now events condition e) room sound =
        elim (Bool-cases (is_conflict p condition sound.log)) [
          | inl conflict ↦
              let (t1, failed, v) =
                append_async-conflict p law now events condition sound.log s sound.represents
                  sound.idle conflict in
              absurd cc
          | inr clear ↦
              let (u, t1, returned, done) =
                append_async-refines p law now events condition sound.log s sound.represents
                  sound.idle (omega (arith, sound.few)) clear in
              landed (IsSound (n + length events)) e returned (record {
                log = sound.log ++ batch_records now (length sound.log) events;
                represents = done.represents;
                idle = done.idle;
                few = omega (
                  arith,
                  sound.few,
                  length-append sound.log (batch_records now (length sound.log) events),
                  length-batch_records now (length sound.log) events,
                );
              })
        ]
    Step-IsSound {n} {s} (refused now events condition error e) room sound =
        elim (Bool-cases (is_conflict p condition sound.log)) [
          | inl conflict ↦
              let (t1, failed, v) =
                append_async-conflict p law now events condition sound.log s sound.represents
                  sound.idle conflict in
              landed_failed (IsSound (n + length events)) e failed
                (rw v (more (length events) sound))
          | inr clear ↦
              let (u, t1, returned, done) =
                append_async-refines p law now events condition sound.log s sound.represents
                  sound.idle (omega (arith, sound.few)) clear in
              absurd cc
        ]
    Step-IsSound {n} {s} (has_read query position max_count options found e) room sound =
        let (xs, t, returned, (same, v)) =
          read_async-fetch p law sound.log (view s) sound.represents query position max_count
            options s refl in
        landed (IsSound (n + 0)) e returned (rw v (more 0 sound))
    Step-IsSound {n} {s} (deleted e) room sound =
        let (u, t, returned, (represents, locks)) = delete_store-Represents p law s in
        landed (IsSound (n + 0)) e returned (record {
          log = [];
          represents = represents;
          idle = λ l. ap (λ f. f l) locks ∙ sound.idle l;
          few = omega arith;
        })

    -- From a storage that represents a log, with no lock held, any history of appends with any
    -- conditions, accepted or refused, of reads and of deletions of the store leads to a storage that
    -- represents some log again, with no lock held, whose length is at most that of the first log
    -- and the number of events that were offered, as long as these stay below the limit of a `u64`.
    pub History-IsSound :
        {s : State} {m n : ℕ} {s' : State}
        → IsSound m (view s)
        → History s n s'
        → m + n < u64_mod
        → IsSound (m + n) (view s')
    History-IsSound sound beginning room = more 0 sound
    History-IsSound sound (next {u = u} h step) room =
        let earlier = History-IsSound sound h (omega arith) in
        subst (λ j. IsSound j (view u)) (omega arith) (Step-IsSound step (omega arith) earlier)

    -- Behind any such history, with room for its events in a `u64`, an append with any condition
    -- comes to an end: it never waits for a lock.
    pub append_async-ends :
        {s : State} {m n : ℕ} {s' : State} (now : ℕ) (events : List EventData)
        (condition : Option AppendCondition)
        → IsSound m (view s)
        → History s n s'
        → m + n + length events < u64_mod
        → is_waiting (append_async p now events condition s') ≡ false
    append_async-ends {s'} now events condition sound h room =
        let here = History-IsSound sound h (omega arith) in
        elim (Bool-cases (is_conflict p condition here.log)) [
          | inl conflict ↦
              let (t1, failed, v) =
                append_async-conflict p law now events condition here.log s' here.represents
                  here.idle conflict in
              rw failed refl
          | inr clear ↦
              let (u, t1, returned, done) =
                append_async-refines p law now events condition here.log s' here.represents
                  here.idle (omega (arith, here.few)) clear in
              rw returned refl
        ]
