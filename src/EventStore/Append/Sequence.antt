-- ===== src/EventStore/Append/Sequence.antt =====
-- src/event_store/mod.rs: the next position of a log, and the loop over a batch.
use marmosa.Common.{
  ℕ, suc, ◌+◌, ◌%◌, ◌≤◌, ◌<◌, ◌≡◌, refl, subst, ap, ◌∙◌, true, ◌&&◌, none, some, List, [], ◌∷◌,
  ◌++◌, arith, Str, nat_eq, ltb, leb, length, length-append, contains, Option-cases, inl, inr,
}
use mathlib.Core.List.{append-nil, append_assoc}
use marmosa.Text.{u64_mod}
use marmosa.Domain.{EventData, EventRecord}
use marmosa.Exec.Rules.{Runs}
use marmosa.Ports.{Platform, IsLawful}
use marmosa.EventStore.Indices.Laws.{IndexLocksFree}
use marmosa.EventStore.Read.{file_positions}
use marmosa.EventStore.Append.{max_position, next_sequence, to_record, append_events}
use marmosa.EventStore.Append.Record.{append_record_lem}
use marmosa.EventStore.Log.{NumberedFrom, Represents, positions_of}

-- The records that a batch becomes.
unfoldable pub batch_records : ℕ → ℕ → List EventData → List EventRecord
batch_records now n [] = []
batch_records now n (event ∷ events) = to_record now n event ∷ batch_records now (suc n) events

pub contains-numbered :
    (n k : ℕ) (log : List EventRecord)
    → NumberedFrom n log
    → contains k (positions_of log) ≡ (leb n k && ltb k (n + length log))
contains-numbered n k [] h = ground arith
contains-numbered n k (r ∷ rs) h = ground (arith, contains-numbered (suc n) k rs h.1)

max_position-none : (xs : List ℕ) → max_position xs ≡ none → xs ≡ []
unfolding max_position
max_position-none [] h = refl
max_position-none (x ∷ xs) h = ground arith

-- The maximum is an element, and no element is above it.
max_position_member : (xs : List ℕ) (m : ℕ) → max_position xs ≡ some m → contains m xs ≡ true
unfolding max_position
max_position_member [] m h = cc
max_position_member (x ∷ xs) m h = elim (Option-cases (max_position xs)) [
  | inl nothing ↦ ground (arith, nothing)
  | inr (m', e) ↦ ground (arith, e, max_position_member xs m' e)
]

max_position_bound :
    (xs : List ℕ) (m k : ℕ) → max_position xs ≡ some m → contains k xs ≡ true → k ≤ m
unfolding max_position
max_position_bound [] m k h c = cc
max_position_bound (x ∷ xs) m k h c = elim (Option-cases (max_position xs)) [
  | inl nothing ↦
      let e = max_position-none xs nothing in ground (arith, nothing, ap (λ l. contains k l) e)
  | inr (m', e) ↦ ground (arith, e, max_position_bound xs m' k e)
]

pub next_sequence_lem :
    (names : List Str) (n : ℕ)
    → n < u64_mod
    → ((k : ℕ) → contains k (file_positions names) ≡ ltb k n)
    → next_sequence names ≡ n
unfolding next_sequence
next_sequence_lem names n f h = elim (Option-cases (max_position (file_positions names))) [
  | inl nothing ↦
      let e = max_position-none (file_positions names) nothing in
      ground (arith, nothing, h 0, ap (λ l. contains 0 l) e)
  | inr (m, e) ↦ ground (
    arith,
    e,
    h m,
    h (suc m),
    max_position_member (file_positions names) m e,
    max_position_bound (file_positions names) m (suc m) e,
  )
]

module _ (p : Platform) (law : IsLawful p) where
  open law.reliable use {view}

  -- The whole batch is appended, in its order.
  pub append_events_lem :
      (now : ℕ) (events : List EventData) (n : ℕ) (log : List EventRecord) (s : p.backend.State)
      → n ≡ length log
      → Represents p log (view s)
      → IndexLocksFree p (view s)
      → length log + length events < u64_mod
      → Runs (append_events p now events n s) (λ _ s'.
        Represents p (log ++ batch_records now n events) (view s')
        × ((view s').locked ≡ (view s).locked))
  unfolding append_events batch_records to_record
  append_events_lem now [] n log s at rep free room = (tt, s, refl, (rw append-nil rep, refl))
  append_events_lem now (event ∷ events) n log s at rep free room =
      let r = to_record now n event in
      let wrap : (n + 1) % u64_mod ≡ suc n = omega arith in
      let (u1, s1, e1, (rep1, locks1)) =
        append_record_lem p law log r s rep free at (omega arith) in
      let (u2, s2, e2, (rep2, locks2)) =
        append_events_lem now events (suc n) (log ++ r ∷ []) s1
          (omega (arith, length-append log (r ∷ []))) rep1 (λ l h. rw locks1 (free l h))
          (omega (arith, length-append log (r ∷ []))) in
      (
        tt,
        s2,
        ground (arith, wrap, e1, e2),
        (subst (λ l. Represents p l (view s2)) (append_assoc log (r ∷ []) _) rep2, locks2 ∙ locks1),
      )
