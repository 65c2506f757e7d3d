-- ===== src/EventStore/Contract/Guard.antt =====
-- The append condition of `append_async` as a guard: when it stops a batch, and when it lets one
-- pass.
use marmosa.Common.{
  Option, ℕ, ◌+◌, ◌<◌, ◌≡◌, refl, Bool, true, false, ◌&&◌, none, some, List, [], ◌∷◌, ◌++◌, arith,
  Str, str, ◌==◌, beq_refl, nat_eq, list_eq, leb, length, is_empty, is_empty-retain, any, all,
  retain,
}
use marmosa.Text.{u64_mod}
use marmosa.Domain.{
  Tag, same_tag_iff, EventData, EventRecord, QueryItem, Query, AppendCondition, matches,
  matches_some, type_match, tag_match,
}
use marmosa.Exec.{append_condition_failed, fails}
use marmosa.Exec.Rules.{Runs}
use marmosa.Ports.{Platform, IsLawful}
use marmosa.EventStore.Indices.{type_path, tag_path}
use marmosa.EventStore.Read.{first_position, is_descending}
use marmosa.EventStore.Append.{append_async}
use marmosa.EventStore.Append.Sequence.{batch_records}
use marmosa.EventStore.Append.Refines.{
  IsIdle, Appended, is_conflict, append_async-refines, append_async-conflict,
}
use marmosa.EventStore.Log.{
  Represents, candidates, is_candidate, is_item_candidate, indexes_type, indexes_tag,
}
use marmosa.EventStore.Log.Fetch.{fetch, fetch_limited}
use marmosa.EventStore.Log.Exact.{behind, IsInRange, IsPrecise, scan-none, fetch-exact}

-- Every item of the query names an event type or a tag.
abbrev pub IsSelective : Query → Type 0
IsSelective query =
    any (λ item. is_empty item.event_types && is_empty item.tags) query.items ≡ false

-- A record of the log, from behind the start position on, matches the condition.
abbrev pub finds : AppendCondition → List EventRecord → Bool
finds cond log =
    any (λ r. matches cond.fail_if_events_match r && behind cond.after_sequence_position r) log

-- With a position that wraps around more records count as behind it.
behind-first_position :
    (start : Option ℕ) (r : EventRecord)
    → behind start r ≡ true
    → leb (first_position start) r.position ≡ true
unfolding first_position
behind-first_position none r h = ground arith
behind-first_position (some position) r h = ground (arith, h)

any_mono :
    {A : Type 0} (f g : A → Bool)
    → ((x : A) → f x ≡ true → g x ≡ true)
    → (xs : List A) → any f xs ≡ true
    → any g xs ≡ true
any_mono f g h [] e = e
any_mono f g h (x ∷ xs) e = ground (arith, h x, any_mono f g h xs)

all_mono :
    {A : Type 0} (f g : A → Bool)
    → ((x : A) → f x ≡ true → g x ≡ true)
    → (xs : List A) → all f xs ≡ true
    → all g xs ≡ true
all_mono f g h [] e = e
all_mono f g h (x ∷ xs) e = ground (arith, h x, all_mono f g h xs)

module _ (p : Platform) where
  -- A name that is the same has the same index file.
  type_indexed :
      (r : EventRecord) (t : Str) → (t == r.event.event_type) ≡ true → indexes_type p t r ≡ true
  type_indexed r t same =
      let e : t ≡ r.event.event_type = ((list_eq {A = ℕ}).beq_iff t r.event.event_type).0 same in
      rw e (ground (arith, beq_refl (type_path p (str "Indices") r.event.event_type)))

  tag_indexed :
      (r : EventRecord) (t : Tag)
      → any (λ rt. rt.key == t.key && rt.value == t.value) r.event.tags ≡ true
      → indexes_tag p t r ≡ true
  tag_indexed r t h =
      let found =
        any_mono _ (λ u. tag_path p (str "Indices") t == tag_path p (str "Indices") u)
          (λ u same.
            let e : u ≡ t = (same_tag_iff u t).0 same in
            rw e (beq_refl (tag_path p (str "Indices") t)))
          r.event.tags h in
      ground (arith, found)

  item_candidate :
      (item : QueryItem) (r : EventRecord)
      → (is_empty item.event_types && is_empty item.tags) ≡ false
      → (type_match item r && tag_match item r) ≡ true
      → is_item_candidate p item r ≡ true
  unfolding type_match tag_match is_item_candidate
  item_candidate item r named m = ground (
    arith,
    any_mono _ (λ t. indexes_type p t r) (type_indexed r) item.event_types,
    all_mono _ (λ t. indexes_tag p t r) (tag_indexed r) item.tags,
  )

  items_candidate :
      (items : List QueryItem) (r : EventRecord)
      → any (λ item. is_empty item.event_types && is_empty item.tags) items ≡ false
      → matches_some items r ≡ true
      → any (λ item. is_item_candidate p item r) items ≡ true
  unfolding matches_some
  items_candidate [] r named m = m
  items_candidate (item ∷ items) r named m =
      ground (arith, item_candidate item r, items_candidate items r)

  -- What matches a selective query is found by the indices.
  pub matches-is_candidate :
      (query : Query) (r : EventRecord)
      → IsSelective query
      → matches query r ≡ true
      → is_candidate p query r ≡ true
  unfolding matches is_candidate
  matches-is_candidate query r named m = ground (arith, items_candidate query.items r named)

  any-retain :
      (f g : EventRecord → Bool) (xs : List EventRecord)
      → any f (retain g xs) ≡ any (λ x. g x && f x) xs
  any-retain f g [] = refl
  any-retain f g (x ∷ xs) = ground (arith, any-retain f g xs)

  finds-is_conflict :
      (cond : AppendCondition) (log : List EventRecord)
      → IsSelective cond.fail_if_events_match
      → finds cond log ≡ true
      → is_conflict p (some cond) log ≡ true
  unfolding is_conflict fetch fetch_limited is_descending
  finds-is_conflict cond log named found =
      let q = cond.fail_if_events_match in
      let start = cond.after_sequence_position in
      let kept = λ (r : EventRecord). is_candidate p q r && leb (first_position start) r.position in
      let cands = candidates p q cond.after_sequence_position log in
      let some_kept : any kept log ≡ true =
        any_mono _ kept
          (λ r h. ground (arith, h, matches-is_candidate q r named, behind-first_position start r))
          log found in
      let some_match : any (λ r. kept r && matches q r) log ≡ true =
        any_mono _ (λ r. kept r && matches q r)
          (λ r h. ground (arith, h, matches-is_candidate q r named, behind-first_position start r))
          log found in
      ground (
        arith,
        some_kept,
        some_match,
        is_empty-retain kept log,
        is_empty-retain (matches q) cands,
        any-retain (matches q) kept log,
        scan-none q cands [],
      )

  accepts-is_conflict :
      (cond : AppendCondition) (log : List EventRecord)
      → IsInRange cond.after_sequence_position
      → IsPrecise p cond.fail_if_events_match log
      → finds cond log ≡ false
      → is_conflict p (some cond) log ≡ false
  unfolding is_conflict is_descending
  accepts-is_conflict cond log range precise missing =
      let q = cond.fail_if_events_match in
      rw (fetch-exact p q cond.after_sequence_position none none log range precise) (
        ground (
          arith,
          missing,
          is_empty-retain (λ r. matches q r && behind cond.after_sequence_position r) log,
        ))

  -- If each item of the condition names a type or a tag, and a record of the log behind the
  -- condition's position matches it, an append to an idle store fails with the error
  -- `AppendConditionFailed` and leaves every file and every lock as it was. This holds for all
  -- index files, those that several names share included.
  pub append_async-rejects :
      (law : IsLawful p) (now : ℕ) (events : List EventData) (cond : AppendCondition)
      (log : List EventRecord) (s : p.backend.State)
      → Represents p log (law.reliable.view s)
      → IsIdle (law.reliable.view s)
      → IsSelective cond.fail_if_events_match
      → finds cond log ≡ true
      → (s' : p.backend.State) × (append_async p now events (some cond) s
          ≡ fails append_condition_failed s')
        × (law.reliable.view s' ≡ law.reliable.view s)
  append_async-rejects law now events cond log s rep idle named found =
      append_async-conflict p law now events (some cond) log s rep idle
        (finds-is_conflict cond log named found)

  -- If the index files of the condition are exact for the log, the position behind its position
  -- is a `u64`, no record behind its position matches it, and the new positions fit in a `u64`, an
  -- append to an idle store succeeds: the storage then represents the log with the
  -- batch behind it, and no lock is held.
  pub append_async-accepts :
      (law : IsLawful p) (now : ℕ) (events : List EventData) (cond : AppendCondition)
      (log : List EventRecord) (s : p.backend.State)
      → Represents p log (law.reliable.view s)
      → IsIdle (law.reliable.view s)
      → length log + length events < u64_mod
      → IsInRange cond.after_sequence_position
      → IsPrecise p cond.fail_if_events_match log
      → finds cond log ≡ false
      → Runs
          (append_async p now events (some cond) s)
          (λ _ s'. Appended p (log ++ batch_records now (length log) events) (law.reliable.view s'))
  append_async-accepts law now events cond log s rep idle room range precise missing =
      append_async-refines p law now events (some cond) log s rep idle room
        (accepts-is_conflict cond log range precise missing)
