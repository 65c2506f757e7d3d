-- ===== src/EventStore/Contract/Gaps.antt =====
-- `read_async` beside `Query::matches`: items without names, and reads of many positions.
use mathlib.Core.List.{reverse-append}
use marmosa.Common.{
  ℕ, ◌<◌, ◌≡◌, refl, ap, ◌∙◌, Bool, true, false, Option, none, List, [], ◌∷◌, arith, reverse,
  length-append, Bool-cases, inl, inr, nat_eq, list_eq, length, is_empty, retain,
}
use marmosa.Domain.{EventRecord, Query, ReadOption, matches, matches_some, type_match, tag_match}
use marmosa.Exec.Rules.{Runs}
use marmosa.Ports.{Platform, IsLawful}
use marmosa.EventStore.Read.{is_descending, read_async}
use marmosa.EventStore.Read.Records.{fetch-nil, read_async-fetch}
use marmosa.EventStore.Log.{Represents, candidates, is_candidate, is_item_candidate}
use marmosa.EventStore.Log.Fetch.{fetch, fetch_limited, order}

-- The query with one item that names neither types nor tags.
abbrev pub bare_query : Query
bare_query = record { items = record { event_types = []; tags = [] } ∷ [] }

pub bare_matches : (r : EventRecord) → matches bare_query r ≡ true
unfolding matches matches_some type_match tag_match
bare_matches r = refl

retain-nothing :
    (f : EventRecord → Bool) (xs : List EventRecord)
    → ((r : EventRecord) → f r ≡ false)
    → retain f xs ≡ []
retain-nothing f [] h = refl
retain-nothing f (x ∷ xs) h = ground (arith, h x, retain-nothing f xs h)

bare_candidates :
    (p : Platform) (start : Option ℕ) (log : List EventRecord)
    → candidates p bare_query start log ≡ []
unfolding is_candidate is_item_candidate
bare_candidates p start log = retain-nothing _ log (λ r. refl)

-- The query with one item that names neither types nor tags matches every record, and yet a read
-- with it, whatever the log holds and for all positions, limits and options, returns no record.
pub read_async-bare :
    (p : Platform) (law : IsLawful p) (start max_count : Option ℕ)
    (options : Option (List ReadOption)) (log : List EventRecord) (s : p.backend.State)
    → Represents p log (law.reliable.view s)
    → ((r : EventRecord) → matches bare_query r ≡ true)
      × Runs (read_async p bare_query start max_count options s) (λ xs _. xs ≡ [])
read_async-bare p law start max_count options log s rep =
    let (xs, s', e, (same, v)) =
      read_async-fetch p law log (law.reliable.view s) rep bare_query start max_count options s
        refl in
    (
      bare_matches,
      (
        xs,
        s',
        e,
        same
            ∙ (ap (fetch bare_query max_count options) (bare_candidates p start log)
                ∙ fetch-nil p law log (law.reliable.view s) rep bare_query max_count options),
      ),
    )

length-reverse : (rs : List EventRecord) → length (reverse rs) ≡ length rs
length-reverse [] = refl
length-reverse (r ∷ rs) =
    ground
      (arith, reverse-append (r ∷ []) rs, length-append (reverse rs) (r ∷ []), length-reverse rs)

filter_skipped :
    (query : Query) (options : Option (List ReadOption)) (rs : List EventRecord)
    → is_empty query.items ≡ false
    → 10 < length rs
    → fetch query none options rs ≡ order options rs
unfolding fetch fetch_limited
filter_skipped query options rs part many = elim (Bool-cases (is_descending options)) [
  | inl down ↦ ground (arith, part, down, many, length-reverse rs)
  | inr up ↦ ground (arith, part, up, many)
]

-- A read without a limit that resolves more than ten positions by the indices returns all of
-- their records, whether they match the query or not.
pub read_async-unfiltered :
    (p : Platform) (law : IsLawful p) (query : Query) (start : Option ℕ)
    (options : Option (List ReadOption)) (log : List EventRecord) (s : p.backend.State)
    → Represents p log (law.reliable.view s)
    → is_empty query.items ≡ false
    → 10 < length (candidates p query start log)
    → Runs
        (read_async p query start none options s)
        (λ xs _. xs ≡ order options (candidates p query start log))
read_async-unfiltered p law query start options log s rep part many =
    let (xs, s', e, (same, v)) =
      read_async-fetch p law log (law.reliable.view s) rep query start none options s refl in
    (xs, s', e, same ∙ filter_skipped query options (candidates p query start log) part many)
