-- ===== src/EventStore/Read.antt =====
-- src/event_store/mod.rs, reading: `get_all_positions`, `get_positions_for_query_item`,
-- `get_positions_for_query`, `read_internal` and `read_async` of `MarmosaStore`.
pub mod Resolution
pub mod Positions
pub mod Records
use marmosa.Common.{
  ℕ, ◌+◌, ◌%◌, Bool, false, not, ◌&&◌, Option, none, some, List, [], ◌∷◌, ◌++◌, reverse, Str, str,
  nat_eq, ltb, leb, if◌then◌else◌, length, is_empty, take, retain, contains,
}
use marmosa.Common.Sorted.{sort_unstable, set_extend, to_set, intersection}
use marmosa.Text.{u64_mod, event_file, position_of_file}
use marmosa.Domain.{
  Tag, EventRecord, QueryItem, Query, ReadOption, read_option_eq, descending, matches,
}
use marmosa.Exec.{Result, io_error, Exec, pure, attempt, lift, unwrap_or, ok_or, ◌>>=◌}
use marmosa.Ports.{Platform}
use marmosa.EventStore.Indices.{get_positions_by_event_types, get_positions_by_tag}

-- `filter_map(|f| …)` over the names in a directory
unfoldable pub file_positions : List Str → List ℕ
file_positions [] = []
file_positions (f ∷ fs) =
    let rest = file_positions fs in
    elim (position_of_file f) [ none ↦ rest | some position ↦ position ∷ rest ]

-- `start_position.map(|p| p + 1).unwrap_or(0)`, which wraps around in a release build
unfoldable pub first_position : Option ℕ → ℕ
first_position none = 0
first_position (some position) = (position + 1) % u64_mod

-- `options.as_ref().is_some_and(|opts| opts.contains(&descending_opt))`
unfoldable pub is_descending : Option (List ReadOption) → Bool
is_descending none = false
is_descending (some options) = contains descending options

-- `match (event_type_positions, tag_positions)`
unfoldable pub combine_positions : Option (List ℕ) → Option (List ℕ) → List ℕ
combine_positions (some et) (some tg) = intersection et tg
combine_positions (some et) none = et
combine_positions none (some tg) = tg
combine_positions none none = []

-- `positions.truncate(max)` if there is a maximum
unfoldable pub truncate : Option ℕ → List ℕ → List ℕ
truncate none positions = positions
truncate (some max) positions = take max positions

-- `if let Some(max) = max_count && results.len() >= max`
unfoldable pub is_full : Option ℕ → List EventRecord → Bool
is_full none results = false
is_full (some max) results = leb max (length results)

-- One more tag: the first set as it is, a later one intersected.
unfoldable pub meet_positions : Option (List ℕ) → List ℕ → Option (List ℕ)
meet_positions none positions = some positions
meet_positions (some existing) positions = some (intersection existing positions)

module _ (p : Platform) where
  open p use {Bytes, event_json, backend}
  open p.backend use {State}

  -- `get_all_positions`
  unfoldable pub get_all_positions : Option ℕ → Exec State (List ℕ)
  unfolding file_positions
  get_all_positions start_position = do
    files ← unwrap_or [] (backend.read_dir (str "Events"))
    pure
        (retain (λ q. leb (first_position start_position) q) (sort_unstable (file_positions files)))

  -- The part of `get_positions_for_query_item` for the event types: their union.
  unfoldable pub event_type_positions : List Str → Exec State (Option (List ℕ))
  event_type_positions event_types = if is_empty event_types then pure none else (do
    positions ← get_positions_by_event_types p (str "Indices") event_types
    pure (some (to_set positions)))

  -- Its loop over the tags: their intersection.
  unfoldable pub tag_positions : List Tag → Option (List ℕ) → Exec State (Option (List ℕ))
  tag_positions [] tag_set = pure tag_set
  tag_positions (tag ∷ tags) tag_set = do
    positions ← get_positions_by_tag p (str "Indices") tag
    tag_positions tags (meet_positions tag_set (to_set positions))

  -- `get_positions_for_query_item`
  unfoldable pub get_positions_for_query_item : QueryItem → Exec State (List ℕ)
  unfolding event_type_positions tag_positions
  get_positions_for_query_item item = do
    et ← event_type_positions item.event_types
    tg ← tag_positions item.tags none
    pure (combine_positions et tg)

  -- The loop of `get_positions_for_query`
  unfoldable pub collect_items : List QueryItem → List ℕ → Exec State (List ℕ)
  collect_items [] all_positions = pure all_positions
  collect_items (item ∷ items) all_positions = do
    item_positions ← get_positions_for_query_item item
    collect_items items (set_extend all_positions item_positions)

  -- `get_positions_for_query`
  unfoldable pub get_positions_for_query : Query → Option ℕ → Exec State (List ℕ)
  unfolding collect_items
  get_positions_for_query query start_position =
      if is_empty query.items then get_all_positions start_position else (do
        all_positions ← collect_items query.items []
        pure (retain (λ q. leb (first_position start_position) q) all_positions))

  -- The file of one position, read and parsed
  unfoldable pub read_record : ℕ → Exec State EventRecord
  read_record position = do
    content ← backend.read_file (event_file (str "Events") position)
    ok_or io_error (event_json.from_slice content)

  -- `join_all(read_futures)`: every future runs to its end, failing or not.
  unfoldable pub join_all : List ℕ → Exec State (List (Result EventRecord))
  join_all [] = pure []
  join_all (position ∷ positions) = do
    r ← attempt (read_record position)
    rs ← join_all positions
    pure (r ∷ rs)

  -- `for result in read_results { results.push(result?); }`
  unfoldable pub push_results :
      List (Result EventRecord) → List EventRecord → Exec State (List EventRecord)
  push_results [] results = pure results
  push_results (r ∷ rs) results = do record' ← lift r; push_results rs (results ++ record' ∷ [])

  -- The sequential loop of `read_internal`
  unfoldable pub read_matching :
      Query → Option ℕ → List ℕ → List EventRecord → Exec State (List EventRecord)
  read_matching query max_count [] results = pure results
  read_matching query max_count (position ∷ positions) results = do
    record' ← read_record position
    let pushed = results ++ record' ∷ []
    let more = read_matching query max_count positions pushed
    let skip = read_matching query max_count positions results
    if matches query record' then (if is_full max_count pushed then pure pushed else more) else skip

  -- The two ways to read in `read_internal`: together, or one after the other with the filter.
  unfoldable pub read_limited : Query → Option ℕ → List ℕ → Exec State (List EventRecord)
  unfolding join_all push_results read_matching
  read_limited query max_count limited =
      if not (is_empty query.items) && ltb 10 (length limited)
      then (do read_results ← join_all limited; push_results read_results [])
      else read_matching query max_count limited []

  -- `read_internal`, from the positions on: the order, the limit, and the reading.
  unfoldable pub read_positioned :
      Query → Option ℕ → Option (List ReadOption) → List ℕ → Exec State (List EventRecord)
  unfolding read_limited
  read_positioned query max_count options positions =
      let ordered = if is_descending options then reverse positions else positions in
      let limited = if is_empty query.items then ordered else truncate max_count ordered in
      read_limited query max_count limited

  -- `read_internal`
  unfoldable pub read_internal :
      Query → Option ℕ → Option ℕ → Option (List ReadOption) → Exec State (List EventRecord)
  unfolding get_positions_for_query read_positioned
  read_internal query start_position max_count options = do
    positions ← get_positions_for_query query start_position
    if is_empty positions then pure [] else read_positioned query max_count options positions

  -- `read_async`
  unfoldable pub read_async :
      Query → Option ℕ → Option ℕ → Option (List ReadOption) → Exec State (List EventRecord)
  unfolding read_internal
  read_async query start_position max_count options =
      read_internal query start_position max_count options
