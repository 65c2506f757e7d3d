-- ===== src/Extensions.antt =====
-- src/extensions.rs and src/error.rs: short forms of the store's operations, the builder of
-- events, projections grouped by a key, and the errors that are shown to users.
pub mod Last
pub mod Grouped
use marmosa.Common.{ℕ, Bool, true, false, Option, none, some, List, [], ◌∷◌, ◌++◌, Str}
use marmosa.Domain.{Tag, DomainEvent, EventData, EventRecord, Query, AppendCondition, descending}
use marmosa.Exec.{Exec, pure, ◌>>=◌}
use marmosa.Ports.{Platform}
use marmosa.InMemory.Map
use marmosa.InMemory.Map.{BTreeMap}
use marmosa.EventStore.Read.{read_async}
use marmosa.EventStore.Append.{append_async}

-- `into_iter().next()`
unfoldable pub first : {A : Type 0} → List A → Option A
first [] = none
first (x ∷ xs) = some x

module _ (p : Platform) where
  open p.backend use {State}

  -- `EventStoreExt::append_single_async`
  unfoldable pub append_single : ℕ → EventData → Option AppendCondition → Exec State (Unit {0})
  append_single now event condition = append_async p now (event ∷ []) condition

  -- `EventStoreExt::read_all_async`
  unfoldable pub read_all : Query → Exec State (List EventRecord)
  read_all query = read_async p query none none none

  -- `EventStoreExt::read_last_async`
  unfoldable pub read_last : Query → Exec State (Option EventRecord)
  unfolding first
  read_last query = do
    events ← read_async p query none (some 1) (some (descending ∷ []))
    pure (first events)

pub record DomainEventBuilder : Type 0 where
  pub event_type : Str
  pub content : Str
  pub tags : List Tag
  pub metadata : Option Str

-- `DomainEventBuilder::new`
unfoldable pub new_event : Str → Str → DomainEventBuilder
new_event event_type content = record {
  event_type = event_type;
  content = content;
  tags = [];
  metadata = none;
}

unfoldable pub with_tag : Str → Str → DomainEventBuilder → DomainEventBuilder
with_tag key value b = record b { tags = b.tags ++ record { key = key; value = value } ∷ [] }

unfoldable pub with_tags : List Tag → DomainEventBuilder → DomainEventBuilder
with_tags tags b = record b { tags = b.tags ++ tags }

unfoldable pub with_metadata : Str → DomainEventBuilder → DomainEventBuilder
with_metadata metadata b = record b { metadata = some metadata }

unfoldable pub build : Str → DomainEventBuilder → EventData
build event_id b = record {
  event_id = event_id;
  event = record { event_type = b.event_type; content = b.content; tags = b.tags };
  metadata = b.metadata;
}

module _ {S : Type 0} (key_selector : EventRecord → Option Str)
    (apply_event : Option S → EventRecord → Option S) where
  -- `unwrap_or(None)`
  unfoldable pub current_state : Option (Option S) → Option S
  current_state none = none
  current_state (some state) = state

  -- The loop of `build_projections`
  unfoldable pub group_events : List EventRecord → BTreeMap (Option S) → BTreeMap (Option S)
  unfolding current_state
  group_events [] states = states
  group_events (e ∷ es) states = elim (key_selector e) [
    | none ↦ group_events es states
    | some key ↦ group_events es (
        Map.insert key (apply_event (current_state (Map.get key states)) e) (Map.remove key states))
  ]

  -- `into_values().flatten()`
  unfoldable pub flatten_values : List (Str × Option S) → List S
  flatten_values [] = []
  flatten_values ((key, none) ∷ rest) = flatten_values rest
  flatten_values ((key, some state) ∷ rest) = state ∷ flatten_values rest

  -- `build_projections`
  unfoldable pub build_projections : List EventRecord → List S
  unfolding group_events flatten_values
  build_projections events = flatten_values (group_events events Map.empty).entries

-- `EventStoreError`, src/error.rs
pub data EventStoreError : Type 0 where
  append_condition_error : Str → EventStoreError
  context_not_found : (message : Str) (context_name : Option Str) → EventStoreError
  invalid_query : Str → EventStoreError
  concurrency : (message : Str) (expected_sequence actual_sequence : Option ℕ) → EventStoreError
  event_not_found : (message : Str) (query_description : Option Str) → EventStoreError
  general : Str → EventStoreError

-- `impl Display for EventStoreError`
unfoldable pub error_message : EventStoreError → Str
error_message (append_condition_error msg) = msg
error_message (context_not_found message context_name) = message
error_message (invalid_query msg) = msg
error_message (concurrency message expected_sequence actual_sequence) = message
error_message (event_not_found message query_description) = message
error_message (general msg) = msg

unfoldable pub is_append_condition_failure : EventStoreError → Bool
is_append_condition_failure (append_condition_error msg) = true
is_append_condition_failure (context_not_found message context_name) = false
is_append_condition_failure (invalid_query msg) = false
is_append_condition_failure (concurrency message expected_sequence actual_sequence) = true
is_append_condition_failure (event_not_found message query_description) = false
is_append_condition_failure (general msg) = false
