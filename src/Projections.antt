-- ===== src/Projections.antt =====
-- src/projections.rs and src/projections: read models that are built from the events of a store.
pub mod Contract
pub mod Flagged
pub mod Store
pub mod TagIndex
pub mod MetadataIndex
pub mod Runner
pub mod Rebuilder
pub mod Options
pub mod Composed
use marmosa.Common.{ℕ, Bool, Option, List, Str}
use marmosa.Domain.{Tag, EventRecord, Query}
use marmosa.Exec.{Exec}
use marmosa.Ports.{Codec}
use marmosa.InMemory.Map.{BTreeMap}

-- `trait ProjectionWithRelatedEvents`
pub record ProjectionWithRelatedEvents (S : Type 0) : Type 0 where
  pub get_related_events_query : EventRecord → Option Query
  pub apply_with_related : Option S → EventRecord → List EventRecord → Option S

-- `trait ProjectionDefinition`
pub record ProjectionDefinition (S : Type 0) : Type 0 where
  pub projection_name : Str
  pub event_types : Query
  pub key_selector : EventRecord → Option Str
  pub apply : Option S → EventRecord → Option S
  pub as_related_events : Option (ProjectionWithRelatedEvents S)

-- `trait ProjectionStore`
pub record ProjectionStore (W S : Type 0) : Type 0 where
  pub query_by_tag : Tag → Exec W (List S)
  pub query_by_tags : List Tag → Exec W (List S)
  pub get : Str → Exec W (Option S)
  pub get_all : Exec W (List S)
  pub save : Str → S → Exec W (Unit {0})
  pub delete : Str → Exec W (Unit {0})
  pub clear : Exec W (Unit {0})
  pub set_batch_mode : Bool → Exec W (Unit {0})
  pub rebuild_metadata_index : Exec W (Unit {0})

pub record ProjectionCheckpoint : Type 0 where
  pub projection_name : Str
  pub last_position : ℕ
  pub last_updated : ℕ
  pub total_events_processed : ℕ

pub record ProjectionMetadata : Type 0 where
  pub created_at : ℕ
  pub last_updated_at : ℕ
  pub version : ℕ
  pub size_in_bytes : ℕ

pub record ProjectionWrapper (S : Type 0) : Type 0 where
  pub content : S
  pub metadata : ProjectionMetadata

-- `serde_json` at the types that the projections store.
pub record Formats (Bytes S : Type 0) : Type 0 where
  pub state_json : Codec Bytes S
  pub wrapper_json : Codec Bytes (ProjectionWrapper S)
  pub checkpoint_json : Codec Bytes ProjectionCheckpoint
  pub metadata_json : Codec Bytes (BTreeMap ProjectionMetadata)
  pub keys_json : Codec Bytes (List Str)
