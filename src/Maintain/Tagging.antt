-- ===== src/Maintain/Tagging.antt =====
-- src/event_store/maintenance.rs: tags added to events that are stored already.
use marmosa.Common.{
  ℕ, suc, ◌+◌, none, List, [], ◌∷◌, ◌++◌, Str, str, ◌==◌, nat_eq, list_eq, ltb, is_empty, any,
  if◌then◌else◌,
}
use marmosa.Text.{event_file}
use marmosa.Domain.{Tag, EventRecord}
use marmosa.Exec.{io_error, Exec, pure, fail, ignore, ok_or, ◌>>=◌, ◌>>◌}
use marmosa.Ports.{Platform}
use marmosa.EventStore.Indices.{add_tag_position}
use marmosa.EventStore.Read.{read_async}

pub record AddTagsResult : Type 0 where
  pub tags_added : ℕ
  pub events_processed : ℕ

-- `record.event.tags.push(tag)`
unfoldable pub push_tag : Tag → EventRecord → EventRecord
push_tag tag r = record r { event = record r.event { tags = r.event.tags ++ tag ∷ [] } }

module _ (p : Platform) where
  open p use {event_json, backend}
  open p.backend use {State}

  -- The loop over the new tags of one event: a tag is added if the event has none of its key.
  unfoldable pub add_new_tags : List Tag → EventRecord → ℕ → Exec State (EventRecord × ℕ)
  unfolding push_tag
  add_new_tags [] r added = pure (r, added)
  add_new_tags (tag ∷ tags) r added =
      let skip = add_new_tags tags r added in
      let push = add_new_tags tags (push_tag tag r) (suc added) in
      if any (λ t. t.key == tag.key) r.event.tags
      then skip
      else (do ignore (add_tag_position p (str "Indices") tag r.position); push)

  -- One round of the loop over the events: the number of tags that were added.
  unfoldable pub tag_event : (EventRecord → List Tag) → EventRecord → Exec State ℕ
  unfolding add_new_tags
  tag_event tag_factory r = do
    found ← add_new_tags (tag_factory r) r 0
    if ltb 0 found.1
        then (do
          content ← ok_or io_error (event_json.to_vec found.0)
          ignore (backend.write_file (event_file (str "Events") r.position) content)
          pure found.1)
        else pure 0

  -- The loop over the events
  unfoldable pub tag_events :
      (EventRecord → List Tag) → List EventRecord → AddTagsResult → Exec State AddTagsResult
  unfolding tag_event
  tag_events tag_factory [] result = pure result
  tag_events tag_factory (r ∷ rs) result = do
    added ← tag_event tag_factory r
    tag_events tag_factory rs (record {
      tags_added = result.tags_added + added;
      events_processed = suc result.events_processed;
    })

  -- `add_tags`
  unfoldable pub add_tags : Str → (EventRecord → List Tag) → Exec State AddTagsResult
  unfolding tag_events
  add_tags event_type tag_factory = if is_empty event_type then fail io_error else (do
    events ←
        read_async p (record { items = record { event_types = event_type ∷ []; tags = [] } ∷ [] })
          none none none
    tag_events tag_factory events (record { tags_added = 0; events_processed = 0 }))
