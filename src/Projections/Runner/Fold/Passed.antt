-- ===== src/Projections/Runner/Fold/Passed.antt =====
-- src/projections.rs: what the loop leaves of the checkpoint, and events that it has passed.
use marmosa.Common.{◌≡◌, refl, ap, ◌∙◌, List, [], ◌∷◌, ◌++◌, arith, list_eq, nat_eq}
use marmosa.Domain.{EventRecord, Query}
use marmosa.Projections.{ProjectionDefinition, ProjectionCheckpoint}
use marmosa.Projections.Contract.{States}
use marmosa.Projections.Runner.{is_old, count}
use marmosa.Projections.Runner.Fold.{
  max_of, furthest, next_checkpoint, next_states, checkpoint_after, states_after, AllOld,
}

module _ {S : Type 0} (projection : ProjectionDefinition S)
    (related : Query → List EventRecord) where
  next_checkpoint-max :
      (r : EventRecord) (c : ProjectionCheckpoint)
      → (next_checkpoint projection related r c).last_position ≡ max_of c.last_position r.position
  unfolding next_checkpoint count is_old
  next_checkpoint-max r c = ground arith

  next_states-position :
      (r : EventRecord) (c c' : ProjectionCheckpoint) (states : States S)
      → c.last_position ≡ c'.last_position
      → next_states projection related r c states ≡ next_states projection related r c' states
  unfolding next_states is_old
  next_states-position r c c' states e = rw (next_states, is_old, e) refl

  pub checkpoint_after-furthest :
      (rs : List EventRecord) (c : ProjectionCheckpoint)
      → (checkpoint_after projection related rs c).last_position ≡ furthest c.last_position rs
  unfolding checkpoint_after furthest
  checkpoint_after-furthest [] c = refl
  checkpoint_after-furthest (r ∷ rs) c =
      checkpoint_after-furthest rs (next_checkpoint projection related r c)
      ∙ ap (λ n. furthest n rs) (next_checkpoint-max r c)

  pub states_after-old :
      (rs : List EventRecord) (c : ProjectionCheckpoint) (states : States S)
      → AllOld projection related c rs
      → states_after projection related rs c states ≡ states
  unfolding states_after next_states next_checkpoint
  states_after-old [] c states old = refl
  states_after-old (r ∷ rs) c states old =
      rw (states_after, next_states, next_checkpoint, old.0) (states_after-old rs c states old.1)

  pub checkpoint_after-old :
      (rs : List EventRecord) (c : ProjectionCheckpoint)
      → AllOld projection related c rs
      → checkpoint_after projection related rs c ≡ c
  unfolding checkpoint_after next_checkpoint
  checkpoint_after-old [] c old = refl
  checkpoint_after-old (r ∷ rs) c old =
      rw (checkpoint_after, next_checkpoint, old.0) (checkpoint_after-old rs c old.1)

  pub states_after-append :
      (rs rs' : List EventRecord) (c : ProjectionCheckpoint) (states : States S)
      → states_after projection related (rs ++ rs') c states
        ≡ states_after projection related rs'
            (checkpoint_after projection related rs c)
            (states_after projection related rs c states)
  unfolding states_after checkpoint_after
  states_after-append [] rs' c states = refl
  states_after-append (r ∷ rs) rs' c states =
      states_after-append rs rs' (next_checkpoint projection related r c)
        (next_states projection related r c states)

  -- Only the position of the checkpoint counts.
  pub states_after-position :
      (rs : List EventRecord) (c c' : ProjectionCheckpoint) (states : States S)
      → c.last_position ≡ c'.last_position
      → states_after projection related rs c states ≡ states_after projection related rs c' states
  unfolding states_after
  states_after-position [] c c' states e = refl
  states_after-position (r ∷ rs) c c' states e =
      let same : next_states projection related r c states
          ≡ next_states projection related r c' states =
        next_states-position r c c' states e in
      let moved : (next_checkpoint projection related r c).last_position
          ≡ (next_checkpoint projection related r c').last_position =
        ground (arith, e, next_checkpoint-max r c, next_checkpoint-max r c') in
      ap (states_after projection related rs (next_checkpoint projection related r c)) same
      ∙ states_after-position rs (next_checkpoint projection related r c)
          (next_checkpoint projection related r c') (next_states projection related r c' states)
          moved
