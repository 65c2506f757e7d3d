-- ===== src/Projections/Runner/Fold.antt =====
-- src/projections.rs: what the loop of `process_events_internal` computes, as functions of the
-- events, the checkpoint and the states of all keys, without a storage.
pub mod Ahead
pub mod Passed
use marmosa.Common.{
  ℕ, suc, ◌≤◌, ◌≡◌, refl, Bool, true, false, not, ◌&&◌, Option, none, some, List, [], ◌∷◌, ◌++◌,
  arith, Str, ◌==◌, ltb, retain, All, if◌then◌else◌, list_eq, nat_eq,
}
use marmosa.Domain.{EventRecord, Query, matches}
use marmosa.Projections.{ProjectionDefinition, ProjectionCheckpoint}
use marmosa.Projections.Contract.{States, updated}
use marmosa.Projections.Runner.{is_old, count}

-- The positions rise, from `n` on.
abbrev pub Ascending : ℕ → List EventRecord → Type 0
Ascending n [] = Unit
Ascending n (r ∷ rs) = (n ≤ r.position) × Ascending (suc r.position) rs

abbrev pub max_of : ℕ → ℕ → ℕ
max_of m n = if ltb m n then n else m

-- The highest position
unfoldable pub furthest : ℕ → List EventRecord → ℕ
furthest n [] = n
furthest n (r ∷ rs) = furthest (max_of n r.position) rs

-- The event selects the key.
abbrev pub selects : {S : Type 0} → ProjectionDefinition S → Str → EventRecord → Bool
selects projection key r = elim (projection.key_selector r) [ none ↦ false | some k ↦ key == k ]

pub furthest_bounds :
    (n : ℕ) (rs : List EventRecord) → (n ≤ furthest n rs) × All (λ r. r.position ≤ furthest n rs) rs
unfolding furthest
furthest_bounds n [] = (omega arith, tt)
furthest_bounds n (r ∷ rs) =
    let (low, high) = furthest_bounds (max_of n r.position) rs in
    (ground (arith, low), (ground (arith, low), high))

pub furthest-append :
    (n : ℕ) (rs rs' : List EventRecord) → furthest n (rs ++ rs') ≡ furthest (furthest n rs) rs'
unfolding furthest
furthest-append n [] rs' = refl
furthest-append n (r ∷ rs) rs' = furthest-append (max_of n r.position) rs rs'

module _ {S : Type 0} (projection : ProjectionDefinition S)
    (related : Query → List EventRecord) where
  abbrev pub asked : EventRecord → Option Query
  asked r = elim projection.as_related_events [
    | none ↦ none
    | some as_related ↦ as_related.get_related_events_query r
  ]

  abbrev pub answer : Option Query → List EventRecord
  answer none = []
  answer (some query) = related query

  -- The state behind an event
  unfoldable pub next_state : Option S → EventRecord → Option S
  next_state current r = elim projection.as_related_events [
    | none ↦ projection.apply current r
    | some as_related ↦
        as_related.apply_with_related current r (answer (as_related.get_related_events_query r))
  ]

  unfoldable pub put_next : Option Str → EventRecord → States S → States S
  put_next none r states = states
  put_next (some key) r states = updated key (next_state (states key) r) states

  unfoldable pub next_checkpoint : EventRecord → ProjectionCheckpoint → ProjectionCheckpoint
  next_checkpoint r c =
      if is_old c r
      then c
      else if not (matches projection.event_types r)
      then record c { last_position = r.position }
      else count r c

  unfoldable pub next_states : EventRecord → ProjectionCheckpoint → States S → States S
  unfolding put_next
  next_states r c states =
      if is_old c r
      then states
      else if not (matches projection.event_types r)
      then states
      else put_next (projection.key_selector r) r states

  unfoldable pub checkpoint_after : List EventRecord → ProjectionCheckpoint → ProjectionCheckpoint
  unfolding next_checkpoint
  checkpoint_after [] c = c
  checkpoint_after (r ∷ rs) c = checkpoint_after rs (next_checkpoint r c)

  unfoldable pub states_after : List EventRecord → ProjectionCheckpoint → States S → States S
  unfolding next_states next_checkpoint
  states_after [] c states = states
  states_after (r ∷ rs) c states = states_after rs (next_checkpoint r c) (next_states r c states)

  -- The state that events leave of one
  unfoldable pub fold_state : Option S → List EventRecord → Option S
  fold_state current [] = current
  fold_state current (r ∷ rs) = fold_state (next_state current r) rs

  -- The events that count for a key, behind a checkpoint
  abbrev pub relevant : ProjectionCheckpoint → Str → List EventRecord → List EventRecord
  relevant c key rs =
      retain
        (λ r. not (is_old c r) && (matches projection.event_types r && selects projection key r)) rs

  -- Every event is behind the checkpoint.
  abbrev pub AllOld : ProjectionCheckpoint → List EventRecord → Type 0
  AllOld c rs = All (λ r. is_old c r ≡ true) rs
