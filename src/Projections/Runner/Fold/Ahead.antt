-- ===== src/Projections/Runner/Fold/Ahead.antt =====
-- src/projections.rs: the states behind ascending events, of which none that counts is old.
use marmosa.Common.{
  ℕ, suc, ◌<◌, ◌≡◌, ◌⊎◌, inl, inr, refl, ◌∙◌, false, ◌&&◌, Option, none, some, List, [], ◌∷◌, arith,
  Str, ◌==◌, list_eq, ltb, All, Bool-cases, if◌then◌else◌, nat_eq,
}
use marmosa.Domain.{EventRecord, Query, matches}
use marmosa.Projections.{ProjectionDefinition, ProjectionCheckpoint}
use marmosa.Projections.Contract.{States}
use marmosa.Projections.Runner.{is_old, count}
use marmosa.Projections.Runner.Fold.{
  Ascending, selects, next_state, put_next, next_checkpoint, next_states, states_after, fold_state,
  relevant,
}

module _ {S : Type 0} (projection : ProjectionDefinition S)
    (related : Query → List EventRecord) where
  put_next-selects :
      (selected : Option Str) (r : EventRecord) (states : States S) (key : Str)
      → put_next projection related selected r states key ≡ (
          if elim selected [ none ↦ false | some k ↦ key == k ]
          then next_state projection related (states key) r
          else states key)
  unfolding put_next
  put_next-selects none r states key = refl
  put_next-selects (some k) r states key = elim (Bool-cases (key == k)) [
    | inl same ↦ let e : key ≡ k = ((list_eq {A = ℕ}).beq_iff key k).0 same in rw (same, e) refl
    | inr differ ↦ rw differ
  ]

  -- Behind a position that the checkpoint has not passed, no event is old.
  not_old_ahead :
      (n : ℕ) (rs : List EventRecord) (c : ProjectionCheckpoint)
      → (c.last_position < n) ⊎ (c.last_position ≡ 0)
      → Ascending n rs
      → All (λ r. is_old c r ≡ false) rs
  unfolding is_old
  not_old_ahead n [] c h up = tt
  not_old_ahead n (r ∷ rs) c h (at, up) = (
    ground (arith, h, at),
    not_old_ahead (suc r.position) rs c (elim h [ inl l ↦ inl (omega arith) | inr z ↦ inr z ]) up,
  )

  relevant_ahead :
      (key : Str) (n : ℕ) (rs : List EventRecord) (c c' : ProjectionCheckpoint)
      → (c.last_position < n) ⊎ (c.last_position ≡ 0)
      → (c'.last_position < n) ⊎ (c'.last_position ≡ 0)
      → Ascending n rs
      → relevant projection related c' key rs ≡ relevant projection related c key rs
  relevant_ahead key n [] c c' h h' up = refl
  relevant_ahead key n (r ∷ rs) c c' h h' up =
      let a = not_old_ahead n (r ∷ rs) c h up in
      let a' = not_old_ahead n (r ∷ rs) c' h' up in
      let rest =
        relevant_ahead key (suc r.position) rs c c'
          (elim h [ inl l ↦ inl (omega arith) | inr z ↦ inr z ])
          (elim h' [ inl l ↦ inl (omega arith) | inr z ↦ inr z ]) up.1 in
      ground (arith, a.0, a'.0, rest)

  not_old_below :
      (c : ProjectionCheckpoint) (r : EventRecord)
      → is_old c r ≡ false
      → (c.last_position < suc r.position) ⊎ (c.last_position ≡ 0)
  unfolding is_old
  not_old_below c r new = elim (Bool-cases (ltb 0 c.last_position)) [
    | inl started ↦ inl (ground (arith, new))
    | inr fresh ↦ inr (ground arith)
  ]

  -- An event that is not old moves the checkpoint to its position.
  next_checkpoint-new :
      (r : EventRecord) (c : ProjectionCheckpoint)
      → is_old c r ≡ false
      → (next_checkpoint projection related r c).last_position ≡ r.position
  unfolding next_checkpoint count
  next_checkpoint-new r c new = ground (arith, new)

  next_states-new :
      (r : EventRecord) (c : ProjectionCheckpoint) (states : States S) (key : Str)
      → is_old c r ≡ false
      → next_states projection related r c states key ≡ (
          if matches projection.event_types r && selects projection key r
          then next_state projection related (states key) r
          else states key)
  unfolding next_states
  next_states-new r c states key new =
      ground (arith, new, put_next-selects (projection.key_selector r) r states key)

  -- The state of a key behind ascending events
  pub states_after-fold :
      (key : Str) (n : ℕ) (rs : List EventRecord) (c : ProjectionCheckpoint) (states : States S)
      → Ascending n rs
      → states_after projection related rs c states key
        ≡ fold_state projection related (states key) (relevant projection related c key rs)
  unfolding states_after fold_state
  states_after-fold key n [] c states up = refl
  states_after-fold key n (r ∷ rs) c states (at, up) = elim (Bool-cases (is_old c r)) [
    | inl old ↦
        rw (old, next_states, next_checkpoint)
          (states_after-fold key (suc r.position) rs c states up)
    | inr new ↦
        let c' : ProjectionCheckpoint = next_checkpoint projection related r c in
        let moved = next_checkpoint-new r c new in
        let ahead =
          relevant_ahead key (suc r.position) rs c c' (not_old_below c r new)
            (inl (omega (arith, moved))) up in
        states_after-fold key (suc r.position) rs c' (next_states projection related r c states) up
        ∙ ground (arith, new, ahead, next_states-new r c states key new)
  ]
