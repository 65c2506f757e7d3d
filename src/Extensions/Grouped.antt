-- ===== src/Extensions/Grouped.antt =====
-- src/extensions.rs: the loop of `build_projections`, key by key.
use marmosa.Common.{
  ℕ, ◌≡◌, refl, Option, none, some, List, [], ◌∷◌, arith, Str, ◌==◌, nat_eq, list_eq, if◌then◌else◌,
  Option-cases, inl, inr,
}
use marmosa.Domain.{EventRecord}
use marmosa.InMemory.Map
use marmosa.InMemory.Map.{BTreeMap}
use marmosa.Extensions.{current_state, group_events}

module _ {S : Type 0} (key_selector : EventRecord → Option Str)
    (apply_event : Option S → EventRecord → Option S) where
  -- The events of one key, applied in their order; nothing if there is none.
  abbrev pub apply_own : Str → List EventRecord → Option (Option S) → Option (Option S)
  apply_own key [] state = state
  apply_own key (e ∷ es) state = elim (key_selector e) [
    | none ↦ apply_own key es state
    | some k ↦
        (if key == k
          then apply_own key es (some (apply_event (elim state [ none ↦ none | some s ↦ s ]) e))
          else apply_own key es state)
  ]

  -- Of each key the loop keeps the state that the events of this key alone give, in their order,
  -- however the events of other keys are mixed in.
  pub group_events-own :
      (key : Str) (events : List EventRecord) (states : BTreeMap (Option S))
      → Map.get key (group_events key_selector apply_event events states)
        ≡ apply_own key events (Map.get key states)
  unfolding group_events current_state
  group_events-own key [] states = refl
  group_events-own key (e ∷ es) states = elim (Option-cases (key_selector e)) [
    | inl nothing ↦ ground (arith, nothing, group_events-own key es states)
    | inr (k, found) ↦
        let next = apply_event (current_state key_selector apply_event (Map.get k states)) e in
        let later = group_events-own key es (Map.insert k next (Map.remove k states)) in
        ground (
          arith,
          found,
          later,
          Map.get-insert key k next (Map.remove k states),
          Map.get-remove key k states,
          (list_eq {A = ℕ}).beq_iff key k,
        )
  ]
