-- ===== src/Projections/MetadataIndex/Since.antt =====
-- src/projections.rs: `get_updated_since` of `ProjectionMetadataIndex` behind `save`.
use marmosa.Common.{
  ℕ, ◌≡◌, refl, ap, ◌∙◌, false, Option, none, some, List, [], ◌∷◌, arith, any, Str, ◌==◌, list_eq,
  leb, contains, Bool-cases, inl, inr, Distinct, if◌then◌else◌, nat_eq,
}
use marmosa.Exec.Rules.{Runs}
use marmosa.Ports.{Platform, IsReliable, Codec, is_some}
use marmosa.InMemory.Map
use marmosa.Projections.{ProjectionMetadata}
use marmosa.Projections.MetadataIndex.{
  Index, get_lock_key, updated_since, save_metadata, get_updated_since,
}
use marmosa.Projections.MetadataIndex.Laws.{
  needs_escape, IsBorrowing, index_at, read_index_lem, save_metadata_lem,
}

-- Metadata that is not older than a time
abbrev pub recent : ℕ → Option ProjectionMetadata → Option ProjectionMetadata
recent cutoff none = none
recent cutoff (some v) = if leb cutoff v.last_updated_at then some v else none

absent : (k : Str) (m : List (Str × ProjectionMetadata)) → Map.KeysAbove k m → Map.lookup k m ≡ none
absent k m above = ground (arith, Map.contains-entry_keys k m, Map.absent_above k m above)

lookup-updated_since :
    (cutoff : ℕ) (k : Str) (m : List (Str × ProjectionMetadata))
    → Map.Ordered m
    → Map.lookup k (updated_since cutoff m) ≡ recent cutoff (Map.lookup k m)
unfolding Map.lookup updated_since
lookup-updated_since cutoff k [] up = refl
lookup-updated_since cutoff k ((j, v) ∷ m) (above, up) = elim (Bool-cases (k == j)) [
  | inl same ↦
      let e : k ≡ j = ((list_eq {A = ℕ}).beq_iff k j).0 same in
      let gone : Map.lookup k m ≡ none = absent k m (rw e above) in
      let rest : Map.lookup k (updated_since cutoff m) ≡ none =
        lookup-updated_since cutoff k m up ∙ ap (recent cutoff) gone in
      elim (Bool-cases (leb cutoff v.last_updated_at)) [
        | inl new ↦ rw (new, same) (rw new refl)
        | inr old ↦ rw (old, same) (rw (old, rest) refl)
      ]
  | inr differ ↦ elim (Bool-cases (leb cutoff v.last_updated_at)) [
    | inl new ↦ rw (new, differ) (lookup-updated_since cutoff k m up)
    | inr old ↦ rw (old, differ) (lookup-updated_since cutoff k m up)
  ]
]

updated_since-Distinct :
    (cutoff : ℕ) (m : List (Str × ProjectionMetadata))
    → Map.Ordered m
    → Distinct (Map.entry_keys (updated_since cutoff m))
unfolding Map.entry_keys updated_since
updated_since-Distinct cutoff [] up = tt
updated_since-Distinct cutoff ((j, v) ∷ m) (above, up) =
    let rest = updated_since-Distinct cutoff m up in
    let gone : Map.lookup j (updated_since cutoff m) ≡ none =
      lookup-updated_since cutoff j m up ∙ ap (recent cutoff) (absent j m above) in
    let missing : contains j (Map.entry_keys (updated_since cutoff m)) ≡ false =
      Map.contains-entry_keys j (updated_since cutoff m) ∙ ap is_some gone in
    elim (Bool-cases (leb cutoff v.last_updated_at)) [
      | inl new ↦ rw new (missing, rest)
      | inr old ↦ rw old rest
    ]

module _ (p : Platform) (index_json : Codec p.Bytes Index) (reliable : IsReliable p.backend)
    (borrowing : IsBorrowing index_json) where
  open p.backend use {State}
  open reliable use {view}

  -- If no task holds the lock of the index, and neither the new key nor one that the index has needs
  -- an escape in JSON, then after the metadata is saved a query for a time gives each key at most
  -- once: the new key with the new metadata, and each other key with what it had, just those whose
  -- last update is not before the time.
  pub get_updated_since-save_metadata :
      (root key : Str) (metadata : ProjectionMetadata) (cutoff_time : ℕ) (w : State)
      → (view w).locked (get_lock_key root) ≡ false
      → any needs_escape (Map.keys (Map.insert key metadata (index_at p index_json (view w) root)))
        ≡ false
      → Runs (save_metadata p index_json root key metadata w) (λ _ w1.
        Runs (get_updated_since p index_json root cutoff_time w1) (λ found _.
          Distinct (Map.entry_keys found)
          × ((k : Str)
              → Map.lookup k found
                ≡ recent cutoff_time (
                    if k == key
                    then some metadata
                    else Map.get k (index_at p index_json (view w) root)))))
  unfolding get_updated_since Map.get
  get_updated_since-save_metadata root key metadata cutoff_time w free clean =
      let old : Index = index_at p index_json (view w) root in
      let (u, w1, e1, (now, locks)) =
        save_metadata_lem p index_json reliable borrowing root key metadata w free in
      let (index, w2, e2, (same, v2)) = read_index_lem p index_json reliable borrowing root w1 in
      let whole : index ≡ Map.insert key metadata old = same ∙ (now ∙ rw clean refl) in
      (
        u,
        w1,
        e1,
        (
          updated_since cutoff_time index.entries,
          w2,
          ground (arith, e2),
          (
            updated_since-Distinct cutoff_time index.entries index.ordered,
            λ k.
                lookup-updated_since cutoff_time k index.entries index.ordered
                ∙ ap (recent cutoff_time)
                    (ap (Map.get k) whole ∙ Map.get-insert k key metadata old),
          ),
        ),
      )
