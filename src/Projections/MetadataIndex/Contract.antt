-- ===== src/Projections/MetadataIndex/Contract.antt =====
-- src/projections.rs: `get` of `ProjectionMetadataIndex` behind `save`.
use marmosa.Common.{
  ℕ, ◌≡◌, refl, ap, ◌∙◌, true, false, none, some, List, [], ◌∷◌, arith, any, Str, ◌==◌, list_eq,
  contains, if◌then◌else◌, nat_eq,
}
use marmosa.Exec.Rules.{Runs}
use marmosa.Ports.{Platform, IsReliable, Codec}
use marmosa.InMemory.Map
use marmosa.Projections.{ProjectionMetadata}
use marmosa.Projections.MetadataIndex.{Index, get_lock_key, save_metadata, get_metadata}
use marmosa.Projections.MetadataIndex.Laws.{
  needs_escape, IsBorrowing, index_at, read_index_lem, save_metadata_lem,
}

any-escape :
    (key : Str) (keys : List Str)
    → needs_escape key ≡ true
    → contains key keys ≡ true
    → any needs_escape keys ≡ true
any-escape key [] bad h = cc
any-escape key (k ∷ keys) bad h = ground (
  arith,
  h,
  any-escape key keys bad,
  (list_eq {A = ℕ}).beq_iff k key,
  ap needs_escape {x = k} {y = key},
)

module _ (p : Platform) (index_json : Codec p.Bytes Index) (reliable : IsReliable p.backend)
    (borrowing : IsBorrowing index_json) where
  open p.backend use {State}
  open reliable use {view}

  -- If no task holds the lock of the index, and neither the new key nor one that the index has needs
  -- an escape in JSON, the metadata is saved: after that the key yields it, and each other key what
  -- it had.
  pub get-save_metadata :
      (root key other : Str) (metadata : ProjectionMetadata) (w : State)
      → (view w).locked (get_lock_key root) ≡ false
      → any needs_escape (Map.keys (Map.insert key metadata (index_at p index_json (view w) root)))
        ≡ false
      → Runs (save_metadata p index_json root key metadata w) (λ _ w'.
        Runs (get_metadata p index_json root other w') (λ found _. found ≡ (
          if other == key
          then some metadata
          else Map.get other (index_at p index_json (view w) root))))
  unfolding get_metadata
  get-save_metadata root key other metadata w free clean =
      let old : Index = index_at p index_json (view w) root in
      let (u, w1, e1, (now, locks)) =
        save_metadata_lem p index_json reliable borrowing root key metadata w free in
      let (index, w2, e2, (same, v2)) = read_index_lem p index_json reliable borrowing root w1 in
      let whole : index ≡ Map.insert key metadata old = same ∙ (now ∙ rw clean refl) in
      (
        u,
        w1,
        e1,
        (
          Map.get other index,
          w2,
          ground (arith, e2),
          ap (Map.get other) whole ∙ Map.get-insert other key metadata old,
        ),
      )

  -- If no task holds the lock of the index, metadata is saved under a key that needs an escape in
  -- JSON, and `save` reports success; after that no key yields any metadata, not even one that had
  -- some before.
  pub get-save_metadata_escaped :
      (root key other : Str) (metadata : ProjectionMetadata) (w : State)
      → (view w).locked (get_lock_key root) ≡ false
      → needs_escape key ≡ true
      → Runs
          (save_metadata p index_json root key metadata w)
          (λ _ w'. Runs (get_metadata p index_json root other w') (λ found _. found ≡ none))
  unfolding get_metadata
  get-save_metadata_escaped root key other metadata w free escaped =
      let old : Index = index_at p index_json (view w) root in
      let (u, w1, e1, (now, locks)) =
        save_metadata_lem p index_json reliable borrowing root key metadata w free in
      let (index, w2, e2, (same, v2)) = read_index_lem p index_json reliable borrowing root w1 in
      let new : Index = Map.insert key metadata old in
      let there : contains key (Map.keys new) ≡ true = ground (
        arith,
        Map.contains-keys key new,
        Map.get-insert key key metadata old,
        (list_eq {A = ℕ}).beq_iff key key,
      ) in
      let lost : index ≡ Map.empty =
        same ∙ (now ∙ rw (any-escape key (Map.keys new) escaped there) refl) in
      (
        u,
        w1,
        e1,
        (
          Map.get other index,
          w2,
          ground (arith, e2),
          ap (Map.get other) lost ∙ Map.get-empty other,
        ),
      )
