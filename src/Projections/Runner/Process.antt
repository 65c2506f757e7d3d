-- ===== src/Projections/Runner/Process.antt =====
-- src/projections.rs: the checkpoint of a `ProjectionRunner`, and `process_events_internal` with it.
use marmosa.Common.{
  ℕ, ◌≡◌, refl, Bool, true, false, ◌||◌, Option, none, some, List, arith, Str, str, ◌==◌, list_eq,
  ltb, All, Bool-cases, Option-cases, inl, inr, if◌then◌else◌, nat_eq,
}
use marmosa.Domain.{EventRecord, Query}
use marmosa.Exec.{Exec, pure}
use marmosa.Exec.Rules.{Runs}
use marmosa.Ports.{Platform, Disk, IsReliable, IsLossless}
use marmosa.Projections.{ProjectionDefinition, ProjectionStore, ProjectionCheckpoint, Formats}
use marmosa.Projections.Contract.{
  Only, Only-of_eq, Only-trans, Only-write, Only-mono, States, IsKeyedStore,
}
use marmosa.Projections.Runner.{
  EventReader, checkpoint_path, get_checkpoint, checkpoint_of, save_checkpoint, or_start,
  process_events_with_store,
}
use marmosa.Projections.Runner.Fold.{checkpoint_after, states_after}
use marmosa.Projections.Runner.Steps.{Answers, HasKey, process_each_lem}

module _ (p : Platform) (reliable : IsReliable p.backend) {S : Type 0} (formats : Formats p.Bytes S)
    (projection : ProjectionDefinition S) (store : ProjectionStore p.backend.State S) where
  open p.backend use {State}
  open reliable use {view}

  abbrev path : Str
  path = checkpoint_path p formats projection store

  -- The checkpoint in a storage: `some none` if there is no file, `none` if it cannot be parsed.
  unfoldable pub checkpoint_in : Option p.Bytes → Option (Option ProjectionCheckpoint)
  checkpoint_in none = some none
  checkpoint_in (some c) = elim (formats.checkpoint_json.from_slice c) [
    | none ↦ none
    | some found ↦ some (some found)
  ]

  abbrev pub HasCheckpoint : Disk p.Bytes → Option ProjectionCheckpoint → Type 0
  HasCheckpoint d found = checkpoint_in (d.file path) ≡ some found

  pub get_checkpoint_lem :
      (found : Option ProjectionCheckpoint) (w : State)
      → HasCheckpoint (view w) found
      → Runs
          (get_checkpoint p formats projection store w)
          (λ c w'. (c ≡ found) × (view w' ≡ view w))
  unfolding get_checkpoint checkpoint_in
  get_checkpoint_lem found w h = elim (Option-cases ((view w).file path)) [
    | inl miss ↦
        let (w', e, v) = reliable.read_file_miss path w miss in
        (found, w', ground (arith, e, h, miss), (refl, v))
    | inr (c, hit) ↦
        let (a, w', e, (same, v)) = reliable.read_file_hit path w c hit in
        (found, w', ground (arith, e, same, h, hit), (refl, v))
  ]

  module _ (lossless : IsLossless formats.checkpoint_json) where
    pub save_checkpoint_lem :
        (position total : ℕ) (w : State)
        → Runs (save_checkpoint p formats projection store position total w) (λ _ w'.
          HasCheckpoint (view w') (some (checkpoint_of p formats projection store position total))
          × Only (λ q. q == path) (view w) (view w'))
    unfolding save_checkpoint checkpoint_in
    save_checkpoint_lem position total w =
        let (u1, w1, e1, v1) = reliable.create_dir_all_law (str "Projections/_checkpoints") w in
        let (c, written, read) =
          lossless.round_trip (checkpoint_of p formats projection store position total) in
        let (u2, w2, e2, v2) = reliable.write_file_law path c w1 in
        let whole : (path == path) ≡ true = ((list_eq {A = ℕ}).beq_iff path path).1 refl in
        (
          tt,
          w2,
          ground (arith, e1, written, e2),
          (
            rw (v2, checkpoint_in, whole, read) refl,
            Only-trans _ (Only-of_eq _ v1) (Only-write _ path c v2 whole),
          ),
        )

    -- The checkpoint that a run leaves
    abbrev pub final_checkpoint :
        Option ProjectionCheckpoint → ProjectionCheckpoint → Option ProjectionCheckpoint
    final_checkpoint found c =
        if ltb 0 c.last_position
        then some
            (checkpoint_of p formats projection store c.last_position c.total_events_processed)
        else found

    module _ (keyed : IsKeyedStore p reliable.view store) (apart : keyed.owns path ≡ false) where
      -- The files of the states and of the checkpoint
      abbrev pub touched : Str → Bool
      touched q = keyed.owns q || q == path

      pub Holds-checkpoint :
          (states : States S) (d d' : Disk p.Bytes)
          → Only (λ q. q == path) d d'
          → keyed.Holds states d
          → keyed.Holds states d'
      Holds-checkpoint states d d' o h =
          keyed.Holds-others states d d'
            (λ q own. o.files q (ground (arith, own, apart, (list_eq {A = ℕ}).beq_iff q path))) h

      module _ (event_store : Option (EventReader State)) (related : Query → List EventRecord)
          (inv : Disk p.Bytes → Type 0)
          (stable : (d d' : Disk p.Bytes) → Only keyed.owns d d' → inv d → inv d') where
        -- The end of a run: the checkpoint is saved if it stands behind a position.
        finish : Option ProjectionCheckpoint → ProjectionCheckpoint → Exec State (Unit {0})
        finish found c =
            if ltb 0 c.last_position
            then save_checkpoint p formats projection store c.last_position c.total_events_processed
            else pure tt

        finish_lem :
            (found : Option ProjectionCheckpoint) (c : ProjectionCheckpoint) (states : States S)
            (w : State)
            → HasCheckpoint (view w) found
            → keyed.Holds states (view w)
            → Runs (finish found c w) (λ _ w'.
              HasCheckpoint (view w') (final_checkpoint found c)
              × keyed.Holds states (view w')
              × Only (λ q. q == path) (view w) (view w'))
        unfolding finish
        finish_lem found c states w has h = elim (Bool-cases (ltb 0 c.last_position)) [
          | inl behind ↦
              let (u, w', e, (has', o)) =
                save_checkpoint_lem c.last_position c.total_events_processed w in
              rw (finish, behind) (u, w', e, (has', Holds-checkpoint states _ _ o h, o))
          | inr start ↦ rw (finish, start) (tt, w, refl, (has, h, Only-of_eq _ refl))
        ]

        pub process_events_with_store_lem :
            (rs : List EventRecord) (found : Option ProjectionCheckpoint) (states : States S)
            (w : State)
            → All (HasKey p reliable formats projection store keyed) rs
            → All (Answers p reliable formats projection store keyed event_store related inv) rs
            → HasCheckpoint (view w) found
            → inv (view w)
            → keyed.Holds states (view w)
            → Runs
                (process_events_with_store p formats projection store rs event_store w)
                (λ position w'.
                  let start = or_start p formats projection store found in
                  let c = checkpoint_after projection related rs start in
                  (position ≡ c.last_position)
                  × HasCheckpoint (view w') (final_checkpoint found c)
                  × keyed.Holds (states_after projection related rs start states) (view w')
                  × Only touched (view w) (view w'))
        unfolding process_events_with_store finish
        process_events_with_store_lem rs found states w k a has i h =
            let (c0, w0, e0, (same0, v0)) = get_checkpoint_lem found w has in
            let start = or_start p formats projection store found in
            let (c1, w1, e1, (same1, h1, o1)) =
              process_each_lem p reliable formats projection store keyed event_store related inv
                stable rs start states w0 k a (rw v0 i) (rw v0 h) in
            let c : ProjectionCheckpoint = checkpoint_after projection related rs start in
            let has1 : HasCheckpoint (view w1) found = rw (o1.files path apart, v0) has in
            let (u2, w2, e2, (has2, h2, o2)) =
              finish_lem found c (states_after projection related rs start states) w1 has1 h1 in
            (
              c.last_position,
              w2,
              ground (arith, e0, same0, e1, same1, e2),
              (
                refl,
                has2,
                h2,
                Only-trans _ (Only-of_eq _ v0) (
                    Only-trans _ (Only-mono _ _ (λ q n. ground (arith, n)) o1)
                      (Only-mono _ _ (λ q n. ground (arith, n)) o2)),
              ),
            )
