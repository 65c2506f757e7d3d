-- ===== src/Projections/Runner/Rebuild.antt =====
-- src/projections.rs: `rebuild`, with the event store of src/event_store/mod.rs.
use marmosa.Common.{
  ℕ, ◌≡◌, refl, ap, ◌∙◌, Bool, true, false, ◌||◌, none, some, List, arith, Str, str, ◌==◌, list_eq,
  All, fun_ext, nat_eq,
}
use marmosa.Common.Every.{All-mono}
use marmosa.Domain.{EventRecord, Query, query_all}
use marmosa.Exec.Rules.{Runs}
use marmosa.Ports.{Platform, Disk, IsLawful, IsLossless, is_child, lock}
use marmosa.EventStore.Indices.Laws.{index_at}
use marmosa.EventStore.Log.{Represents, IsIndexFile}
use marmosa.EventStore.Log.Exact.{matching, IsPrecise}
use marmosa.EventStore.Read.{read_async, is_descending}
use marmosa.EventStore.Contract.{read_async-exact, query_all-IsPrecise, matching-query_all}
use marmosa.Projections.{ProjectionDefinition, ProjectionStore, ProjectionCheckpoint, Formats}
use marmosa.Projections.Contract.{Only, Only-trans, Only-mono, States, nothing_stored, IsKeyedStore}
use marmosa.Projections.Runner.{
  checkpoint_path, checkpoint_of, reset, wind_up, rebuild_locked, rebuild, rebuild_lock,
}
use marmosa.Projections.Runner.Fold.{checkpoint_after, states_after, asked}
use marmosa.Projections.Runner.Steps.{Answers, HasKey}
use marmosa.Projections.Runner.Process.{
  HasCheckpoint, save_checkpoint_lem, process_events_with_store_lem, Holds-checkpoint,
}

module _ (p : Platform) (log : List EventRecord) where
  -- The answers of the event store
  abbrev pub related_in_log : Query → List EventRecord
  related_in_log query = matching query none log

  -- The index files are exact for the query of related events of an event.
  abbrev pub AsksPrecisely : {S : Type 0} → ProjectionDefinition S → EventRecord → Type 0
  AsksPrecisely projection r =
      (query : Query) → asked projection related_in_log r ≡ some query → IsPrecise p query log

  -- The files of the event store are not touched.
  abbrev pub SparesEvents : (Str → Bool) → Type 0
  SparesEvents f =
      ((q : Str) → is_child (str "Events/") q ≡ true → f q ≡ false)
      × ((q : Str) → IsIndexFile q → f q ≡ false)

  pub Represents-files :
      (f : Str → Bool) (d d' : Disk p.Bytes)
      → SparesEvents f
      → ((q : Str) → f q ≡ false → d'.file q ≡ d.file q)
      → Represents p log d
      → Represents p log d'
  unfolding index_at
  Represents-files f d d' spares same rep = record {
    numbered = rep.numbered;
    fits = rep.fits;
    events = λ q child. same q (spares.0 q child) ∙ rep.events q child;
    indices = λ q k index. rw (index_at, same q (spares.1 q index)) (rep.indices q k index);
  }

module _ (p : Platform) (law : IsLawful p) {S : Type 0} (formats : Formats p.Bytes S)
    (projection : ProjectionDefinition S) (store : ProjectionStore p.backend.State S)
    (lossless : IsLossless formats.checkpoint_json) (keyed : IsKeyedStore p law.reliable.view store)
    (apart : keyed.owns (checkpoint_path p formats projection store) ≡ false)
    (log : List EventRecord) where
  open p.backend use {State}
  open law.reliable use {view}

  abbrev path : Str
  path = checkpoint_path p formats projection store

  answers :
      (r : EventRecord)
      → AsksPrecisely p log projection r
      → Answers p law.reliable formats projection store keyed
          (some (read_async p))
          (related_in_log p log)
          (Represents p log)
          r
  unfolding is_descending
  answers r precise query w e rep =
      read_async-exact p law query none none none log w rep (λ k h. cc) (precise query e)

  abbrev start : ProjectionCheckpoint
  start = checkpoint_of p formats projection store 0 0

  abbrev Touched : Disk p.Bytes → Disk p.Bytes → Type 0
  Touched = Only (λ q. keyed.owns q || q == path)

  spares_owned : SparesEvents p log (λ q. keyed.owns q || q == path) → SparesEvents p log keyed.owns
  spares_owned spares = (λ q c. ground (arith, spares.0 q c), λ q c. ground (arith, spares.1 q c))

  reset_lem :
      (w : State)
      → Runs (reset p formats projection store w) (λ _ w'.
        HasCheckpoint p law.reliable formats projection store (view w') (some start)
        × keyed.Holds nothing_stored (view w')
        × Touched (view w) (view w'))
  unfolding reset
  reset_lem w =
      let (u1, w1, e1, (h1, o1)) = keyed.clear_law w in
      let (u2, w2, e2, (has2, o2)) =
        save_checkpoint_lem p law.reliable formats projection store lossless 0 0 w1 in
      let (u3, w3, e3, v3) = keyed.set_batch_mode_law true w2 in
      (
        tt,
        w3,
        ground (arith, e1, e2, e3),
        rw v3 (
          has2,
          Holds-checkpoint p law.reliable formats projection store lossless keyed apart
              nothing_stored _ _ o2 h1,
          Only-trans _ (Only-mono _ _ (λ q n. ground (arith, n)) o1)
              (Only-mono _ _ (λ q n. ground (arith, n)) o2),
        ),
      )

  wind_up_lem :
      (states : States S) (w : State)
      → keyed.Holds states (view w)
      → Runs
          (wind_up p formats projection store w)
          (λ _ w'. keyed.Holds states (view w') × Touched (view w) (view w'))
  unfolding wind_up
  wind_up_lem states w h =
      let (u1, w1, e1, v1) = keyed.set_batch_mode_law false w in
      let (u2, w2, e2, (h2, o2)) = keyed.rebuild_metadata_index_law states w1 (rw v1 h) in
      let o2' : Only keyed.owns (view w) (view w2) = rw v1 at o2 in
      (tt, w2, ground (arith, e1, e2), (h2, Only-mono _ _ (λ q n. ground (arith, n)) o2'))

  rebuild_locked_lem :
      (w : State)
      → All (HasKey p law.reliable formats projection store keyed) log
      → All (AsksPrecisely p log projection) log
      → SparesEvents p log (λ q. keyed.owns q || q == path)
      → Represents p log (view w)
      → Runs (rebuild_locked p formats projection store (read_async p) w) (λ position w'.
        (position ≡ (checkpoint_after projection (related_in_log p log) log start).last_position)
        × keyed.Holds
            (states_after projection (related_in_log p log) log start nothing_stored)
            (view w')
        × Touched (view w) (view w'))
  unfolding rebuild_locked is_descending
  rebuild_locked_lem w keys precise spares rep =
      let (u1, w1, e1, (has1, h1, o1)) = reset_lem w in
      let rep1 = Represents-files p log _ _ _ spares o1.files rep in
      let (xs, w2, e2, (same2, v2)) =
        read_async-exact p law query_all none none none log w1 rep1 (λ k h. cc)
          (query_all-IsPrecise p log) in
      let all : xs ≡ log = same2 ∙ matching-query_all log in
      let (position, w3, e3, (same3, has3, h3, o3)) =
        process_events_with_store_lem p law.reliable formats projection store lossless keyed apart
          (some (read_async p)) (related_in_log p log) (Represents p log)
          (λ d d' o. Represents-files p log keyed.owns d d' (spares_owned spares) o.files) log
          (some start) nothing_stored w2 keys (All-mono _ _ answers log precise) (rw v2 has1)
          (rw v2 rep1) (rw v2 h1) in
      let (u4, w4, e4, (h4, o4)) = wind_up_lem _ w3 h3 in
      let o3' : Touched (view w1) (view w3) = rw v2 at o3 in
      (
        position,
        w4,
        ground (arith, e1, e2, all, e3, e4),
        (same3, h4, Only-trans _ o1 (Only-trans _ o3' o4)),
      )

  pub rebuild_lem :
      (w : State)
      → All (HasKey p law.reliable formats projection store keyed) log
      → All (AsksPrecisely p log projection) log
      → SparesEvents p log (λ q. keyed.owns q || q == path)
      → (view w).locked (rebuild_lock p formats projection store) ≡ false
      → Represents p log (view w)
      → Runs (rebuild p formats projection store (read_async p) w) (λ position w'.
        (position ≡ (checkpoint_after projection (related_in_log p log) log start).last_position)
        × keyed.Holds
            (states_after projection (related_in_log p log) log start nothing_stored)
            (view w')
        × Touched (view w) (view w'))
  unfolding rebuild
  rebuild_lem w keys precise spares free rep =
      let l : Str = rebuild_lock p formats projection store in
      let (u1, w1, e1, v1) = law.reliable.acquire_free l w free in
      let rep1 : Represents p log (view w1) = rw v1 (
        Represents-files p log (λ q. false) (view w) (lock l (view w)) (λ q c. refl, λ q c. refl)
          (λ q n. refl) rep) in
      let (position, w2, e2, (same2, h2, o2)) = rebuild_locked_lem w1 keys precise spares rep1 in
      let (u3, w3, e3, v3) = law.reliable.release_law l w2 in
      (
        position,
        w3,
        ground (arith, e1, e2, e3),
        (
          same2,
          keyed.Holds-others _ (view w2) (view w3) (λ q own. ap (λ (d : Disk p.Bytes). d.file q) v3)
              h2,
          record {
            files = λ q n.
                ap (λ (d : Disk p.Bytes). d.file q) v3
                ∙ o2.files q n
                ∙ ap (λ (d : Disk p.Bytes). d.file q) v1;
            locks = fun_ext λ k. ground (
              arith,
              free,
              ap (λ (d : Disk p.Bytes). d.locked k) v3,
              ap (λ (d : Disk p.Bytes). d.locked k) v1,
              ap (λ f. f k) o2.locks,
              (list_eq {A = ℕ}).beq_iff k l,
            );
          },
        ),
      )
