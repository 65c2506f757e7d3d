-- ===== src/Projections/Rebuilder.antt =====
-- src/projections/rebuilder.rs: `ProjectionRebuilder`. Its tasks run one behind the other, as
-- `join_all` polls them when none of them has to wait.
pub mod Contract
use marmosa.Common.{
  ℕ, suc, ◌+◌, ◌≤◌, ◌≡◌, ◌≢◌, refl, ap, Bool, true, false, not, ◌&&◌, Option, none, List, [], ◌∷◌,
  ◌++◌, arith, Str, str, length, length-append, is_empty, if◌then◌else◌, ◌⊎◌, inl, inr, Bool-cases,
}
use marmosa.Exec.{
  Error, Result, ok, err, Exec, Outcome, returns, fails, blocks, pure, attempt, unwrap_or, ◌>>=◌,
}
use marmosa.Exec.Rules.{Runs}
use marmosa.Ports.{Platform, is_some}
use marmosa.Projections.{ProjectionDefinition, ProjectionStore, ProjectionCheckpoint, Formats}
use marmosa.Projections.Runner.{EventReader, rebuild, get_checkpoint}

-- `trait RebuildTask`, bound to its event store
pub record RebuildTask (W : Type 0) : Type 0 where
  pub name : Str
  pub rebuild : Exec W ℕ
  pub get_checkpoint : Exec W (Option ProjectionCheckpoint)

-- `impl RebuildTask for ProjectionRunner`
unfoldable pub runner_task :
    (p : Platform) {S : Type 0} (formats : Formats p.Bytes S) (projection : ProjectionDefinition S)
    → ProjectionStore p.backend.State S
    → EventReader p.backend.State
    → RebuildTask p.backend.State
unfolding rebuild get_checkpoint
runner_task p formats projection store read_async = record {
  name = projection.projection_name;
  rebuild = rebuild p formats projection store read_async;
  get_checkpoint = get_checkpoint p formats projection store;
}

pub record ProjectionRebuildResult : Type 0 where
  pub success : Bool
  pub total_rebuilt : ℕ
  pub duration : ℕ
  pub details : List Str
  pub failed_projections : List Str

-- `total_rebuilt`, `details` and `failed` of `rebuild_all`
pub record Tally : Type 0 where
  pub total_rebuilt : ℕ
  pub details : List Str
  pub failed : List Str

-- One round of the loop over the results
unfoldable pub tally : (Error → Str) → Str → Result ℕ → Tally → Tally
tally debug name (ok position) t = record t {
  total_rebuilt = suc t.total_rebuilt;
  details = t.details ++ (name ++ str " rebuilt successfully") ∷ [];
}
tally debug name (err e) t = record t {
  failed = t.failed ++ name ∷ [];
  details = t.details ++ (name ++ (str " failed: " ++ debug e)) ∷ [];
}

unfoldable pub tally_all : (Error → Str) → List (Str × Result ℕ) → Tally → Tally
unfolding tally
tally_all debug [] t = t
tally_all debug ((name, res) ∷ results) t = tally_all debug results (tally debug name res t)

-- `ProjectionRebuildResult` of the tally
unfoldable pub summary : Tally → ProjectionRebuildResult
summary t = record {
  success = is_empty t.failed;
  total_rebuilt = t.total_rebuilt;
  duration = 0;
  details = t.details;
  failed_projections = t.failed;
}

module _ {W : Type 0} where
  -- `cp`
  unfoldable pub checkpoint_unless : Bool → RebuildTask W → Exec W (Option ProjectionCheckpoint)
  checkpoint_unless true runner = pure none
  checkpoint_unless false runner = unwrap_or none runner.get_checkpoint

  -- The loop over the runners: the tasks that are not skipped
  unfoldable pub schedule : Bool → List (RebuildTask W) → Exec W (List (RebuildTask W))
  unfolding checkpoint_unless
  schedule force_rebuild [] = pure []
  schedule force_rebuild (runner ∷ runners) = do
    cp ← checkpoint_unless force_rebuild runner
    tasks ← schedule force_rebuild runners
    pure (if is_some cp && not force_rebuild then tasks else runner ∷ tasks)

  -- `join_all`
  unfoldable pub run_tasks : List (RebuildTask W) → Exec W (List (Str × Result ℕ))
  run_tasks [] = pure []
  run_tasks (task ∷ tasks) = do
    res ← attempt task.rebuild
    results ← run_tasks tasks
    pure ((task.name, res) ∷ results)

  -- `rebuild_all`
  unfoldable pub rebuild_all :
      (Error → Str) → List (RebuildTask W) → Bool → Exec W ProjectionRebuildResult
  unfolding schedule run_tasks tally_all summary
  rebuild_all debug runners force_rebuild = do
    tasks ← schedule force_rebuild runners
    results ← run_tasks tasks
    pure (
        summary (tally_all debug results (record { total_rebuilt = 0; details = []; failed = [] })))
