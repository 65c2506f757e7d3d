-- ===== src/Projections/Rebuilder/Contract.antt =====
-- src/projections/rebuilder.rs: `rebuild_all` described by the calls of the tasks that it makes and
-- by what these return, without its lists of results.
use marmosa.Common.{
  ℕ, suc, ◌+◌, ◌≡◌, ◌≢◌, Bool, true, false, none, some, List, [], ◌∷◌, ◌++◌, Str, str, nat_eq,
}
use marmosa.Exec.{Error, returns, fails, blocks}
use marmosa.Projections.{ProjectionCheckpoint}
use marmosa.Projections.Rebuilder.{RebuildTask, Tally}

-- What a tally becomes behind a number of tasks
abbrev behind : Tally → ℕ → List Str → List Str → Tally
behind t n failed details = record {
  total_rebuilt = t.total_rebuilt + n;
  details = t.details ++ details;
  failed = t.failed ++ failed;
}

module _ {W : Type 0} where
  -- The tasks that are rebuilt of those that are registered, and the state behind the questions for
  -- their checkpoints: with force all of them, and nobody is asked; else those that have no
  -- checkpoint or cannot read it.
  pub data Takes : Bool → List (RebuildTask W) → W → List (RebuildTask W) → W → Type 0 where
    all_asked : {force : Bool} {w : W} → Takes force [] w [] w
    forced :
        {task : RebuildTask W} {tasks taken : List (RebuildTask W)} {w w' : W}
        → Takes true tasks w taken w'
        → Takes true (task ∷ tasks) w (task ∷ taken) w'
    has_checkpoint :
        {task : RebuildTask W} {tasks taken : List (RebuildTask W)} {w w1 w' : W}
        (c : ProjectionCheckpoint)
        → task.get_checkpoint w ≡ returns (some c) w1
        → Takes false tasks w1 taken w'
        → Takes false (task ∷ tasks) w taken w'
    no_checkpoint :
        {task : RebuildTask W} {tasks taken : List (RebuildTask W)} {w w1 w' : W}
        → task.get_checkpoint w ≡ returns none w1
        → Takes false tasks w1 taken w'
        → Takes false (task ∷ tasks) w (task ∷ taken) w'
    bad_checkpoint :
        {task : RebuildTask W} {tasks taken : List (RebuildTask W)} {w w1 w' : W} (e : Error)
        → task.get_checkpoint w ≡ fails e w1
        → Takes false tasks w1 taken w'
        → Takes false (task ∷ tasks) w (task ∷ taken) w'

  -- Tasks that are rebuilt one behind the other: how many succeed, the names of those that fail, and
  -- a line for each
  pub data Rebuilds (debug : Error → Str)
      : List (RebuildTask W) → W → ℕ → List Str → List Str → W → Type 0 where
    all_rebuilt : {w : W} → Rebuilds debug [] w 0 [] [] w
    succeeds :
        {task : RebuildTask W} {tasks : List (RebuildTask W)} {w w1 w' : W} {n : ℕ}
        {failed details : List Str} (position : ℕ)
        → task.rebuild w ≡ returns position w1
        → Rebuilds debug tasks w1 n failed details w'
        → Rebuilds debug
            (task ∷ tasks)
            w
            (suc n)
            failed
            ((task.name ++ str " rebuilt successfully") ∷ details)
            w'
    breaks :
        {task : RebuildTask W} {tasks : List (RebuildTask W)} {w w1 w' : W} {n : ℕ}
        {failed details : List Str} (e : Error)
        → task.rebuild w ≡ fails e w1
        → Rebuilds debug tasks w1 n failed details w'
        → Rebuilds debug
            (task ∷ tasks)
            w
            n
            (task.name ∷ failed)
            ((task.name ++ (str " failed: " ++ debug e)) ∷ details)
            w'

  -- Neither of the two calls of a task waits forever.
  pub record Ends (task : RebuildTask W) : Type 0 where
    pub rebuild_ends : (w w' : W) → task.rebuild w ≢ blocks w'
    pub get_checkpoint_ends : (w w' : W) → task.get_checkpoint w ≢ blocks w'

  abbrev pub AllEnd : List (RebuildTask W) → Type 0
  AllEnd [] = Unit
  AllEnd (task ∷ tasks) = Ends task × AllEnd tasks
