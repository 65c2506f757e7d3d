-- ===== src/Projections/Options.antt =====
-- src/projections/options.rs: the settings of the projections and their limits. An interval is its
-- number of nanoseconds.
use marmosa.Common.{
  ℕ, ◌*◌, ◌≤◌, ◌≡◌, ◌↔◌, refl, List, [], ◌∷◌, ◌++◌, arith, Str, str, ltb, if◌then◌else◌,
}

pub data AutoRebuildMode : Type 0 where
  no_rebuild missing_checkpoints_only force_full_rebuild : AutoRebuildMode

pub record ProjectionOptions : Type 0 where
  pub polling_interval : ℕ
  pub batch_size : ℕ
  pub rebuild_flush_interval : ℕ
  pub rebuild_batch_size : ℕ
  pub auto_rebuild : AutoRebuildMode
  pub max_concurrent_rebuilds : ℕ

-- `Duration::from_millis`
abbrev pub from_millis : ℕ → ℕ
from_millis n = n * 1000000

-- `impl Default`
unfoldable pub default_options : ProjectionOptions
default_options = record {
  polling_interval = from_millis 5000;
  batch_size = 1000;
  rebuild_flush_interval = 10000;
  rebuild_batch_size = 5000;
  auto_rebuild = missing_checkpoints_only;
  max_concurrent_rebuilds = 4;
}

-- `if value < low { … } if value > high { … }`
unfoldable pub range_failures : ℕ → ℕ → ℕ → Str → Str → List Str
range_failures low high value below above =
    (if ltb value low then below ∷ [] else []) ++ (if ltb high value then above ∷ [] else [])

-- `ProjectionOptionsValidator::validate`: the failures, none if the options are valid
unfoldable pub validate_projections : ProjectionOptions → List Str
validate_projections options =
    range_failures (from_millis 100) (from_millis 3600000) options.polling_interval
      (str "Polling interval must be at least 100ms")
      (str "Polling interval must be at most 1 hour")
    ++ (range_failures 1 100000 options.batch_size (str "Batch size must be at least 1")
          (str "Batch size must be at most 100,000")
        ++ (range_failures 1 64 options.max_concurrent_rebuilds
              (str "Max concurrent rebuilds must be at least 1")
              (str "Max concurrent rebuilds must be at most 64")
            ++ (range_failures 100 1000000 options.rebuild_flush_interval
                  (str "Rebuild flush interval must be at least 100")
                  (str "Rebuild flush interval must be at most 1,000,000")
                ++ range_failures 100 1000000 options.rebuild_batch_size
                    (str "Rebuild batch size must be at least 100")
                    (str "Rebuild batch size must be at most 1,000,000"))))

range_failures-nil :
    (low high value : ℕ) (below above : Str)
    → low ≤ high
    → (range_failures low high value below above ≡ []) ↔ ((low ≤ value) × (value ≤ high))
unfolding range_failures
range_failures-nil low high value below above h = (λ e. ground (arith, e), λ b. ground (arith, b))

append-nil_iff :
    {A B : Type 0} (xs ys : List Str)
    → ((xs ≡ []) ↔ A)
    → ((ys ≡ []) ↔ B)
    → (xs ++ ys ≡ []) ↔ (A × B)
append-nil_iff [] ys f g = (λ e. (f.0 refl, g.0 e), λ h. g.1 h.1)
append-nil_iff (x ∷ xs) ys f g = (λ e. cc, λ h. absurd (cc (f.1 h.0)))

-- `validate` finds nothing to object to exactly if the polling interval is between 100 ms and an
-- hour, the batch size between 1 and 100,000, the number of concurrent rebuilds between 1 and 64, and
-- the flush interval and the batch size of rebuilds between 100 and 1,000,000, the ends included.
pub validate_projections_bounds :
    (options : ProjectionOptions)
    → (validate_projections options ≡ []) ↔ (
        ((from_millis 100 ≤ options.polling_interval)
          × (options.polling_interval ≤ from_millis 3600000))
        × ((1 ≤ options.batch_size) × (options.batch_size ≤ 100000))
        × ((1 ≤ options.max_concurrent_rebuilds) × (options.max_concurrent_rebuilds ≤ 64))
        × ((100 ≤ options.rebuild_flush_interval) × (options.rebuild_flush_interval ≤ 1000000))
        × ((100 ≤ options.rebuild_batch_size) × (options.rebuild_batch_size ≤ 1000000)))
unfolding validate_projections
validate_projections_bounds options =
    let all =
      append-nil_iff _ _ (range_failures-nil _ _ options.polling_interval _ _ (omega arith)) (
        append-nil_iff _ _ (range_failures-nil _ _ options.batch_size _ _ (omega arith)) (
          append-nil_iff _ _
            (range_failures-nil _ _ options.max_concurrent_rebuilds _ _ (omega arith))
            (append-nil_iff _ _
              (range_failures-nil _ _ options.rebuild_flush_interval _ _ (omega arith))
              (range_failures-nil _ _ options.rebuild_batch_size _ _ (omega arith))))) in
    (
      λ e. let (a, (b, (c, (d, f)))) = all.0 e in (a, b, c, d, f),
      λ h. all.1 (h.0, (h.1, (h.2, (h.3, h.4)))),
    )
