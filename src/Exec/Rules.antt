-- ===== src/Exec/Rules.antt =====
-- Total correctness of a run: it returns, and its value and final state satisfy a predicate.
use marmosa.Common.{◌≡◌}
use marmosa.Exec.{Outcome, returns, Exec, ◌>>=◌, ignore, unwrap_or}

abbrev pub Runs : {S A : Type 0} → Outcome S A → (A → S → Type 0) → Type 0
Runs {S} {A} o P = (a : A) × (s : S) × (o ≡ returns a s) × P a s

-- A run fails, with a predicate of the final state.
module _ {S A : Type 0} where
  pub Runs-mono :
      {o : Outcome S A} (P Q : A → S → Type 0)
      → Runs o P
      → ((a : A) (s : S) → P a s → Q a s)
      → Runs o Q
  Runs-mono P Q (a, s, e, p) f = (a, s, e, f a s p)

  pub Runs-ignore :
      (m : Exec S A) (s : S) (P : Unit {0} → S → Type 0)
      → Runs (m s) (λ a s'. P tt s')
      → Runs (ignore m s) P
  Runs-ignore m s P (a, s', e, p) = (tt, s', rw (e, ignore), p)

  pub Runs-unwrap_or :
      (d : A) (m : Exec S A) (s : S) (P : A → S → Type 0) → Runs (m s) P → Runs (unwrap_or d m s) P
  Runs-unwrap_or d m s P (a, s', e, p) = (a, s', rw (e, unwrap_or), p)

  pub Runs-bind :
      {B : Type 0} (m : Exec S A) (f : A → Exec S B) (s : S) (P : A → S → Type 0)
      (Q : B → S → Type 0)
      → Runs (m s) P
      → ((a : A) (s' : S) → P a s' → Runs (f a s') Q)
      → Runs ((m >>= f) s) Q
  Runs-bind m f s P Q (a, s', e, p) k = rw (e, ◌>>=◌) (k a s' p)
