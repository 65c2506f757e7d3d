-- ===== src/Exec.antt =====
-- How an asynchronous method of the store runs: it passes a storage state on, and it returns a
-- value, fails with an error, or waits in its state for a lock that nobody releases.
-- One run is one task: what other tasks do between two of its steps is not part of it.
pub mod Rules
use marmosa.Common.{Bool, true, false, Str, Option, none, some}

-- `ports::Error`
pub data Error : Type 0 where
  io_error not_found already_exists append_condition_failed : Error
  argument_error : Str → Error

pub data Result (A : Type 0) : Type 0 where
  ok : A → Result A
  err : Error → Result A

pub data Outcome (S A : Type 0) : Type 0 where
  returns : A → S → Outcome S A
  fails : Error → S → Outcome S A
  blocks : S → Outcome S A

-- The task waits for a lock.
abbrev pub is_waiting : {S A : Type 0} → Outcome S A → Bool
is_waiting (returns a s) = false
is_waiting (fails e s) = false
is_waiting (blocks s) = true

abbrev pub Exec : Type 0 → Type 0 → Type 0
Exec S A = S → Outcome S A

module _ {S : Type 0} where
  abbrev pub pure : {A : Type 0} → A → Exec S A
  pure a s = returns a s

  abbrev pub fail : {A : Type 0} → Error → Exec S A
  fail e s = fails e s

  infixl 5 ◌>>=◌ ◌>>◌
  -- `?` after `.await`
  abbrev pub ◌>>=◌ : {A B : Type 0} → Exec S A → (A → Exec S B) → Exec S B
  ◌>>=◌ m f s = elim (m s) [
    | returns a s' ↦ f a s'
    | fails e s' ↦ fails e s'
    | blocks s' ↦ blocks s'
  ]

  abbrev pub ◌>>◌ : {B : Type 0} → Exec S (Unit {0}) → Exec S B → Exec S B
  m >> k = m >>= λ _. k

  -- The value of a call without `?`: its `Result`.
  abbrev pub attempt : {A : Type 0} → Exec S A → Exec S (Result A)
  attempt m s = elim (m s) [
    | returns a s' ↦ returns (ok a) s'
    | fails e s' ↦ returns (err e) s'
    | blocks s' ↦ blocks s'
  ]

  -- A `Result` as the value of a method.
  abbrev pub lift : {A : Type 0} → Result A → Exec S A
  lift (ok a) s = returns a s
  lift (err e) s = fails e s

  -- `let _ = m.await`
  abbrev pub ignore : {A : Type 0} → Exec S A → Exec S (Unit {0})
  ignore m s = elim (m s) [
    | returns a s' ↦ returns tt s'
    | fails e s' ↦ returns tt s'
    | blocks s' ↦ blocks s'
  ]

  -- `m.await.unwrap_or_default()`
  abbrev pub unwrap_or : {A : Type 0} → A → Exec S A → Exec S A
  unwrap_or d m s = elim (m s) [
    | returns a s' ↦ returns a s'
    | fails e s' ↦ returns d s'
    | blocks s' ↦ blocks s'
  ]

  -- `ok_or(e)?`, `map_err(|_| e)?` of a value that may be missing
  abbrev pub ok_or : {A : Type 0} → Error → Option A → Exec S A
  ok_or e none s = fails e s
  ok_or e (some a) s = returns a s
