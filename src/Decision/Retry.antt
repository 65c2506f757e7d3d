-- ===== src/Decision/Retry.antt =====
-- The loop of `execute_decision_async`: how often it calls its operation.
use marmosa.Common.{ℕ, zero, suc, ◌+◌, ◌-◌, ◌≤◌, ◌<◌, ◌≡◌, ap, ◌∙◌, arith}
use marmosa.Text.{u64_mod}
use marmosa.Exec.{append_condition_failed, returns, fails, Exec}
use marmosa.Decision.Execute.{retry, execute_attempts, execute_decision_async, last_attempt}

last_attempt_lem : (n : ℕ) → n < u64_mod → last_attempt (suc n) ≡ n
unfolding last_attempt
last_attempt_lem n h = omega (arith, h)

module _ {State R : Type 0} where
  -- The operation conflicts a number of times in a row, each time from the state before.
  pub data Conflicts (operation : Exec State R) : ℕ → State → State → Type 0 where
    no_conflict : {s : State} → Conflicts operation 0 s s
    conflict :
        {n : ℕ} {s s1 s2 : State}
        → operation s ≡ fails append_condition_failed s1
        → Conflicts operation n s1 s2
        → Conflicts operation (suc n) s s2

  one_round :
      (operation : Exec State R) (left : ℕ) (s s1 : State)
      → operation s ≡ fails append_condition_failed s1
      → execute_attempts operation (suc left) s ≡ execute_attempts operation left s1
  unfolding execute_attempts retry
  one_round operation left s s1 e = ground (arith, e)

  attempts_lem :
      (operation : Exec State R) (k left : ℕ) (s s' : State)
      → Conflicts operation k s s'
      → execute_attempts operation (k + left) s ≡ execute_attempts operation left s'
  attempts_lem operation _ left s _ no_conflict =
      ap (λ t. execute_attempts operation t s) (omega arith)
  attempts_lem operation _ left s s' (conflict {n} {s1 = s1} e rest) =
      ap (λ t. execute_attempts operation t s) (omega arith)
      ∙ one_round operation (n + left) s s1 e
      ∙ attempts_lem operation n left s1 s' rest

  succeeds_now :
      (operation : Exec State R) (left : ℕ) (s s' : State) (value : R)
      → operation s ≡ returns value s'
      → execute_attempts operation left s ≡ returns value s'
  unfolding execute_attempts
  succeeds_now operation zero s s' value e = e
  succeeds_now operation (suc left) s s' value e = ground (arith, e)

  gives_up_lem :
      (operation : Exec State R) (left : ℕ) (s s' : State)
      → Conflicts operation (suc left) s s'
      → execute_attempts operation left s ≡ fails append_condition_failed s'
  unfolding execute_attempts
  gives_up_lem operation zero s s' (conflict e no_conflict) = e
  gives_up_lem operation (suc left) s s' (conflict {s1 = s1} e rest) =
      one_round operation left s s1 e ∙ gives_up_lem operation left s1 s' rest

  -- An operation that conflicts some number of times, less than `max_retries`, and then returns a
  -- value: the loop returns that value, from the state of that call.
  pub execute_decision_async-succeeds :
      (operation : Exec State R) (k max_retries : ℕ) (s s1 s2 : State) (value : R)
      → Conflicts operation k s s1
      → operation s1 ≡ returns value s2
      → k < max_retries
      → max_retries ≤ u64_mod
      → execute_decision_async max_retries operation s ≡ returns value s2
  unfolding execute_decision_async execute_attempts
  execute_decision_async-succeeds operation k zero s s1 s2 value c e lt le = ground (arith, lt)
  execute_decision_async-succeeds operation k (suc m) s s1 s2 value c e lt le =
      let rounds : last_attempt (suc m) ≡ k + (m - k) =
        omega (arith, last_attempt_lem m (omega arith)) in
      ap (λ t. execute_attempts operation t s) rounds
      ∙ (attempts_lem operation k (m - k) s s1 c ∙ succeeds_now operation (m - k) s1 s2 value e)

  -- An operation that conflicts `max_retries` times in a row, at least once: it is called just
  -- that often, and the loop fails with the last conflict.
  pub execute_decision_async-gives_up :
      (operation : Exec State R) (max_retries : ℕ) (s s1 : State)
      → Conflicts operation max_retries s s1
      → 0 < max_retries
      → max_retries ≤ u64_mod
      → execute_decision_async max_retries operation s ≡ fails append_condition_failed s1
  unfolding execute_decision_async execute_attempts
  execute_decision_async-gives_up operation zero s s1 c pos le = ground (arith, pos)
  execute_decision_async-gives_up operation (suc m) s s1 c pos le =
      ap (λ t. execute_attempts operation t s) (last_attempt_lem m (omega arith))
      ∙ gives_up_lem operation m s s1 c
