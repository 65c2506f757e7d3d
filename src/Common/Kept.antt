-- ===== src/Common/Kept.antt =====
-- What a filter keeps of a list of strings.
use Prim.Native.Nat.{ℕ, ◌≤◌}
use mathlib.Core.Path.{◌≡◌, refl}
use mathlib.Core.Bool.{Bool, not, ◌&&◌}
use mathlib.Core.List.{List, [], ◌∷◌}
use mathlib.Core.Logic.{inl, inr}
use native.Mathlib.Omega.{arith}
use marmosa.Common.Tests.{◌==◌, nat_eq, list_eq, Bool-cases, Str}
use marmosa.Common.Lists.{length, retain, contains}

length-retain_le : (f : Str → Bool) (xs : List Str) → length (retain f xs) ≤ length xs
length-retain_le f [] = omega arith
length-retain_le f (x ∷ xs) = ground (arith, length-retain_le f xs)

-- A filter that drops nothing by number drops nothing.
pub retain_whole :
    (f : Str → Bool) (xs : List Str) → length (retain f xs) ≡ length xs → retain f xs ≡ xs
retain_whole f [] e = refl
retain_whole f (x ∷ xs) e = elim (Bool-cases (f x)) [
  | inl kept ↦ ground (arith, kept, e, retain_whole f xs)
  | inr dropped ↦ absurd (ground (arith, dropped, e, length-retain_le f xs))
]

pub contains-retain :
    (f : Str → Bool) (k : Str) (xs : List Str) → contains k (retain f xs) ≡ (contains k xs && f k)
contains-retain f k [] = refl
contains-retain f k (x ∷ xs) = elim (Bool-cases (x == k)) [
  | inl same ↦
      let e : x ≡ k = ((list_eq {A = ℕ}).beq_iff x k).0 same in
      ground (arith, e, same, contains-retain f k xs)
  | inr differ ↦ ground (arith, differ, contains-retain f k xs)
]

-- The filter that drops one string
pub contains-retain_other :
    (key k : Str) (xs : List Str)
    → contains k (retain (λ x. not (x == key)) xs) ≡ (not (k == key) && contains k xs)
contains-retain_other key k xs = ground (arith, contains-retain (λ x. not (x == key)) k xs)
