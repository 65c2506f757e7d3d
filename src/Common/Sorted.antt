-- ===== src/Common/Sorted.antt =====
-- Strictly increasing lists of positions: `BTreeSet<u64>`, and `sort_unstable` of a `Vec<u64>`.
use Prim.Native.Nat.{ℕ, ◌≤◌, ◌<◌}
use mathlib.Core.Path.{◌≡◌, refl}
use mathlib.Core.Bool.{Bool, false, ◌&&◌, ◌||◌}
use mathlib.Core.List.{List, [], ◌∷◌}
use native.Mathlib.Omega.{arith}
use marmosa.Common.Tests.{nat_eq, ◌==◌, ltb, leb, if◌then◌else◌}
use marmosa.Common.Lists.{contains, Distinct, retain}

-- Every element is above `n`, and the list increases strictly.
abbrev pub Above : ℕ → List ℕ → Type 0
Above n [] = Unit
Above n (x ∷ xs) = (n < x) × Above x xs

abbrev pub Increasing : List ℕ → Type 0
Increasing [] = Unit
Increasing (x ∷ xs) = Above x xs

pub Above-weaken : (m n : ℕ) (xs : List ℕ) → m ≤ n → Above n xs → Above m xs
Above-weaken m n [] h a = tt
Above-weaken m n (x ∷ xs) h a = (omega arith, a.1)

pub Above-Increasing : (n : ℕ) (xs : List ℕ) → Above n xs → Increasing xs
Above-Increasing n [] a = tt
Above-Increasing n (x ∷ xs) a = a.1

pub not_contains-Above : (n k : ℕ) (xs : List ℕ) → k ≤ n → Above n xs → contains k xs ≡ false
not_contains-Above n k [] h a = refl
not_contains-Above n k (x ∷ xs) h a = ground (arith, not_contains-Above x k xs (omega arith) a.1)

-- `BTreeSet::insert`
unfoldable pub set_insert : ℕ → List ℕ → List ℕ
set_insert k [] = k ∷ []
set_insert k (x ∷ xs) =
    let rest = set_insert k xs in
    if ltb k x then k ∷ x ∷ xs else if k == x then x ∷ xs else x ∷ rest

pub contains-set_insert :
    (j k : ℕ) (xs : List ℕ) → contains j (set_insert k xs) ≡ (k == j || contains j xs)
unfolding set_insert
contains-set_insert j k [] = refl
contains-set_insert j k (x ∷ xs) = ground (arith, contains-set_insert j k xs)

set_insert-Above : (n k : ℕ) (xs : List ℕ) → n < k → Above n xs → Above n (set_insert k xs)
unfolding set_insert
set_insert-Above n k [] h a = (h, tt)
set_insert-Above n k (x ∷ xs) h a = ground (arith, set_insert-Above x k xs)

pub set_insert-Increasing : (k : ℕ) (xs : List ℕ) → Increasing xs → Increasing (set_insert k xs)
unfolding set_insert
set_insert-Increasing k [] a = tt
set_insert-Increasing k (x ∷ xs) a = ground (arith, set_insert-Above x k xs)

-- `into_iter().collect::<BTreeSet<u64>>()`, on top of a set that is there.
unfoldable pub set_extend : List ℕ → List ℕ → List ℕ
set_extend s [] = s
set_extend s (x ∷ xs) = set_extend (set_insert x s) xs

pub contains-set_extend :
    (j : ℕ) (s xs : List ℕ) → contains j (set_extend s xs) ≡ (contains j s || contains j xs)
unfolding set_extend
contains-set_extend j s [] = ground arith
contains-set_extend j s (x ∷ xs) =
    ground (arith, contains-set_extend j (set_insert x s) xs, contains-set_insert j x s)

pub set_extend-Increasing : (s xs : List ℕ) → Increasing s → Increasing (set_extend s xs)
unfolding set_extend
set_extend-Increasing s [] a = a
set_extend-Increasing s (x ∷ xs) a =
    set_extend-Increasing (set_insert x s) xs (set_insert-Increasing x s a)

abbrev pub to_set : List ℕ → List ℕ
to_set xs = set_extend [] xs

pub contains-to_set : (j : ℕ) (xs : List ℕ) → contains j (to_set xs) ≡ contains j xs
contains-to_set j xs = contains-set_extend j [] xs

pub to_set-Increasing : (xs : List ℕ) → Increasing (to_set xs)
to_set-Increasing xs = set_extend-Increasing [] xs tt

-- `a.intersection(&b).copied().collect()`
abbrev pub intersection : List ℕ → List ℕ → List ℕ
intersection xs ys = retain (λ x. contains x ys) xs

pub contains-retain :
    (j : ℕ) (p : ℕ → Bool) (xs : List ℕ) → contains j (retain p xs) ≡ (p j && contains j xs)
contains-retain j p [] = ground arith
contains-retain j p (x ∷ xs) = ground (arith, contains-retain j p xs)

pub retain-Above : (n : ℕ) (p : ℕ → Bool) (xs : List ℕ) → Above n xs → Above n (retain p xs)
retain-Above n p [] a = tt
retain-Above n p (x ∷ xs) a =
    ground (arith, retain-Above x p xs a.1, Above-weaken n x (retain p xs))

pub retain-Increasing : (p : ℕ → Bool) (xs : List ℕ) → Increasing xs → Increasing (retain p xs)
retain-Increasing p [] a = tt
retain-Increasing p (x ∷ xs) a =
    ground (arith, retain-Above x p xs a, Above-Increasing x (retain p xs))

-- `sort_unstable()` on a vector of numbers: insertion sort, which keeps duplicates.
unfoldable pub sort_insert : ℕ → List ℕ → List ℕ
sort_insert k [] = k ∷ []
sort_insert k (x ∷ xs) = let rest = sort_insert k xs in if leb k x then k ∷ x ∷ xs else x ∷ rest

unfoldable pub sort_unstable : List ℕ → List ℕ
unfolding sort_insert
sort_unstable [] = []
sort_unstable (x ∷ xs) = sort_insert x (sort_unstable xs)

contains-sort_insert :
    (j k : ℕ) (xs : List ℕ) → contains j (sort_insert k xs) ≡ (k == j || contains j xs)
unfolding sort_insert
contains-sort_insert j k [] = refl
contains-sort_insert j k (x ∷ xs) = ground (arith, contains-sort_insert j k xs)

pub contains-sort_unstable : (j : ℕ) (xs : List ℕ) → contains j (sort_unstable xs) ≡ contains j xs
unfolding sort_unstable
contains-sort_unstable j [] = refl
contains-sort_unstable j (x ∷ xs) =
    ground (arith, contains-sort_unstable j xs, contains-sort_insert j x (sort_unstable xs))

sort_insert-Above :
    (n k : ℕ) (xs : List ℕ)
    → n < k
    → contains k xs ≡ false
    → Above n xs
    → Above n (sort_insert k xs)
unfolding sort_insert
sort_insert-Above n k [] h c a = (h, tt)
sort_insert-Above n k (x ∷ xs) h c a = ground (arith, sort_insert-Above x k xs)

sort_insert-Increasing :
    (k : ℕ) (xs : List ℕ) → contains k xs ≡ false → Increasing xs → Increasing (sort_insert k xs)
unfolding sort_insert
sort_insert-Increasing k [] c a = tt
sort_insert-Increasing k (x ∷ xs) c a = ground (arith, sort_insert-Above x k xs)

-- Sorted, a list without duplicates increases strictly.
pub sort_unstable-Increasing : (xs : List ℕ) → Distinct xs → Increasing (sort_unstable xs)
unfolding sort_unstable
sort_unstable-Increasing [] d = tt
sort_unstable-Increasing (x ∷ xs) d =
    sort_insert-Increasing x (sort_unstable xs) (ground (arith, contains-sort_unstable x xs))
      (sort_unstable-Increasing xs d.1)
