-- ===== src/EventStore/Log/Positions.antt =====
-- The positions of the records of a log: strictly increasing, and determined by their members.
use marmosa.Common.{
  ℕ, suc, ◌+◌, ◌≤◌, ◌<◌, ◌≡◌, refl, Bool, true, ◌&&◌, List, [], ◌∷◌, arith, ◌==◌, nat_eq, length,
  any, retain, contains,
}
use marmosa.Common.Sorted.{Above, Above-weaken, Increasing, Above-Increasing, not_contains-Above}
use marmosa.Domain.{EventRecord}
use marmosa.EventStore.Log.{NumberedFrom, positions_of}

contains-head : (x : ℕ) (xs : List ℕ) → contains x (x ∷ xs) ≡ true
contains-head x xs = ground arith

-- Two increasing lists with the same members are equal.
pub Increasing-ext :
    (xs ys : List ℕ)
    → Increasing xs
    → Increasing ys
    → ((k : ℕ) → contains k xs ≡ contains k ys)
    → xs ≡ ys
Increasing-ext [] [] a b h = refl
Increasing-ext [] (y ∷ ys) a b h = cc (h y, contains-head y ys)
Increasing-ext (x ∷ xs) [] a b h = cc (h x, contains-head x xs)
Increasing-ext (x ∷ xs) (y ∷ ys) a b h =
    let same : x ≡ y =
      ground (arith, h x, h y, not_contains-Above y x ys, not_contains-Above x y xs) in
    let b' : Above x ys = rw same b in
    let rest : (k : ℕ) → contains k xs ≡ contains k ys =
      λ k. ground (arith, same, h k, not_contains-Above x x xs, not_contains-Above x x ys) in
    ground
      (arith, same, Increasing-ext xs ys (Above-Increasing x xs a) (Above-Increasing x ys b') rest)

pub contains-positions_of :
    (k : ℕ) (f : EventRecord → Bool) (log : List EventRecord)
    → contains k (positions_of (retain f log)) ≡ any (λ r. f r && r.position == k) log
contains-positions_of k f [] = refl
contains-positions_of k f (r ∷ rs) = ground (arith, contains-positions_of k f rs)

positions_of-Above :
    (n : ℕ) (f : EventRecord → Bool) (log : List EventRecord)
    → NumberedFrom (suc n) log
    → Above n (positions_of (retain f log))
positions_of-Above n f [] h = tt
positions_of-Above n f (r ∷ rs) h = ground (
  arith,
  positions_of-Above (suc n) f rs h.1,
  Above-weaken n (suc n) (positions_of (retain f rs)),
)

pub positions_of-Increasing :
    (n : ℕ) (f : EventRecord → Bool) (log : List EventRecord)
    → NumberedFrom n log
    → Increasing (positions_of (retain f log))
positions_of-Increasing n f [] h = tt
positions_of-Increasing n f (r ∷ rs) h =
    ground (arith, positions_of-Above n f rs h.1, Above-Increasing n (positions_of (retain f rs)))

-- The positions of a log lie between its first number and its length.
pub positions_of_bounds :
    (n k : ℕ) (log : List EventRecord)
    → NumberedFrom n log
    → contains k (positions_of log) ≡ true
    → (n ≤ k) × (k < n + length log)
positions_of_bounds n k [] h c = cc
positions_of_bounds n k (r ∷ rs) h c = ground (arith, positions_of_bounds (suc n) k rs h.1)
