-- ===== src/Decision/Sorting.antt =====
-- The order of the events of a decision model: sorting by position, and the last position.
use marmosa.Common.{
  ℕ, suc, ◌≤◌, ◌≡◌, refl, ap, ◌∙◌, Bool, some, List, [], ◌∷◌, arith, leb, retain, All, Bool-cases,
  inl, inr,
}
use marmosa.Common.Every.{All-mono, All-retain}
use marmosa.Domain.{EventRecord}
use marmosa.EventStore.Log.{NumberedFrom}
use marmosa.Decision.Build.{insert_by_position, sort_by_position, last_position}

-- No event stands behind one of a higher position.
abbrev pub Ordered : List EventRecord → Type 0
Ordered [] = Unit
Ordered (r ∷ rs) = All (λ x. r.position ≤ x.position) rs × Ordered rs

insert-All :
    (P : EventRecord → Type 0) (r : EventRecord) (xs : List EventRecord)
    → P r
    → All P xs
    → All P (insert_by_position r xs)
unfolding insert_by_position
insert-All P r [] h hs = (h, tt)
insert-All P r (x ∷ xs) h (k, hs) = elim (Bool-cases (leb r.position x.position)) [
  | inl le ↦ rw le (h, (k, hs))
  | inr gt ↦ rw gt (k, insert-All P r xs h hs)
]

insert-Ordered :
    (r : EventRecord) (xs : List EventRecord) → Ordered xs → Ordered (insert_by_position r xs)
unfolding insert_by_position
insert-Ordered r [] h = (tt, tt)
insert-Ordered r (x ∷ xs) (h, hs) = elim (Bool-cases (leb r.position x.position)) [
  | inl le ↦ rw le ((ground (arith, le), All-mono _ _ (λ y k. ground (arith, le, k)) xs h), (h, hs))
  | inr gt ↦ rw gt (insert-All _ r xs (ground (arith, gt)) h, insert-Ordered r xs hs)
]

pub sort_by_position-Ordered : (rs : List EventRecord) → Ordered (sort_by_position rs)
unfolding sort_by_position
sort_by_position-Ordered [] = tt
sort_by_position-Ordered (r ∷ rs) =
    insert-Ordered r (sort_by_position rs) (sort_by_position-Ordered rs)

insert-front :
    (r : EventRecord) (xs : List EventRecord)
    → All (λ x. r.position ≤ x.position) xs
    → insert_by_position r xs ≡ r ∷ xs
unfolding insert_by_position
insert-front r [] h = refl
insert-front r (x ∷ xs) h = ground (arith, h.0)

-- Events in order stay as they are.
pub sort_by_position-same : (rs : List EventRecord) → Ordered rs → sort_by_position rs ≡ rs
unfolding sort_by_position
sort_by_position-same [] h = refl
sort_by_position-same (r ∷ rs) (h, hs) =
    ap (insert_by_position r) (sort_by_position-same rs hs) ∙ insert-front r rs h

numbered_above :
    (n : ℕ) (log : List EventRecord) → NumberedFrom n log → All (λ x. n ≤ x.position) log
numbered_above n [] h = tt
numbered_above n (r ∷ rs) h =
    (omega (arith, h.0), All-mono _ _ (λ x k. omega arith) rs (numbered_above (suc n) rs h.1))

pub numbered-Ordered : (n : ℕ) (log : List EventRecord) → NumberedFrom n log → Ordered log
numbered-Ordered n [] h = tt
numbered-Ordered n (r ∷ rs) h = (
  All-mono _ _ (λ x k. omega (arith, h.0)) rs (numbered_above (suc n) rs h.1),
  numbered-Ordered (suc n) rs h.1,
)

pub retain-Ordered :
    (f : EventRecord → Bool) (rs : List EventRecord) → Ordered rs → Ordered (retain f rs)
retain-Ordered f [] h = tt
retain-Ordered f (r ∷ rs) (h, hs) = elim (Bool-cases (f r)) [
  | inl kept ↦ rw (kept, retain) (All-retain _ f rs h, retain-Ordered f rs hs)
  | inr dropped ↦ rw (dropped, retain) (retain-Ordered f rs hs)
]

-- The last position of ordered events is a bound of their positions.
pub last_position_bound :
    (rs : List EventRecord) (m : ℕ)
    → Ordered rs
    → last_position rs ≡ some m
    → All (λ x. x.position ≤ m) rs
unfolding last_position
last_position_bound [] m h e = tt
last_position_bound (r ∷ []) m h e = (ground (arith, e), tt)
last_position_bound (r ∷ x ∷ xs) m (h, hs) e =
    let later = last_position_bound (x ∷ xs) m hs e in (omega (arith, h.0, later.0), later)
