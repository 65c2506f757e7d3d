-- ===== src/EventStore/Log/Exact.antt =====
-- The matching records of a log, and `fetch` where the index files of a query are exact.
use mathlib.Core.List.{append-nil, append_assoc}
use marmosa.Common.{
  ltb, ◌<◌, ℕ, zero, suc, ◌+◌, ◌≡◌, refl, sym, ap, Bool, true, false, ◌&&◌, Option, none, some,
  List, [], ◌∷◌, ◌++◌, arith, ◌==◌, nat_eq, list_eq, leb, if◌then◌else◌, length, length-append,
  is_empty, take, retain, retain_congr, All, Bool-cases, inl, inr,
}
use marmosa.Common.Every.{All-reverse, All-take, All-mono}
use marmosa.Text.{u64_mod}
use marmosa.Domain.{EventRecord, Query, ReadOption, matches}
use marmosa.Ports.{Platform}
use marmosa.EventStore.Read.{is_descending, is_full, first_position}
use marmosa.EventStore.Log.{is_candidate, candidates}
use marmosa.EventStore.Log.Fetch.{scan, order, cut, fetch_limited, fetch}

-- A record stands behind the start position.
abbrev pub behind : Option ℕ → EventRecord → Bool
behind none r = true
behind (some position) r = ltb position r.position

-- The position behind the start position is a `u64`.
abbrev pub IsInRange : Option ℕ → Type 0
IsInRange start = (position : ℕ) → start ≡ some position → position + 1 < u64_mod

pub first_position-behind :
    (start : Option ℕ) (r : EventRecord)
    → IsInRange start
    → leb (first_position start) r.position ≡ behind start r
unfolding first_position
first_position-behind none r h = ground arith
first_position-behind (some position) r h = ground (arith, h position refl)

-- The records behind a position that match a query.
abbrev pub matching : Query → Option ℕ → List EventRecord → List EventRecord
matching query start log = retain (λ r. matches query r && behind start r) log

-- The limit of a read. A read of all events with the limit 0 still takes one.
abbrev pub limit : Query → Option ℕ → List EventRecord → List EventRecord
limit query none rs = rs
limit query (some max) rs = if is_empty query.items && max == 0 then take 1 rs else take max rs

-- For the records of the log, the index files of the query are exact.
abbrev pub IsPrecise : Platform → Query → List EventRecord → Type 0
IsPrecise p query log = All (λ r. is_candidate p query r ≡ matches query r) log

abbrev AllMatch : Query → List EventRecord → Type 0
AllMatch query rs = All (λ r. matches query r ≡ true) rs

pub scan-none :
    (query : Query) (rs results : List EventRecord)
    → scan query none rs results ≡ results ++ retain (matches query) rs
unfolding scan is_full
scan-none query [] results = sym (append-nil results)
scan-none query (r ∷ rs) results = ground (
  arith,
  scan-none query rs results,
  scan-none query rs (results ++ r ∷ []),
  append_assoc results (r ∷ []) (retain (matches query) rs),
)

abbrev at_least_one : ℕ → ℕ
at_least_one j = if j == 0 then 1 else j

take-nil : (n : ℕ) → take {A = EventRecord} n [] ≡ []
take-nil zero = refl
take-nil (suc n) = refl

-- With `j` places left the loop takes the first `j` records, and one if no place is left.
scan-some :
    (query : Query) (max j : ℕ) (rs results : List EventRecord)
    → max ≡ length results + j
    → AllMatch query rs
    → scan query (some max) rs results ≡ results ++ take (at_least_one j) rs
unfolding scan is_full
scan-some query max j [] results e h = rw (take-nil, append-nil)
scan-some query max zero (r ∷ rs) results e h = ground (arith, length-append results (r ∷ []))
scan-some query max (suc zero) (r ∷ rs) results e h = ground (arith, length-append results (r ∷ []))
scan-some query max (suc (suc j)) (r ∷ rs) results e (h, hs) =
    let pushed = results ++ r ∷ [] in
    let more : max ≡ length pushed + suc j = omega (arith, length-append results (r ∷ [])) in
    ground (
      arith,
      length-append results (r ∷ []),
      scan-some query max (suc j) rs pushed more hs,
      append_assoc results (r ∷ []) (take (suc j) rs),
    )

retain_every :
    (f : EventRecord → Bool) (rs : List EventRecord) → All (λ r. f r ≡ true) rs → retain f rs ≡ rs
retain_every f [] h = refl
retain_every f (r ∷ rs) h = ground (arith, retain_every f rs h.1)

take-take : (n : ℕ) (rs : List EventRecord) → take n (take n rs) ≡ take n rs
take-take zero rs = refl
take-take (suc n) [] = refl
take-take (suc n) (r ∷ rs) = ap (◌∷◌ r) (take-take n rs)

All-order :
    (query : Query) (options : Option (List ReadOption)) (rs : List EventRecord)
    → AllMatch query rs
    → AllMatch query (order options rs)
All-order query options rs h = elim (Bool-cases (is_descending options)) [
  | inl down ↦ rw (down, order) (All-reverse _ rs h)
  | inr up ↦ rw (up, order) h
]

limit_part :
    (query : Query) (max : ℕ) (rs : List EventRecord)
    → is_empty query.items ≡ false
    → AllMatch query rs
    → fetch_limited query (some max) (cut query (some max) rs) ≡ limit query (some max) rs
unfolding fetch_limited
limit_part query zero rs part h = ground (arith, part, scan-some query 0 0 [] [] refl tt)
limit_part query (suc n) rs part h = ground (
  arith,
  part,
  take-take (suc n) rs,
  scan-some query (suc n) (suc n) (take (suc n) rs) [] (omega arith) (All-take _ (suc n) rs h),
)

fetch-limit :
    (query : Query) (max_count : Option ℕ) (options : Option (List ReadOption))
    (rs : List EventRecord)
    → AllMatch query rs
    → fetch query max_count options rs ≡ limit query max_count (order options rs)
unfolding fetch fetch_limited
fetch-limit query none options rs h = ground (
  arith,
  scan-none query (order options rs) [],
  retain_every (matches query) (order options rs) (All-order query options rs h),
)
fetch-limit query (some max) options rs h =
    let ordered = order options rs in
    let all_match = All-order query options rs h in
    elim (Bool-cases (is_empty query.items)) [
      | inl whole ↦
          ground (arith, whole, scan-some query max max ordered [] (omega arith) all_match)
      | inr part ↦ limit_part query max ordered part all_match
    ]

-- With precise indices the candidates are the matching records.
pub candidates-matching :
    (p : Platform) (query : Query) (start : Option ℕ) (log : List EventRecord)
    → IsInRange start
    → IsPrecise p query log
    → candidates p query start log ≡ matching query start log
candidates-matching p query start log range h =
    retain_congr _ _ log
      (All-mono _ _ (λ r e. ground (arith, e, first_position-behind start r range)) log h)

matching-AllMatch :
    (query : Query) (start : Option ℕ) (log : List EventRecord)
    → AllMatch query (matching query start log)
matching-AllMatch query start [] = tt
matching-AllMatch query start (r ∷ rs) = elim (Bool-cases (matches query r && behind start r)) [
  | inl kept ↦ rw (kept, retain) (ground (arith, kept), matching-AllMatch query start rs)
  | inr dropped ↦ rw (dropped, retain) (matching-AllMatch query start rs)
]

pub fetch-exact :
    (p : Platform) (query : Query) (start max_count : Option ℕ) (options : Option (List ReadOption))
    (log : List EventRecord)
    → IsInRange start
    → IsPrecise p query log
    → fetch query max_count options (candidates p query start log)
      ≡ limit query max_count (order options (matching query start log))
fetch-exact p query start max_count options log range h =
    rw (candidates-matching p query start log range h) (
      fetch-limit query max_count options (matching query start log)
        (matching-AllMatch query start log))
