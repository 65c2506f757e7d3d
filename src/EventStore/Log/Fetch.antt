-- ===== src/EventStore/Log/Fetch.antt =====
-- What a read returns of the records that it has resolved, as a function on lists: the order, the
-- limit, and the filter, which is skipped when more than ten records were resolved by the indices.
use mathlib.Core.List.{reverse-append}
use marmosa.Common.{
  ℕ, zero, suc, ◌≡◌, refl, ap, not, ◌&&◌, Option, none, some, List, [], ◌∷◌, ◌++◌, reverse, arith,
  ltb, if◌then◌else◌, length, is_empty, take,
}
use marmosa.Domain.{EventRecord, Query, ReadOption, matches}
use marmosa.EventStore.Read.{is_descending, is_full, truncate}
use marmosa.EventStore.Log.{positions_of}

-- The sequential loop, on records.
unfoldable pub scan : Query → Option ℕ → List EventRecord → List EventRecord → List EventRecord
scan query max_count [] results = results
scan query max_count (r ∷ rs) results =
    let pushed = results ++ r ∷ [] in
    let more = scan query max_count rs pushed in
    let skip = scan query max_count rs results in
    if matches query r then (if is_full max_count pushed then pushed else more) else skip

abbrev pub order : Option (List ReadOption) → List EventRecord → List EventRecord
order options rs = if is_descending options then reverse rs else rs

abbrev pub cut : Query → Option ℕ → List EventRecord → List EventRecord
cut query none rs = rs
cut query (some max) rs = if is_empty query.items then rs else take max rs

unfoldable pub fetch_limited : Query → Option ℕ → List EventRecord → List EventRecord
unfolding scan
fetch_limited query max_count limited =
    if not (is_empty query.items) && ltb 10 (length limited)
    then limited
    else scan query max_count limited []

unfoldable pub fetch :
    Query → Option ℕ → Option (List ReadOption) → List EventRecord → List EventRecord
fetch query max_count options rs =
    fetch_limited query max_count (cut query max_count (order options rs))

pub positions_of-append :
    (xs ys : List EventRecord) → positions_of (xs ++ ys) ≡ positions_of xs ++ positions_of ys
positions_of-append [] ys = refl
positions_of-append (x ∷ xs) ys = ap (◌∷◌ x.position) (positions_of-append xs ys)

pub positions_of-reverse :
    (rs : List EventRecord) → positions_of (reverse rs) ≡ reverse (positions_of rs)
positions_of-reverse [] = refl
positions_of-reverse (r ∷ rs) = cc (
  reverse-append (r ∷ []) rs,
  positions_of-append (reverse rs) (r ∷ []),
  positions_of-reverse rs,
  reverse-append (r.position ∷ []) (positions_of rs),
)

pub positions_of-take :
    (n : ℕ) (rs : List EventRecord) → positions_of (take n rs) ≡ take n (positions_of rs)
positions_of-take zero rs = refl
positions_of-take (suc n) [] = refl
positions_of-take (suc n) (r ∷ rs) = ap (◌∷◌ r.position) (positions_of-take n rs)

pub length-positions_of : (rs : List EventRecord) → length (positions_of rs) ≡ length rs
length-positions_of [] = refl
length-positions_of (r ∷ rs) = ap suc (length-positions_of rs)

pub is_empty-positions_of : (rs : List EventRecord) → is_empty (positions_of rs) ≡ is_empty rs
is_empty-positions_of [] = refl
is_empty-positions_of (r ∷ rs) = refl

-- The order and the limit commute with taking positions.
pub positions_of-cut :
    (query : Query) (max_count : Option ℕ) (options : Option (List ReadOption))
    (rs : List EventRecord)
    → positions_of (cut query max_count (order options rs)) ≡ (
        let ordered =
          if is_descending options then reverse (positions_of rs) else positions_of rs in
        if is_empty query.items then ordered else truncate max_count ordered)
unfolding truncate
positions_of-cut query none options rs = ground (arith, positions_of-reverse rs)
positions_of-cut query (some max) options rs =
    ground
      (arith, positions_of-reverse rs, positions_of-take max rs, positions_of-take max (reverse rs))
