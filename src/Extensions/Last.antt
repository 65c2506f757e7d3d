-- ===== src/Extensions/Last.antt =====
-- src/extensions.rs: `read_last_async` on the abstract log.
use mathlib.Core.List.{reverse-append}
use marmosa.Common.{
  ◌≡◌, refl, sym, ◌∙◌, ap, none, some, List, [], ◌∷◌, ◌++◌, reverse, arith, nat_eq, take, last,
}
use marmosa.Domain.{EventRecord, Query, descending, read_option_eq}
use marmosa.Exec.Rules.{Runs}
use marmosa.Ports.{Platform, IsLawful}
use marmosa.EventStore.Read.{is_descending}
use marmosa.EventStore.Log.{Represents}
use marmosa.EventStore.Log.Fetch.{order}
use marmosa.EventStore.Log.Exact.{IsPrecise, matching, limit}
use marmosa.EventStore.Contract.{read_async-exact}
use marmosa.Extensions.{first, read_last}

last_exists :
    (y : EventRecord) (ys : List EventRecord) → (z : EventRecord) × (last (y ∷ ys) ≡ some z)
last_exists y [] = (y, refl)
last_exists y (x ∷ xs) = last_exists x xs

first-append :
    (xs ys : List EventRecord)
    → first (xs ++ ys) ≡ (elim (first xs) [ none ↦ first ys | some x ↦ some x ])
unfolding first
first-append [] ys = elim ys [ [] ↦ refl | y ∷ ys' ↦ refl ]
first-append (x ∷ xs) ys = refl

first-reverse : (xs : List EventRecord) → first (reverse xs) ≡ last xs
unfolding first
first-reverse [] = refl
first-reverse (x ∷ []) = refl
first-reverse (x ∷ y ∷ ys) =
    let (z, found) = last_exists y ys in
    let before : first (reverse (y ∷ ys)) ≡ some z = first-reverse (y ∷ ys) ∙ found in
    ap first (reverse-append (x ∷ []) (y ∷ ys))
    ∙ (first-append (reverse (y ∷ ys)) (x ∷ []) ∙ (rw before (sym found)))

first-take : (xs : List EventRecord) → first (take 1 xs) ≡ first xs
unfolding first
first-take [] = refl
first-take (x ∷ xs) = refl

last_lem :
    (query : Query) (rs : List EventRecord)
    → first (limit query (some 1) (order (some (descending ∷ [])) rs)) ≡ last rs
unfolding is_descending
last_lem query rs = ground (arith, first-take (reverse rs), first-reverse rs)

-- If the index files are exact for the query, `read_last_async` returns the matching record of the
-- log that stands last, and none if no record matches.
pub read_last-last :
    (p : Platform) (law : IsLawful p) (query : Query) (log : List EventRecord) (s : p.backend.State)
    → Represents p log (law.reliable.view s)
    → IsPrecise p query log
    → Runs (read_last p query s) (λ r s'.
      (r ≡ last (matching query none log)) × (law.reliable.view s' ≡ law.reliable.view s))
unfolding read_last
read_last-last p law query log s rep precise =
    let (xs, s', e, (same, v)) =
      read_async-exact p law query none (some 1) (some (descending ∷ [])) log s rep (λ k h. cc)
        precise in
    (first xs, s', ground (arith, e), (ap first same ∙ last_lem query (matching query none log), v))
