-- ===== src/EventStore/Read/Records.antt =====
-- src/event_store/mod.rs: reading the files of resolved positions from a storage that represents
-- a log, one after the other and together.
use mathlib.Core.List.{append-nil, append_assoc}
use marmosa.Common.Every.{All-retain, All-take, All-reverse, All-mono, All-both}
use marmosa.Common.{
  beq_refl, subst, nil_of-is_empty, ℕ, zero, suc, ◌+◌, ◌≤◌, ◌<◌, ◌≡◌, refl, ◌∙◌, true, not, ◌&&◌,
  Option, none, some, List, [], ◌∷◌, ◌++◌, map, arith, str, nat_eq, list_eq, ltb, length, is_empty,
  All, contains, Bool-cases, inl, inr,
}
use marmosa.Text.{u64_mod, event_file}
use marmosa.Text.FileName.{event_file-injective}
use marmosa.Domain.{EventRecord, Query, ReadOption, matches}
use marmosa.Exec.{ok, returns}
use marmosa.Exec.Rules.{Runs}
use marmosa.Ports.{Platform, Disk, IsLawful}
use marmosa.EventStore.Read.{
  is_descending, is_full, read_record, join_all, push_results, read_matching, read_limited,
  read_positioned, read_async,
}
use marmosa.EventStore.Read.Positions.{get_positions_for_query_lem}
use marmosa.EventStore.Log.{NumberedFrom, Represents, record_at, candidates, positions_of}
use marmosa.EventStore.Log.Files.{event_content}
use marmosa.EventStore.Log.Fetch.{
  scan, order, cut, fetch_limited, fetch, length-positions_of, is_empty-positions_of,
  positions_of-cut,
}

-- The record is the one that its file shows.
abbrev pub IsStored : List EventRecord → EventRecord → Type 0
IsStored log r =
    (record_at (event_file (str "Events") r.position) log ≡ some r)
    × (contains r.position (positions_of log) ≡ true)

later_bounds :
    (n : ℕ) (log : List EventRecord)
    → NumberedFrom n log
    → All (λ r. (n ≤ r.position) × (r.position < n + length log)) log
later_bounds n [] h = tt
later_bounds n (r ∷ rs) h =
    (omega arith, All-mono _ _ (λ x b. omega arith) rs (later_bounds (suc n) rs h.1))

-- Every record of a numbered log is stored under its own position.
pub IsStored-all :
    (n : ℕ) (log : List EventRecord)
    → NumberedFrom n log
    → n + length log < u64_mod
    → All (IsStored log) log
unfolding record_at
IsStored-all n [] h f = tt
IsStored-all n (r ∷ rs) h f =
    let later = later_bounds (suc n) rs h.1 in
    let rest = IsStored-all (suc n) rs h.1 (omega arith) in
    (
      ground (arith, beq_refl (event_file (str "Events") r.position)),
      All-mono _ _
          (λ x (b, (found, m)). ground (
            arith,
            found,
            m,
            b,
            h.0,
            f,
            (list_eq {A = ℕ}).beq_iff (event_file (str "Events") x.position)
                (event_file (str "Events") r.position),
            event_file-injective (str "Events") x.position r.position,
          ))
          rs (All-both _ _ rs later rest),
    )

module _ (p : Platform) (law : IsLawful p) (log : List EventRecord) (d : Disk p.Bytes)
    (rep : Represents p log d) where
  open law.reliable use {view}
  open p.backend use {State}

  read_record_lem :
      (r : EventRecord) (s : State)
      → IsStored log r
      → view s ≡ d
      → Runs (read_record p r.position s) (λ x s'. (x ≡ r) × (view s' ≡ d))
  unfolding read_record
  read_record_lem r s (found, m) v =
      let (r', c, at, found', stored, read) = event_content p law.events log d rep r.position m in
      let (a, s1, e1, (same, v1)) =
        law.reliable.read_file_hit (event_file (str "Events") r.position) s c (rw v stored) in
      (r, s1, ground (arith, e1, same, read, found, found'), (refl, v1 ∙ v))

  join_all_lem :
      (rs : List EventRecord) (s : State)
      → All (IsStored log) rs
      → view s ≡ d
      → Runs (join_all p (positions_of rs) s) (λ xs s'. (xs ≡ map ok rs) × (view s' ≡ d))
  unfolding join_all
  join_all_lem [] s h v = ([], s, refl, (refl, v))
  join_all_lem (r ∷ rs) s (h, hs) v =
      let (x, s1, e1, (same, v1)) = read_record_lem r s h v in
      let (xs, s2, e2, (all_same, v2)) = join_all_lem rs s1 hs v1 in
      (ok r ∷ map ok rs, s2, ground (arith, e1, e2, same, all_same), (refl, v2))

  push_results_lem :
      (rs results : List EventRecord) (s : State)
      → push_results p (map ok rs) results s ≡ returns (results ++ rs) s
  unfolding push_results
  push_results_lem [] results s = rw append-nil
  push_results_lem (r ∷ rs) results s =
      push_results_lem rs (results ++ r ∷ []) s ∙ rw (append_assoc results (r ∷ []) rs)

  read_matching_lem :
      (query : Query) (max_count : Option ℕ) (rs results : List EventRecord) (s : State)
      → All (IsStored log) rs
      → view s ≡ d
      → Runs
          (read_matching p query max_count (positions_of rs) results s)
          (λ xs s'. (xs ≡ scan query max_count rs results) × (view s' ≡ d))
  unfolding read_matching scan
  read_matching_lem query max_count [] results s h v = (results, s, refl, (refl, v))
  read_matching_lem query max_count (r ∷ rs) results s (h, hs) v =
      let (x, s1, e1, (same, v1)) = read_record_lem r s h v in
      let pushed = results ++ r ∷ [] in
      elim (Bool-cases (matches query r)) [
        | inr skip ↦
            let (xs, s2, e2, (y, v2)) = read_matching_lem query max_count rs results s1 hs v1 in
            (xs, s2, ground (arith, e1, same, skip, e2), (ground (arith, skip, y), v2))
        | inl hit ↦ elim (Bool-cases (is_full max_count pushed)) [
          | inl full ↦
              (pushed, s1, ground (arith, e1, same, hit, full), (ground (arith, hit, full), v1))
          | inr more ↦
              let (xs, s2, e2, (y, v2)) = read_matching_lem query max_count rs pushed s1 hs v1 in
              (xs, s2, ground (arith, e1, same, hit, more, e2), (ground (arith, hit, more, y), v2))
        ]
      ]

  order-IsStored :
      (options : Option (List ReadOption)) (rs : List EventRecord)
      → All (IsStored log) rs
      → All (IsStored log) (order options rs)
  order-IsStored options rs h = elim (Bool-cases (is_descending options)) [
    | inl down ↦ rw (down, order) (All-reverse (IsStored log) rs h)
    | inr up ↦ rw (up, order) h
  ]

  cut-IsStored :
      (query : Query) (max_count : Option ℕ) (options : Option (List ReadOption))
      (rs : List EventRecord)
      → All (IsStored log) rs
      → All (IsStored log) (cut query max_count (order options rs))
  cut-IsStored query none options rs h = order-IsStored options rs h
  cut-IsStored query (some max) options rs h = elim (Bool-cases (is_empty query.items)) [
    | inl whole ↦ rw (whole, cut) (order-IsStored options rs h)
    | inr part ↦
        rw (part, cut)
          (All-take (IsStored log) max (order options rs) (order-IsStored options rs h))
  ]

  read_limited_lem :
      (query : Query) (max_count : Option ℕ) (rs : List EventRecord) (s : State)
      → All (IsStored log) rs
      → view s ≡ d
      → Runs
          (read_limited p query max_count (positions_of rs) s)
          (λ xs s'. (xs ≡ fetch_limited query max_count rs) × (view s' ≡ d))
  unfolding read_limited fetch_limited
  read_limited_lem query max_count rs s h v =
      elim (Bool-cases (not (is_empty query.items) && ltb 10 (length rs))) [
        | inl many ↦
            let (xs, s1, e1, (same, v1)) = join_all_lem rs s h v in
            (
              rs,
              s1,
              ground (arith, length-positions_of rs, many, e1, same, push_results_lem rs [] s1),
              (ground (arith, many), v1),
            )
        | inr few ↦
            let (xs, s1, e1, (same, v1)) = read_matching_lem query max_count rs [] s h v in
            (
              xs,
              s1,
              ground (arith, length-positions_of rs, few, e1),
              (ground (arith, few, same), v1),
            )
      ]

  read_positioned_lem :
      (query : Query) (max_count : Option ℕ) (options : Option (List ReadOption))
      (rs : List EventRecord) (s : State)
      → All (IsStored log) rs
      → view s ≡ d
      → Runs
          (read_positioned p query max_count options (positions_of rs) s)
          (λ xs s'. (xs ≡ fetch query max_count options rs) × (view s' ≡ d))
  unfolding read_positioned fetch
  read_positioned_lem query max_count options rs s h v =
      subst
        (λ ps.
          Runs (read_limited p query max_count ps s)
            (λ xs s'. (xs ≡ fetch query max_count options rs) × (view s' ≡ d)))
        (positions_of-cut query max_count options rs)
        (read_limited_lem query max_count (cut query max_count (order options rs)) s
          (cut-IsStored query max_count options rs h) v)

  pub fetch-nil :
      (query : Query) (max_count : Option ℕ) (options : Option (List ReadOption))
      → fetch query max_count options [] ≡ []
  unfolding fetch fetch_limited scan
  fetch-nil query none options = ground arith
  fetch-nil query (some zero) options = ground arith
  fetch-nil query (some (suc n)) options = ground arith

  -- A read returns what `fetch` takes of the candidates, and leaves the storage as it was.
  pub read_async-fetch :
      (query : Query) (start max_count : Option ℕ) (options : Option (List ReadOption)) (s : State)
      → view s ≡ d
      → Runs (read_async p query start max_count options s) (λ xs s'.
        (xs ≡ fetch query max_count options (candidates p query start log)) × (view s' ≡ d))
  unfolding read_async
  read_async-fetch query start max_count options s v =
      let found = candidates p query start log in
      let (ps, s1, e1, (same, v1)) = get_positions_for_query_lem p log d rep law query start s v in
      let (xs, s2, e2, (y, v2)) =
        read_positioned_lem query max_count options found s1
          (All-retain (IsStored log) _ log
            (IsStored-all 0 log rep.numbered (omega (arith, rep.fits))))
          v1 in
      elim (Bool-cases (is_empty found)) [
        | inl nothing ↦ (
          [],
          s1,
          ground (arith, e1, same, is_empty-positions_of found, nothing),
          (rw (nil_of-is_empty found nothing, fetch-nil), v1),
        )
        | inr something ↦
            (xs, s2, ground (arith, e1, same, is_empty-positions_of found, something, e2), (y, v2))
      ]
