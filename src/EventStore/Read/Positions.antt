-- ===== src/EventStore/Read/Positions.antt =====
-- src/event_store/mod.rs: the resolution of a query to positions, on a storage that represents a
-- log.
use marmosa.Common.{
  ℕ, suc, ◌<◌, ◌≡◌, refl, sym, ◌∙◌, ◌⊎◌, inl, inr, Bool, true, false, not, ◌&&◌, ◌||◌, Option, List,
  [], ◌∷◌, arith, Str, str, ◌==◌, nat_eq, list_eq, leb, any, all, any_congr, any-false, all_congr,
  All-of_forall, is_empty, retain, contains, Bool-cases,
}
use marmosa.Common.Sorted.{
  sort_unstable, contains-sort_unstable, sort_unstable-Increasing, contains-retain,
  retain-Increasing,
}
use marmosa.Domain.{Tag, EventRecord, QueryItem, Query}
use marmosa.Exec.Rules.{Runs}
use marmosa.Ports.{Platform, Disk, IsLawful, is_child, is_some}
use marmosa.Text.{strip_prefix}
use marmosa.EventStore.Indices.{type_path, tag_path}
use marmosa.EventStore.Indices.Laws.{index_at}
use marmosa.EventStore.Read.{
  file_positions, first_position, get_all_positions, get_positions_for_query, collect_items,
}
use marmosa.EventStore.Read.Resolution.{is_item_found, collect_items_lem}
use marmosa.EventStore.Log.{
  NumberedFrom, Represents, IsIndexFile, indexes_type, indexes_tag, is_item_candidate, is_candidate,
  candidates, positions_of,
}
use marmosa.EventStore.Log.Positions.{
  Increasing-ext, contains-positions_of, positions_of-Increasing,
}
use marmosa.EventStore.Log.Files.{contains-listed, listed-Distinct}

-- What a log has at a position: one record, or none.
abbrev AtPosition : List EventRecord → ℕ → Type 0
AtPosition log k =
    ((r : EventRecord) × (r.position ≡ k)
      × ((f : EventRecord → Bool) → any (λ x. f x && x.position == k) log ≡ f r))
    ⊎ ((f : EventRecord → Bool) → any (λ x. f x && x.position == k) log ≡ false)

absent_before :
    (n k : ℕ) (log : List EventRecord) (f : EventRecord → Bool)
    → NumberedFrom n log
    → k < n
    → any (λ x. f x && x.position == k) log ≡ false
absent_before n k [] f h l = refl
absent_before n k (r ∷ rs) f h l = ground (arith, absent_before (suc n) k rs f h.1)

at_position : (n k : ℕ) (log : List EventRecord) → NumberedFrom n log → AtPosition log k
at_position n k [] h = inr (λ f. refl)
at_position n k (r ∷ rs) h = elim (Bool-cases (r.position == k)) [
  | inl here ↦ inl (r, ground arith, λ f. ground (arith, absent_before (suc n) k rs f h.1))
  | inr there ↦ elim (at_position (suc n) k rs h.1) [
    | inl (x, at, e) ↦ inl (x, at, λ f. ground (arith, e f))
    | inr e ↦ inr (λ f. ground (arith, e f))
  ]
]

contains-positions_all :
    (k : ℕ) (log : List EventRecord)
    → contains k (positions_of log) ≡ any (λ r. true && r.position == k) log
contains-positions_all k [] = refl
contains-positions_all k (r ∷ rs) = ground (arith, contains-positions_all k rs)

no_item :
    (types : List Str) (tags : List Tag) (f : Str → Bool) (g : Tag → Bool)
    → ((t : Str) → f t ≡ false)
    → ((t : Tag) → g t ≡ false)
    → (not (is_empty types && is_empty tags)
        && (is_empty types || any f types)
        && (is_empty tags || all g tags))
      ≡ false
no_item [] [] f g h i = refl
no_item [] (t ∷ ts) f g h i = ground (arith, i t)
no_item (t ∷ ts) tags f g h i = ground (arith, any-false f (t ∷ ts) h)

module _ (p : Platform) (log : List EventRecord) (d : Disk p.Bytes) (rep : Represents p log d) where
  type_path-IsIndexFile : (t : Str) → IsIndexFile (type_path p (str "Indices") t)
  unfolding type_path strip_prefix
  type_path-IsIndexFile t = refl

  tag_path-IsIndexFile : (t : Tag) → IsIndexFile (tag_path p (str "Indices") t)
  unfolding tag_path strip_prefix
  tag_path-IsIndexFile t = refl

  module _ (k : ℕ) (r : EventRecord)
      (e : (f : EventRecord → Bool) → any (λ x. f x && x.position == k) log ≡ f r) where
    in_type_eq :
        (t : Str) → contains k (index_at p d (type_path p (str "Indices") t)) ≡ indexes_type p t r
    in_type_eq t =
        rep.indices (type_path p (str "Indices") t) k (type_path-IsIndexFile t)
        ∙ e (λ x. indexes_type p t x)

    in_tag_eq :
        (t : Tag) → contains k (index_at p d (tag_path p (str "Indices") t)) ≡ indexes_tag p t r
    in_tag_eq t =
        rep.indices (tag_path p (str "Indices") t) k (tag_path-IsIndexFile t)
        ∙ e (λ x. indexes_tag p t x)

  -- At the position of a record the index files agree with the record.
  found-candidate :
      (item : QueryItem) (k : ℕ) (r : EventRecord)
      → ((f : EventRecord → Bool) → any (λ x. f x && x.position == k) log ≡ f r)
      → is_item_found p d item k ≡ is_item_candidate p item r
  unfolding is_item_found is_item_candidate
  found-candidate item k r e = ground (
    arith,
    any_congr _ (λ t. indexes_type p t r) item.event_types (All-of_forall (in_type_eq k r e) _),
    all_congr _ (λ t. indexes_tag p t r) item.tags (in_tag_eq k r e),
  )

  found-absent :
      (item : QueryItem) (k : ℕ)
      → ((f : EventRecord → Bool) → any (λ x. f x && x.position == k) log ≡ false)
      → is_item_found p d item k ≡ false
  unfolding is_item_found
  found-absent item k e =
      no_item item.event_types item.tags _ _
        (λ t. rep.indices _ k (type_path-IsIndexFile t) ∙ e (λ x. indexes_type p t x))
        (λ t. rep.indices _ k (tag_path-IsIndexFile t) ∙ e (λ x. indexes_tag p t x))

  query_found :
      (items : List QueryItem) (start k : ℕ)
      → (leb start k && any (λ item. is_item_found p d item k) items)
        ≡ any
            (λ r.
              (any (λ item. is_item_candidate p item r) items && leb start r.position)
              && r.position == k)
            log
  query_found items start k = elim (at_position 0 k log rep.numbered) [
    | inl (r, at, e) ↦ ground (
      arith,
      at,
      e (λ x. any (λ item. is_item_candidate p item x) items && leb start x.position),
      any_congr _ (λ item. is_item_candidate p item r) items
          (All-of_forall (λ item. found-candidate item k r e) items),
    )
    | inr e ↦ ground (
      arith,
      e (λ x. any (λ item. is_item_candidate p item x) items && leb start x.position),
      any-false _ items (λ item. found-absent item k e),
    )
  ]

  all_found :
      (start k : ℕ)
      → (leb start k && contains k (positions_of log))
        ≡ any (λ r. leb start r.position && r.position == k) log
  all_found start k = elim (at_position 0 k log rep.numbered) [
    | inl (r, at, e) ↦
        ground
          (arith, at, e (λ x. leb start x.position), e (λ x. true), contains-positions_all k log)
    | inr e ↦
        ground (arith, e (λ x. leb start x.position), e (λ x. true), contains-positions_all k log)
  ]

  module _ (law : IsLawful p) where
    open law.reliable use {view}

    all_positions_lem :
        (start : Option ℕ) (s : p.backend.State)
        → view s ≡ d
        → Runs (get_all_positions p start s) (λ ps s'.
          (ps ≡ positions_of (retain (λ r. leb (first_position start) r.position) log))
          × (view s' ≡ d))
    unfolding get_all_positions
    all_positions_lem start s v =
        let (names, s1, e1, (v1, distinct, listed)) =
          law.reliable.read_dir_law (str "Events") s (ground arith) in
        let lists : (q : Str)
            → contains q names ≡ (is_child (str "Events/") q && is_some (d.file q)) =
          λ q. rw v at (listed q) in
        let found : List ℕ = file_positions names in
        let f : ℕ = first_position start in
        (
          retain (λ q. leb f q) (sort_unstable found),
          s1,
          ground (arith, e1),
          (
            Increasing-ext _ _
                (retain-Increasing (λ q. leb f q) (sort_unstable found)
                  (sort_unstable-Increasing found
                    (listed-Distinct p law.events log d rep names distinct lists)))
                (positions_of-Increasing 0 _ log rep.numbered)
                (λ k. ground (
                  arith,
                  contains-retain k (λ q. leb f q) (sort_unstable found),
                  contains-sort_unstable k found,
                  contains-listed p law.events log d rep names distinct lists k,
                  contains-positions_of k (λ r. leb f r.position) log,
                  all_found f k,
                )),
            v1 ∙ v,
          ),
        )

    items_positions_lem :
        (items : List QueryItem) (start : Option ℕ) (s : p.backend.State)
        → view s ≡ d
        → Runs (collect_items p items [] s) (λ ps s'.
          (retain (λ q. leb (first_position start) q) ps
            ≡ positions_of (
                retain
                  (λ r.
                    any (λ item. is_item_candidate p item r) items
                    && leb (first_position start) r.position)
                  log))
          × (view s' ≡ d))
    items_positions_lem items start s v =
        let (ps, s1, e1, (m, v1)) = collect_items_lem p law items [] s tt in
        let f : ℕ = first_position start in
        (
          ps,
          s1,
          e1,
          (
            Increasing-ext _ _ (retain-Increasing (λ q. leb f q) ps m.increasing)
                (positions_of-Increasing 0 _ log rep.numbered)
                (λ k.
                  contains-retain k (λ q. leb f q) ps
                  ∙ (rw (m.members k, v) (query_found items f k)
                      ∙ sym (contains-positions_of k _ log))),
            v1 ∙ v,
          ),
        )

    -- On a storage that represents a log, the positions that the store resolves a query to are
    -- those of the candidates in the log behind the start position, in their order: the records
    -- that the index files hold for some item of the query, or all if it has no item. The storage
    -- stays as it was.
    pub get_positions_for_query_lem :
        (query : Query) (start : Option ℕ) (s : p.backend.State)
        → view s ≡ d
        → Runs
            (get_positions_for_query p query start s)
            (λ ps s'. (ps ≡ positions_of (candidates p query start log)) × (view s' ≡ d))
    unfolding get_positions_for_query is_candidate
    get_positions_for_query_lem query start s v = elim (Bool-cases (is_empty query.items)) [
      | inl none_given ↦
          let (ps, s1, e1, (x, v1)) = all_positions_lem start s v in
          (ps, s1, ground (arith, e1), (ground (arith, x), v1))
      | inr given ↦
          let (ps, s1, e1, (x, v1)) = items_positions_lem query.items start s v in
          (
            retain (λ q. leb (first_position start) q) ps,
            s1,
            ground (arith, e1),
            (ground (arith, x), v1),
          )
    ]
