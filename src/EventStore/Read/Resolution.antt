-- ===== src/EventStore/Read/Resolution.antt =====
-- Which positions the index files yield for a query, whatever the files hold.
use marmosa.Common.{
  ℕ, ◌≡◌, refl, Bool, true, false, not, ◌&&◌, ◌||◌, Option, none, some, List, [], ◌∷◌, ◌++◌, arith,
  Str, str, nat_eq, any, all, is_empty, contains, contains-append, map,
}
use marmosa.Common.Sorted.{
  Increasing, sort_unstable, contains-sort_unstable, set_extend, to_set, contains-to_set,
  to_set-Increasing, contains-set_extend, set_extend-Increasing, contains-retain, retain-Increasing,
}
use marmosa.Domain.{Tag, QueryItem}
use marmosa.Exec.Rules.{Runs}
use marmosa.Ports.{Platform, Disk, IsLawful}
use marmosa.EventStore.Indices.{
  type_path, tag_path, dedup, collect_positions, get_positions_by_event_types, get_positions_by_tag,
}
use marmosa.EventStore.Indices.Laws.{index_at, get_positions_lem}
use marmosa.EventStore.Read.{
  combine_positions, meet_positions, event_type_positions, tag_positions,
  get_positions_for_query_item, collect_items,
}

contains-dedup : (k : ℕ) (xs : List ℕ) → contains k (dedup xs) ≡ contains k xs
unfolding dedup
contains-dedup k [] = refl
contains-dedup k (x ∷ []) = refl
contains-dedup k (x ∷ y ∷ ys) = ground (arith, contains-dedup k (y ∷ ys))

-- A set that may be absent, and the members that it has if it is there.
abbrev SetOf : Option (List ℕ) → Bool → (ℕ → Bool) → Type 0
SetOf none absent f = absent ≡ true
SetOf (some xs) absent f = (absent ≡ false) × Increasing xs × ((k : ℕ) → contains k xs ≡ f k)

-- A set, and its members.
pub record SetIs (xs : List ℕ) (f : ℕ → Bool) : Type 0 where
  pub increasing : Increasing xs
  pub members : (k : ℕ) → contains k xs ≡ f k

SetOf-congr :
    (o : Option (List ℕ)) (absent absent' : Bool) (f g : ℕ → Bool)
    → absent ≡ absent'
    → ((k : ℕ) → f k ≡ g k)
    → SetOf o absent f
    → SetOf o absent' g
SetOf-congr none absent absent' f g e h m = ground arith
SetOf-congr (some xs) absent absent' f g e h (a, inc, m) =
    (ground arith, inc, λ k. ground (arith, m k, h k))

-- One more set is met with.
meet_lem :
    (o : Option (List ℕ)) (absent : Bool) (f : ℕ → Bool) (xs : List ℕ)
    → SetOf o absent f
    → SetOf (meet_positions o (to_set xs)) false (λ k. (absent || f k) && contains k xs)
unfolding meet_positions
meet_lem none absent f xs h =
    (refl, to_set-Increasing xs, λ k. ground (arith, contains-to_set k xs))
meet_lem (some ys) absent f xs (h, inc, m) = (
  refl,
  retain-Increasing (λ x. contains x (to_set xs)) ys inc,
  λ k.
      ground (arith, contains-retain k (λ x. contains x (to_set xs)) ys, contains-to_set k xs, m k),
)

any-map :
    (g : Str → Bool) (h : Str → Str) (xs : List Str) → any g (map h xs) ≡ any (λ x. g (h x)) xs
any-map g h [] = refl
any-map g h (x ∷ xs) = ground (arith, any-map g h xs)

module _ (p : Platform) where
  open p.backend use {State}

  abbrev in_type : Disk p.Bytes → ℕ → Str → Bool
  in_type d k t = contains k (index_at p d (type_path p (str "Indices") t))

  abbrev in_tag : Disk p.Bytes → ℕ → Tag → Bool
  in_tag d k t = contains k (index_at p d (tag_path p (str "Indices") t))

  -- The index files have the position for the item.
  unfoldable pub is_item_found : Disk p.Bytes → QueryItem → ℕ → Bool
  is_item_found d item k =
      not (is_empty item.event_types && is_empty item.tags)
      && (is_empty item.event_types || any (in_type d k) item.event_types)
      && (is_empty item.tags || all (in_tag d k) item.tags)

  module _ (law : IsLawful p) where
    open law.reliable use {view}

    collect_positions_lem :
        (paths : List Str) (found : List ℕ) (s : State)
        → Runs (collect_positions p paths found s) (λ ps s'.
          ((k : ℕ)
            → contains k ps
              ≡ (contains k found || any (λ q. contains k (index_at p (view s) q)) paths))
          × (view s' ≡ view s))
    unfolding collect_positions
    collect_positions_lem [] found s = (found, s, refl, (λ k. ground arith, refl))
    collect_positions_lem (q ∷ qs) found s =
        let (xs, s1, e1, (x1, v1)) = get_positions_lem p law q s in
        let (ps, s2, e2, (m, v2)) = collect_positions_lem qs (found ++ xs) s1 in
        (
          ps,
          s2,
          ground (arith, e1, e2),
          (λ k. rw (m k, contains-append k found xs, x1, v1) (ground arith), rw (v2, v1)),
        )

    event_type_positions_lem :
        (types : List Str) (s : State)
        → Runs (event_type_positions p types s) (λ o s'.
          SetOf o (is_empty types) (λ k. any (in_type (view s) k) types) × (view s' ≡ view s))
    unfolding event_type_positions get_positions_by_event_types
    event_type_positions_lem [] s = (none, s, refl, (refl, refl))
    event_type_positions_lem (t ∷ ts) s =
        let paths : List Str = map (type_path p (str "Indices")) (t ∷ ts) in
        let (ps, s1, e1, (m, v1)) = collect_positions_lem paths [] s in
        let sorted : List ℕ = dedup (sort_unstable ps) in
        (
          some (to_set sorted),
          s1,
          ground (arith, e1),
          (
            (
              refl,
              to_set-Increasing sorted,
              λ k. ground (
                arith,
                contains-to_set k sorted,
                contains-dedup k (sort_unstable ps),
                contains-sort_unstable k ps,
                m k,
                any-map (λ q. contains k (index_at p (view s) q)) (type_path p (str "Indices"))
                    (t ∷ ts),
              ),
            ),
            v1,
          ),
        )

    tag_positions_lem :
        (tags : List Tag) (o : Option (List ℕ)) (absent : Bool) (f : ℕ → Bool) (s : State)
        → SetOf o absent f
        → Runs (tag_positions p tags o s) (λ o' s'.
          SetOf o' (absent && is_empty tags) (λ k. (absent || f k) && all (in_tag (view s) k) tags)
          × (view s' ≡ view s))
    unfolding tag_positions get_positions_by_tag
    tag_positions_lem [] none absent f s h = (none, s, refl, (ground arith, refl))
    tag_positions_lem [] (some xs) absent f s (h, inc, m) =
        (some xs, s, refl, ((ground arith, inc, λ k. ground (arith, m k)), refl))
    tag_positions_lem (t ∷ ts) o absent f s h =
        let (xs, s1, e1, (x1, v1)) = get_positions_lem p law (tag_path p (str "Indices") t) s in
        let met = meet_lem o absent f xs h in
        let (o', s2, e2, (m, v2)) =
          tag_positions_lem ts (meet_positions o (to_set xs)) false
            (λ k. (absent || f k) && contains k xs) s1 met in
        (
          o',
          s2,
          ground (arith, e1, e2),
          (
            SetOf-congr o' false (absent && false) _ _ (ground arith) (λ k. ground (arith, v1, x1))
                m,
            rw (v2, v1),
          ),
        )

    combine_positions_lem :
        (et tg : Option (List ℕ)) (a b : Bool) (f g : ℕ → Bool)
        → SetOf et a f
        → SetOf tg b g
        → SetIs (combine_positions et tg) (λ k. not (a && b) && (a || f k) && (b || g k))
    unfolding combine_positions
    combine_positions_lem (some xs) (some ys) a b f g (h, inc, m) (i, inc', n) = record {
      increasing = retain-Increasing (λ x. contains x ys) xs inc;
      members = λ k. ground (arith, contains-retain k (λ x. contains x ys) xs, m k, n k);
    }
    combine_positions_lem (some xs) none a b f g (h, inc, m) i = record {
      increasing = inc;
      members = λ k. ground (arith, m k);
    }
    combine_positions_lem none (some ys) a b f g h (i, inc, n) = record {
      increasing = inc;
      members = λ k. ground (arith, n k);
    }
    combine_positions_lem none none a b f g h i = record {
      increasing = tt;
      members = λ k. ground arith;
    }

    get_positions_for_query_item_lem :
        (item : QueryItem) (s : State)
        → Runs
            (get_positions_for_query_item p item s)
            (λ ps s'. SetIs ps (is_item_found (view s) item) × (view s' ≡ view s))
    unfolding get_positions_for_query_item is_item_found
    get_positions_for_query_item_lem item s =
        let (et, s1, e1, (m1, v1)) = event_type_positions_lem item.event_types s in
        let (tg, s2, e2, (m2, v2)) = tag_positions_lem item.tags none true (λ k. true) s1 refl in
        let both = combine_positions_lem et tg _ _ _ _ m1 m2 in
        (
          combine_positions et tg,
          s2,
          ground (arith, e1, e2),
          (
            record {
              increasing = both.increasing;
              members = λ k. rw (both.members k, v1) (ground arith);
            },
            rw (v2, v1),
          ),
        )

    -- The positions that the index files yield for the items of a query.
    pub collect_items_lem :
        (items : List QueryItem) (found : List ℕ) (s : State)
        → Increasing found
        → Runs (collect_items p items found s) (λ ps s'.
          SetIs ps (λ k. contains k found || any (λ item. is_item_found (view s) item k) items)
          × (view s' ≡ view s))
    unfolding collect_items
    collect_items_lem [] found s inc =
        (found, s, refl, (record { increasing = inc; members = λ k. ground arith }, refl))
    collect_items_lem (item ∷ items) found s inc =
        let (xs, s1, e1, (m1, v1)) = get_positions_for_query_item_lem item s in
        let (ps, s2, e2, (m2, v2)) =
          collect_items_lem items (set_extend found xs) s1 (set_extend-Increasing found xs inc) in
        (
          ps,
          s2,
          ground (arith, e1, e2),
          (
            record {
              increasing = m2.increasing;
              members = λ k.
                  rw (m2.members k, v1)
                    (ground (arith, contains-set_extend k found xs, m1.members k));
            },
            rw (v2, v1),
          ),
        )
