-- ===== src/Projections/TagIndex/Meet.antt =====
-- src/projections.rs: `get_projection_keys_by_tags` intersects the keys of its tags.
use marmosa.Common.{
  ℕ, ◌≡◌, refl, ap, ◌∙◌, Bool, true, false, not, ◌&&◌, Option, none, some, List, [], ◌∷◌, ◌++◌,
  arith, Str, list_eq, all, is_empty, nil_of-is_empty, retain, contains, Bool-cases, inl, inr,
  nat_eq,
}
use marmosa.Common.Kept.{contains-retain}
use marmosa.Domain.{Tag}
use marmosa.Exec.Rules.{Runs}
use marmosa.Ports.{Platform, Disk, IsReliable, Codec, IsLossless, is_some}
use marmosa.InMemory.Map
use marmosa.Projections.Store.Query.{key_set}
use marmosa.Projections.TagIndex.{
  get_index_path, insert_by_length, sort_by_length, meet_all, meet_sets, collect_sets,
  get_projection_keys_by_tag, get_projection_keys_by_tags,
}
use marmosa.Projections.TagIndex.Laws.{keys_at, read_keys_lem}

contains-key_set :
    (k : Str) (keys : List Str) → contains k (Map.keys (key_set keys)) ≡ contains k keys
unfolding key_set
contains-key_set k [] = Map.contains-keys k Map.empty ∙ ap is_some (Map.get-empty k)
contains-key_set k (key ∷ keys) = ground (
  arith,
  Map.contains-keys k (Map.insert key tt (key_set keys)),
  Map.get-insert k key tt (key_set keys),
  Map.contains-keys k (key_set keys),
  contains-key_set k keys,
  (list_eq {A = ℕ}).beq_iff k key,
  (list_eq {A = ℕ}).beq_iff key k,
)

-- Every list has the key.
abbrev in_all : Str → List (List Str) → Bool
in_all k sets = all (contains k) sets

none_in-empty : (k : Str) (keys : List Str) → is_empty keys ≡ true → contains k keys ≡ false
none_in-empty k keys h = rw (nil_of-is_empty keys h) refl

contains-meet_all :
    (k : Str) (keys : List Str) (sets : List (List Str))
    → contains k (meet_all keys sets) ≡ (contains k keys && in_all k sets)
unfolding meet_all
contains-meet_all k keys [] = ground arith
contains-meet_all k keys (set ∷ sets) =
    let kept : List Str = retain (λ j. contains j set) keys in
    ground (
      arith,
      contains-retain (λ j. contains j set) k keys,
      contains-meet_all k kept sets,
      none_in-empty k kept,
    )

all-insert_by_length :
    (k : Str) (keys : List Str) (sets : List (List Str))
    → in_all k (insert_by_length keys sets) ≡ (contains k keys && in_all k sets)
unfolding insert_by_length
all-insert_by_length k keys [] = refl
all-insert_by_length k keys (set ∷ sets) = ground (arith, all-insert_by_length k keys sets)

all-sort_by_length :
    (k : Str) (sets : List (List Str)) → in_all k (sort_by_length sets) ≡ in_all k sets
unfolding sort_by_length
all-sort_by_length k [] = refl
all-sort_by_length k (set ∷ sets) =
    ground (arith, all-insert_by_length k set (sort_by_length sets), all-sort_by_length k sets)

is_empty-insert :
    (keys : List Str) (sets : List (List Str)) → is_empty (insert_by_length keys sets) ≡ false
unfolding insert_by_length
is_empty-insert keys [] = refl
is_empty-insert keys (set ∷ sets) = ground arith

is_empty-sort : (sets : List (List Str)) → is_empty (sort_by_length sets) ≡ is_empty sets
unfolding sort_by_length
is_empty-sort [] = refl
is_empty-sort (set ∷ sets) = is_empty-insert set (sort_by_length sets)

contains-meet_sets :
    (k : Str) (sets : List (List Str))
    → contains k (meet_sets sets) ≡ (not (is_empty sets) && in_all k sets)
unfolding meet_sets
contains-meet_sets k [] = refl
contains-meet_sets k (keys ∷ sets) =
    contains-meet_all k (Map.keys (key_set keys)) sets
    ∙ ap (λ b. b && in_all k sets) (contains-key_set k keys)

abbrev shared : Option (List (List Str)) → List Str
shared none = []
shared (some sets) = meet_sets (sort_by_length sets)

all-append :
    (k : Str) (xs ys : List (List Str)) → in_all k (xs ++ ys) ≡ (in_all k xs && in_all k ys)
all-append k [] ys = refl
all-append k (x ∷ xs) ys = ground (arith, all-append k xs ys)

is_empty-append_one : (xs : List (List Str)) (y : List Str) → is_empty (xs ++ y ∷ []) ≡ false
is_empty-append_one [] y = refl
is_empty-append_one (x ∷ xs) y = refl

module _ (p : Platform) (keys_json : Codec p.Bytes (List Str)) (reliable : IsReliable p.backend)
    (lossless : IsLossless keys_json) where
  open p.backend use {State}
  open reliable use {view}

  abbrev has_tags : Disk p.Bytes → Str → Str → List Tag → Bool
  has_tags d root k tags =
      all (λ tag. contains k (keys_at p keys_json d (get_index_path root tag))) tags

  collect_sets_lem :
      (root k : Str) (tags : List Tag) (sets : List (List Str)) (d : Disk p.Bytes) (w : State)
      → view w ≡ d
      → Runs (collect_sets p keys_json root tags sets w) (λ found _.
        contains k (shared found)
        ≡ (not (is_empty sets && is_empty tags) && (in_all k sets && has_tags d root k tags)))
  unfolding collect_sets get_projection_keys_by_tag
  collect_sets_lem root k [] sets d w v = (
    some sets,
    w,
    refl,
    ground (
      arith,
      contains-meet_sets k (sort_by_length sets),
      all-sort_by_length k sets,
      is_empty-sort sets,
    ),
  )
  collect_sets_lem root k (tag ∷ tags) sets d w v =
      let path : Str = get_index_path root tag in
      let (keys, w1, e1, (same, v1)) = read_keys_lem p keys_json reliable lossless path w in
      let here : keys ≡ keys_at p keys_json d path = rw v at same in
      elim (Bool-cases (is_empty keys)) [
        | inl nothing ↦ (
          none,
          w1,
          ground (arith, e1, nothing),
          ground (arith, here, none_in-empty k keys nothing),
        )
        | inr there ↦
            let (found, w2, e2, members) =
              collect_sets_lem root k tags (sets ++ keys ∷ []) d w1 (v1 ∙ v) in
            (
              found,
              w2,
              ground (arith, e1, there, e2),
              members
                  ∙ ground
                      (arith, here, all-append k sets (keys ∷ []), is_empty-append_one sets keys),
            )
      ]

  -- A key is among those of a list of tags exactly if the list is not empty and the key is in the
  -- index file of each tag, in whatever order and number the files have their keys.
  pub contains-get_keys_by_tags :
      (root k : Str) (tags : List Tag) (w : State)
      → Runs (get_projection_keys_by_tags p keys_json root tags w) (λ keys _. contains k keys ≡ (
          not (is_empty tags)
          && all (λ tag. contains k (keys_at p keys_json (view w) (get_index_path root tag))) tags))
  unfolding get_projection_keys_by_tags
  contains-get_keys_by_tags root k [] w = ([], w, refl, refl)
  contains-get_keys_by_tags root k (tag ∷ tags) w =
      let (found, w', e, members) = collect_sets_lem root k (tag ∷ tags) [] (view w) w refl in
      (shared found, w', ground (arith, e), members)
