-- ===== src/Projections/TagIndex/Contract.antt =====
-- src/projections.rs: what `get_projection_keys_by_tag` returns behind `add_projection` and
-- `remove_projection`.
use marmosa.Common.{
  ℕ, ◌≡◌, ap, ◌∙◌, Bool, false, not, ◌&&◌, ◌||◌, List, arith, Str, ◌==◌, list_eq, contains,
  Bool-cases, inl, inr, if◌then◌else◌, nat_eq,
}
use marmosa.Domain.{Tag}
use marmosa.Exec.Rules.{Runs}
use marmosa.Ports.{Platform, Disk, IsReliable, Codec, IsLossless}
use marmosa.Projections.TagIndex.{
  get_index_path, get_tag_lock_key, add_projection, remove_projection, get_projection_keys_by_tag,
}
use marmosa.Projections.TagIndex.Laws.{
  keys_in, keys_at, Changes, read_keys_lem, add_projection_lem, remove_projection_lem,
}

module _ (p : Platform) (keys_json : Codec p.Bytes (List Str)) (reliable : IsReliable p.backend)
    (lossless : IsLossless keys_json) where
  open p.backend use {State}
  open reliable use {view}

  -- What a change of the file of one tag does to the keys of any tag
  Changes-other :
      (root : Str) (tag other : Tag) (f : Str → Bool → Bool) {d d' : Disk p.Bytes}
      → Changes p keys_json (get_index_path root tag) f d d'
      → (k : Str)
      → contains k (keys_at p keys_json d' (get_index_path root other)) ≡ (
          if get_index_path root other == get_index_path root tag
          then f k (contains k (keys_at p keys_json d (get_index_path root other)))
          else contains k (keys_at p keys_json d (get_index_path root other)))
  Changes-other root tag other f {d} {d'} changes k =
      elim (Bool-cases (get_index_path root other == get_index_path root tag)) [
        | inl same ↦
            let e : get_index_path root other ≡ get_index_path root tag =
              ((list_eq {A = ℕ}).beq_iff _ _).0 same in
            rw (same, e) (changes.members k)
        | inr differ ↦
            rw differ (ap (λ c. contains k (keys_in p keys_json c)) (changes.others _ differ))
      ]

  -- If no task holds the lock of a tag, a key is added to its index: after that, any tag yields the
  -- keys that it yielded before, and the new key too if its index file is that of the tag, that is
  -- if their names differ at most in the case of ASCII letters or happen to make the same file name.
  pub get_keys-add :
      (root : Str) (tag other : Tag) (key k : Str) (w : State)
      → (view w).locked (get_tag_lock_key root tag) ≡ false
      → Runs (get_projection_keys_by_tag p keys_json root other w) (λ before w1.
        Runs (add_projection p keys_json root tag key w1) (λ _ w2.
          Runs (get_projection_keys_by_tag p keys_json root other w2) (λ after _.
            contains k after ≡ (
              contains k before
              || (get_index_path root other == get_index_path root tag && key == k)))))
  unfolding get_projection_keys_by_tag
  get_keys-add root tag other key k w free =
      let path : Str = get_index_path root other in
      let (before, w1, e1, (same1, v1)) = read_keys_lem p keys_json reliable lossless path w in
      let (u, w2, e2, changes) =
        add_projection_lem p keys_json reliable lossless root tag key w1 (rw v1 free) in
      let (after, w3, e3, (same3, v3)) = read_keys_lem p keys_json reliable lossless path w2 in
      let now = Changes-other root tag other _ changes k in
      (
        before,
        w1,
        e1,
        (u, w2, e2, (after, w3, e3, ap (contains k) same3 ∙ (now ∙ rw (same1, v1) (ground arith)))),
      )

  -- If no task holds the lock of a tag, a key is removed from its index, whether there is a file or
  -- not: after that, any tag yields the keys that it yielded before, but for the one if its index
  -- file is that of the tag, that is if their names differ at most in the case of ASCII letters or
  -- happen to make the same file name.
  pub get_keys-remove :
      (root : Str) (tag other : Tag) (key k : Str) (w : State)
      → (view w).locked (get_tag_lock_key root tag) ≡ false
      → Runs (get_projection_keys_by_tag p keys_json root other w) (λ before w1.
        Runs (remove_projection p keys_json root tag key w1) (λ _ w2.
          Runs (get_projection_keys_by_tag p keys_json root other w2) (λ after _.
            contains k after ≡ (
              contains k before
              && not (get_index_path root other == get_index_path root tag && k == key)))))
  unfolding get_projection_keys_by_tag
  get_keys-remove root tag other key k w free =
      let path : Str = get_index_path root other in
      let (before, w1, e1, (same1, v1)) = read_keys_lem p keys_json reliable lossless path w in
      let (u, w2, e2, changes) =
        remove_projection_lem p keys_json reliable lossless root tag key w1 (rw v1 free) in
      let (after, w3, e3, (same3, v3)) = read_keys_lem p keys_json reliable lossless path w2 in
      let now = Changes-other root tag other _ changes k in
      (
        before,
        w1,
        e1,
        (u, w2, e2, (after, w3, e3, ap (contains k) same3 ∙ (now ∙ rw (same1, v1) (ground arith)))),
      )
