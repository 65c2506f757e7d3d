-- ===== src/Projections/Store/Paths.antt =====
-- src/projections.rs: where the files of a projection store lie. The file of a key is directly in
-- the directory of the projection; the files of tags and the metadata index are further down.
use mathlib.Core.List.{append_assoc}
use marmosa.Common.{
  ◌≡◌, refl, sym, ap, ◌∙◌, Bool, true, false, not, ◌&&◌, some, ◌∷◌, ◌++◌, arith, Str, str, contains,
  contains-append, nat_eq, list_eq,
}
use marmosa.Text.{strip_prefix}
use marmosa.Text.FileName.{strip_prefix-append, strip_suffix-append}
use marmosa.Domain.{Tag}
use marmosa.Ports.{Platform, is_child, is_below}
use marmosa.Projections.{Formats}
use marmosa.Projections.Flagged.{Flagged}
use marmosa.Projections.Store.{
  StorageBackendProjectionStore, get_projection_path, get_file_path, tag_dir, tag_file,
}
use marmosa.Projections.Store.Metadata.{metadata_index_path}

-- A key, or a projection name, that is one segment of a path
abbrev pub IsPlain : Str → Type 0
IsPlain key = contains b'/' key ≡ false

strip_prefix-dir : (dir x : Str) → strip_prefix (dir ++ str "/") (dir ++ (b'/' ∷ x)) ≡ some x
strip_prefix-dir dir x =
    ap (strip_prefix (dir ++ str "/")) (sym (append_assoc dir (str "/") x))
    ∙ strip_prefix-append (dir ++ str "/") x

pub is_child-dir :
    (dir x : Str) → is_child (dir ++ str "/") (dir ++ (b'/' ∷ x)) ≡ not (contains b'/' x)
unfolding is_child
is_child-dir dir x = rw (is_child, strip_prefix-dir dir x)

pub is_below-dir : (dir x : Str) → is_below dir (dir ++ (b'/' ∷ x)) ≡ true
unfolding is_below
is_below-dir dir x = rw (is_below, strip_prefix-dir dir x)

json_plain : (key : Str) → IsPlain key → contains b'/' (key ++ str ".json") ≡ false
json_plain key h = ground (arith, h, contains-append b'/' key (str ".json"))

module _ (p : Platform) {S : Type 0} (formats : Formats p.Bytes S)
    (store : StorageBackendProjectionStore (Flagged p.backend.State) S) where
  -- The directory of the projection
  abbrev dir : Str
  dir = get_projection_path p formats store

  -- The file belongs to the projection, and is not the file of a key.
  abbrev pub is_side : Str → Bool
  is_side q = is_below dir q && not (is_child (dir ++ str "/") q)

  pub get_file_path-not_side :
      (key : Str) → IsPlain key → is_side (get_file_path p formats store key) ≡ false
  unfolding get_file_path
  get_file_path-not_side key h =
      ground (arith, is_child-dir dir (key ++ str ".json"), json_plain key h)

  pub get_file_path-below : (key : Str) → is_below dir (get_file_path p formats store key) ≡ true
  unfolding get_file_path
  get_file_path-below key = is_below-dir dir (key ++ str ".json")

  -- Two keys have two files.
  pub get_file_path-injective :
      (j k : Str) → get_file_path p formats store j ≡ get_file_path p formats store k → j ≡ k
  unfolding get_file_path
  get_file_path-injective j k e = cc (
    strip_prefix-dir dir (j ++ str ".json"),
    strip_prefix-dir dir (k ++ str ".json"),
    strip_suffix-append j (str ".json"),
    strip_suffix-append k (str ".json"),
  )

  side_of : (x : Str) → contains b'/' x ≡ true → is_side (dir ++ (b'/' ∷ x)) ≡ true
  side_of x h = ground (arith, is_child-dir dir x, is_below-dir dir x, h)

  pub tag_file-side : (tag : Tag) (key : Str) → is_side (tag_file p formats store tag key) ≡ true
  unfolding tag_file tag_dir
  tag_file-side tag key =
      let lower : Str = p.to_lowercase tag.key ++ (b'/' ∷ p.to_lowercase tag.value) in
      let file : Str = b'/' ∷ (key ++ str ".json") in
      rw (append_assoc dir (str "/Indices/" ++ lower) file)
        (side_of (str "Indices/" ++ (lower ++ file)) refl)

  pub metadata_index_path-side : is_side (metadata_index_path p formats store) ≡ true
  unfolding metadata_index_path
  metadata_index_path-side = side_of (str "Metadata/index.json") refl
