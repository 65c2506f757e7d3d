-- ===== src/Maintain/Options.antt =====
-- src/event_store/options.rs: the options of a store. White space and absolute paths are those of
-- Rust's standard library, given as tests; a panic is a missing value.
use marmosa.Common.{
  ℕ, ◌+◌, ◌≡◌, Bool, true, false, ◌&&◌, ◌||◌, Option, none, some, List, [], ◌∷◌, ◌++◌, map, arith,
  Str, str, ◌==◌, nat_eq, list_eq, leb, all, contains, if◌then◌else◌,
}
use marmosa.Ports.{is_some}

pub record OpossumOptions : Type 0 where
  pub root_path : Str
  pub store_name : Option Str
  pub flush_events_immediately : Bool

-- `OpossumOptions::new`
unfoldable pub new_options : Str → OpossumOptions
new_options root_path = record {
  root_path = root_path;
  store_name = none;
  flush_events_immediately = true;
}

-- The test of the characters of a store name.
unfoldable pub has_invalid : Str → Bool
has_invalid name =
    contains b'/' name
    || contains 92 name
    || contains b':' name
    || contains b'*' name
    || contains b'?' name

-- `starts_with('/') || chars().nth(1) == Some(':')`, the test of a build without `std`.
unfoldable pub looks_absolute : Str → Bool
looks_absolute [] = false
looks_absolute (c ∷ []) = c == b'/'
looks_absolute (c ∷ d ∷ cs) = c == b'/' || d == b':'

-- `eq_ignore_ascii_case`
unfoldable pub eq_ignore_ascii_case : Str → Str → Bool
eq_ignore_ascii_case a b =
    let lower = map (λ c. if leb b'A' c && leb c b'Z' then c + 32 else c) in lower a == lower b

module _ (is_whitespace : ℕ → Bool) where
  -- `trim().is_empty()`
  unfoldable pub is_blank : Str → Bool
  is_blank s = all is_whitespace s

  -- `use_store`
  unfoldable use_store : Str → OpossumOptions → Option OpossumOptions
  unfolding has_invalid is_blank
  use_store name o =
      if is_some o.store_name
      then none
      else if is_blank name
      then none
      else if has_invalid name
      then none
      else some (record o { store_name = some name })

  -- The failures of the root path
  unfoldable pub root_failures : (Str → Bool) → Str → List Str
  unfolding is_blank
  root_failures is_absolute root_path =
      if is_blank root_path
      then str "RootPath cannot be null or empty" ∷ []
      else (if is_absolute root_path then [] else str "RootPath must be an absolute path" ∷ [])
        ++ (if contains b'|' root_path || contains 0 root_path
            then str "RootPath contains invalid characters" ∷ []
            else [])

  -- Those of the store name
  unfoldable pub name_failures : Option Str → List Str
  unfolding eq_ignore_ascii_case
  name_failures none = str "StoreName must be configured" ∷ []
  name_failures (some name) =
      if eq_ignore_ascii_case name (str "CON") || eq_ignore_ascii_case name (str "PRN")
      then (str "Invalid store name '" ++ (name ++ str "'")) ∷ []
      else []

  -- `validate`: its failures; none of them is `Ok`.
  unfoldable pub validate : (Str → Bool) → OpossumOptions → List Str
  unfolding root_failures name_failures
  validate is_absolute o = root_failures is_absolute o.root_path ++ name_failures o.store_name

  -- Options that pass `validate` have a root path that is not blank, is absolute, and has neither
  -- a bar nor a null character, and they have a store name.
  pub validate_sound :
      (is_absolute : Str → Bool) (o : OpossumOptions)
      → validate is_absolute o ≡ []
      → (is_blank o.root_path ≡ false)
        × (is_absolute o.root_path ≡ true)
        × ((contains b'|' o.root_path || contains 0 o.root_path) ≡ false)
        × (is_some o.store_name ≡ true)
  unfolding validate root_failures name_failures
  validate_sound is_absolute o h = ground arith

  -- Whatever `use_store` makes of options, it panics when it is called on them again.
  use_store-twice :
      (first second : Str) (o o' : OpossumOptions)
      → use_store first o ≡ some o'
      → use_store second o' ≡ none
  unfolding use_store
  use_store-twice first second o o' h = ground arith
