-- ===== src/Text.antt =====
-- The functions of Rust's standard library on `str` that the store calls to build and read file
-- names: `format!("{:010}")`, `parse::<u64>`, `split('/').next_back()`, `strip_suffix`, `replace`.
pub mod Decimal
pub mod FileName
use marmosa.Common.{
  ℕ, zero, suc, ◌+◌, ◌-◌, ◌*◌, ◌/◌, ◌%◌, ◌^◌, Bool, ◌&&◌, Option, none, some, List, [], ◌∷◌, ◌++◌,
  map, reverse, Str, str, ltb, leb, ◌==◌, nat_eq, if◌then◌else◌, length, replicate, contains,
}

-- The number of values of a `u64`.
abbrev pub u64_mod : ℕ
u64_mod = 2 ^ 64

-- `format!("{}", n)`, by at most `f` digits.
unfoldable pub digits : ℕ → ℕ → Str
digits zero n = []
digits (suc f) n =
    let rest = digits f (n / 10) in
    if ltb n 10 then (b'0' + n) ∷ [] else rest ++ (b'0' + n % 10) ∷ []

-- A `u64` has at most 20 digits.
unfoldable pub to_string : ℕ → Str
unfolding digits
to_string n = digits 20 n

-- `format!("{:010}", n)`
unfoldable pub pad10 : ℕ → Str
unfolding to_string
pad10 n = let ds = to_string n in replicate (10 - length ds) b'0' ++ ds

-- The loop of `parse::<u64>`, with its checked multiplication and addition.
unfoldable pub parse_digits : ℕ → Str → Option ℕ
parse_digits a [] = some a
parse_digits a (c ∷ cs) =
    let rest = parse_digits (a * 10 + (c - b'0')) cs in
    if leb b'0' c && leb c b'9'
    then (if ltb (a * 10 + (c - b'0')) u64_mod then rest else none)
    else none

-- `parse::<u64>().ok()`: an optional sign `+`, then digits.
unfoldable pub parse_u64 : Str → Option ℕ
unfolding parse_digits
parse_u64 [] = none
parse_u64 (c ∷ []) = parse_digits 0 (c ∷ [])
parse_u64 (c ∷ d ∷ cs) = if c == b'+' then parse_digits 0 (d ∷ cs) else parse_digits 0 (c ∷ d ∷ cs)

-- The part of a text behind its last `/`; `tail` is what follows the last one so far.
unfoldable pub segment_from : Str → Str → Str
segment_from tail [] = tail
segment_from tail (c ∷ cs) = segment_from (if c == b'/' then cs else tail) cs

-- `s.split('/').next_back()`
unfoldable pub last_segment : Str → Str
unfolding segment_from
last_segment s = segment_from s s

unfoldable pub strip_prefix : Str → Str → Option Str
strip_prefix [] s = some s
strip_prefix (p ∷ ps) [] = none
strip_prefix (p ∷ ps) (c ∷ cs) = if p == c then strip_prefix ps cs else none

-- `s.strip_suffix(suffix)`
unfoldable pub strip_suffix : Str → Str → Option Str
unfolding strip_prefix
strip_suffix suffix s = elim (strip_prefix (reverse suffix) (reverse s)) [
  | none ↦ none
  | some r ↦ some (reverse r)
]

-- `s.replace(from, "_")` for a text `from` of one character
unfoldable pub replace : ℕ → Str → Str
replace from s = map (λ c. if c == from then b'_' else c) s

-- `format!("{}/{:010}.json", dir, position)`
unfoldable pub event_file : Str → ℕ → Str
event_file dir position = dir ++ (b'/' ∷ (pad10 position ++ str ".json"))

-- `f.split('/').next_back()?.strip_suffix(".json")?.parse::<u64>().ok()`
unfoldable pub position_of_file : Str → Option ℕ
position_of_file f = elim (strip_suffix (str ".json") (last_segment f)) [
  | none ↦ none
  | some stem ↦ parse_u64 stem
]
