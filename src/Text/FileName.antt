-- ===== src/Text/FileName.antt =====
-- The name of an event file and the position in it.
use mathlib.Core.List.{reverse-append, reverse-reverse}
use marmosa.Common.{
  ℕ, ◌<◌, ◌≡◌, refl, false, some, [], ◌∷◌, ◌++◌, reverse, arith, Str, str, ◌==◌, nat_eq, beq_refl,
  if◌then◌else◌, contains, contains-append,
}
use marmosa.Text.{
  u64_mod, pad10, segment_from, last_segment, strip_prefix, strip_suffix, event_file,
  position_of_file,
}
use marmosa.Text.Decimal.{pad10_plain, parse_u64-pad10}

segment_from_plain : (tail s : Str) → contains b'/' s ≡ false → segment_from tail s ≡ tail
unfolding segment_from
segment_from_plain tail [] h = refl
segment_from_plain tail (c ∷ cs) h = ground (arith, segment_from_plain tail cs)

segment_from-append :
    (tail dir s : Str) → contains b'/' s ≡ false → segment_from tail (dir ++ (b'/' ∷ s)) ≡ s
unfolding segment_from
segment_from-append tail [] s h = segment_from_plain s s h
segment_from-append tail (c ∷ cs) s h =
    segment_from-append (if c == b'/' then cs ++ (b'/' ∷ s) else tail) cs s h

-- The file name behind a directory is the last segment of the path.
pub last_segment-append :
    (dir s : Str) → contains b'/' s ≡ false → last_segment (dir ++ (b'/' ∷ s)) ≡ s
unfolding last_segment
last_segment-append dir s h = segment_from-append (dir ++ (b'/' ∷ s)) dir s h

pub strip_prefix-append : (p s : Str) → strip_prefix p (p ++ s) ≡ some s
unfolding strip_prefix
strip_prefix-append [] s = refl
strip_prefix-append (c ∷ cs) s = rw beq_refl (strip_prefix-append cs s)

pub strip_suffix-append : (s suffix : Str) → strip_suffix suffix (s ++ suffix) ≡ some s
unfolding strip_suffix
strip_suffix-append s suffix = ground (
  arith,
  reverse-append s suffix,
  strip_prefix-append (reverse suffix) (reverse s),
  reverse-reverse s,
)

pub file_stem_plain : (n : ℕ) → contains b'/' (pad10 n ++ str ".json") ≡ false
file_stem_plain n = ground (arith, contains-append b'/' (pad10 n) (str ".json"), pad10_plain b'/' n)

-- The position that the name of an event file shows is the one that the name was made for, for
-- every `u64` and every directory.
pub position_of_file-event_file :
    (dir : Str) (n : ℕ) → n < u64_mod → position_of_file (event_file dir n) ≡ some n
unfolding position_of_file event_file
position_of_file-event_file dir n h = ground (
  arith,
  last_segment-append dir (pad10 n ++ str ".json") (file_stem_plain n),
  strip_suffix-append (pad10 n) (str ".json"),
  parse_u64-pad10 n h,
)

-- Two positions have two files.
pub event_file-injective :
    (dir : Str) (m n : ℕ) → m < u64_mod → n < u64_mod → event_file dir m ≡ event_file dir n → m ≡ n
event_file-injective dir m n h k e =
    cc (position_of_file-event_file dir m h, position_of_file-event_file dir n k)
