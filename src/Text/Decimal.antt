-- ===== src/Text/Decimal.antt =====
-- `format!` and `parse::<u64>`: the decimal digits of a `u64`, padded with zeros or not.
use native.Mathlib.Nat.{pow-suc}
use marmosa.Common.{
  ◌≢◌, ◌∙◌, ℕ, zero, suc, ◌+◌, ◌-◌, ◌*◌, ◌/◌, ◌%◌, ◌^◌, ◌<◌, ◌≡◌, refl, ap, false, Option, none,
  some, [], ◌∷◌, ◌++◌, arith, Str, nat_eq, length, length-append, replicate, contains,
  contains-append,
}
use marmosa.Text.{u64_mod, digits, pad10, parse_digits, parse_u64}

-- One digit more.
snoc_digit : ℕ → Option ℕ → Option ℕ
snoc_digit c none = none
snoc_digit c (some b) = parse_digits b (c ∷ [])

parse_digits-snoc :
    (a c : ℕ) (xs : Str) → parse_digits a (xs ++ c ∷ []) ≡ snoc_digit c (parse_digits a xs)
unfolding parse_digits snoc_digit
parse_digits-snoc a c [] = refl
parse_digits-snoc a c (x ∷ xs) = ground (arith, parse_digits-snoc (a * 10 + (x - b'0')) c xs)

parse_digits-one :
    (b d : ℕ) → d < 10 → b * 10 + d < u64_mod → parse_digits b ((b'0' + d) ∷ []) ≡ some (b * 10 + d)
unfolding parse_digits
parse_digits-one b d h k = ground arith

-- The decimal digits of a `u64` read back, with the digits given enough.
parse_digits-digits :
    (f n : ℕ) → n < 10 ^ f → 0 < f → n < u64_mod → parse_digits 0 (digits f n) ≡ some n
unfolding digits snoc_digit
parse_digits-digits zero n h p k = absurd (omega arith)
parse_digits-digits (suc zero) n h p k = ground (arith, parse_digits-one 0 n)
parse_digits-digits (suc (suc f)) n h p k = ground (
  arith,
  pow-suc 10 (suc f),
  parse_digits-one 0 n,
  parse_digits-one (n / 10) (n % 10),
  parse_digits-digits (suc f) (n / 10),
  parse_digits-snoc 0 (b'0' + n % 10) (digits (suc f) (n / 10)),
)

zeros-digits : (k : ℕ) (s : Str) → parse_digits 0 (replicate k b'0' ++ s) ≡ parse_digits 0 s
unfolding parse_digits
zeros-digits zero s = refl
zeros-digits (suc k) s = zeros-digits k s

-- Zeros in front change nothing.
pub parse_digits-pad10 : (n : ℕ) → n < u64_mod → parse_digits 0 (pad10 n) ≡ some n
unfolding pad10
parse_digits-pad10 n k =
    rw (zeros-digits (10 - length (digits 20 n)) (digits 20 n))
      (parse_digits-digits 20 n (omega arith) (omega arith) k)

-- No digit is the sign `+`, and none is a path separator.
digits_plain : (c f n : ℕ) → c < b'0' → contains c (digits f n) ≡ false
unfolding digits
digits_plain c zero n h = refl
digits_plain c (suc f) n h =
    ground (
      arith,
      digits_plain c f (n / 10),
      contains-append c (digits f (n / 10)) ((b'0' + n % 10) ∷ []),
    )

zeros_plain : (c k : ℕ) → c < b'0' → contains c (replicate k b'0') ≡ false
zeros_plain c zero h = refl
zeros_plain c (suc k) h = ground (arith, zeros_plain c k)

pub pad10_plain : (c n : ℕ) → c < b'0' → contains c (pad10 n) ≡ false
unfolding pad10
pad10_plain c n h = ground (
  arith,
  zeros_plain c (10 - length (digits 20 n)),
  digits_plain c 20 n,
  contains-append c (replicate (10 - length (digits 20 n)) b'0') (digits 20 n),
)

parse_u64_unsigned : (s : Str) → contains b'+' s ≡ false → s ≢ [] → parse_u64 s ≡ parse_digits 0 s
unfolding parse_u64
parse_u64_unsigned [] h p = absurd (p refl)
parse_u64_unsigned (c ∷ []) h p = refl
parse_u64_unsigned (c ∷ d ∷ cs) h p = ground arith

length-replicate : (k c : ℕ) → length (replicate k c) ≡ k
length-replicate zero c = refl
length-replicate (suc k) c = ap suc (length-replicate k c)

pad10-ne-nil : (n : ℕ) → pad10 n ≢ []
unfolding pad10
pad10-ne-nil n e =
    let zeros : Str = replicate (10 - length (digits 20 n)) b'0' in
    omega (
      arith,
      ap length e,
      length-append zeros (digits 20 n),
      length-replicate (10 - length (digits 20 n)) b'0',
    )

-- `parse::<u64>` reads the padded digits of every `u64` back.
pub parse_u64-pad10 : (n : ℕ) → n < u64_mod → parse_u64 (pad10 n) ≡ some n
parse_u64-pad10 n k =
    parse_u64_unsigned (pad10 n) (pad10_plain b'+' n (omega arith)) (pad10-ne-nil n)
    ∙ parse_digits-pad10 n k
