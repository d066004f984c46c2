-- ===== src/Base/Decimal/RoundTrip.antt =====
-- Decimal numbers that were printed are read back.
use amish.Base.{
  ℕ, zero, suc, ◌+◌, ◌-◌, ◌*◌, ◌/◌, ◌%◌, ◌^◌, ◌≤◌, ◌<◌, ◌≡◌, ◌≢◌, refl, ◌∙◌, [], ◌∷◌, some,
  Bool-cases, inl, inr, arith, Bytes, ◌==◌, All,
}
use amish.Base.Int.{ℤ, pos, negsuc, IsInt64}
use amish.Base.Decimal.{IsDigit, print, scan, format_nat, format_int, parse_nat, parse_int}

pub scan_digit : (n c : ℕ) (s : Bytes) → IsDigit c → scan n (c ∷ s) ≡ scan (n * 10 + (c - b'0')) s
unfolding scan
scan_digit n c s h = ground arith

scan-print : (fuel n : ℕ) (out : Bytes) → n ≤ fuel → scan 0 (print fuel n out) ≡ scan n out
unfolding print
scan-print zero zero out h = refl
scan-print zero (suc n) out h = absurd (omega arith)
scan-print (suc fuel) n out h = ground (
  arith,
  scan-print fuel (n / 10) ((b'0' + n % 10) ∷ out),
  scan_digit (n / 10) (b'0' + n % 10) out,
)

print-IsDigit : (fuel n : ℕ) (out : Bytes) → All IsDigit out → All IsDigit (print fuel n out)
unfolding print
print-IsDigit zero n out h = h
print-IsDigit (suc fuel) n out h = elim (Bool-cases (n == 0)) [
  | inl e ↦ ground (arith, e)
  | inr e ↦ ground (arith, e, print-IsDigit fuel (n / 10) ((b'0' + n % 10) ∷ out))
]

-- Starts with a digit that is not zero.
abbrev pub IsPositiveHead : Bytes → Type 0
IsPositiveHead [] = ⊥
IsPositiveHead (c ∷ s) = (b'1' ≤ c) × (c ≤ b'9')

print-IsPositiveHead :
    (fuel n : ℕ) (out : Bytes) → 0 < n → n ≤ fuel → IsPositiveHead (print fuel n out)
unfolding print
print-IsPositiveHead zero n out p h = absurd (omega arith)
print-IsPositiveHead (suc zero) n out p h = ground arith
print-IsPositiveHead (suc (suc fuel)) n out p h = elim (Bool-cases (n / 10 == 0)) [
  | inl e ↦ ground (arith, e)
  | inr e ↦ ground (
    arith,
    e,
    print-IsPositiveHead (suc fuel) (n / 10) ((b'0' + n % 10) ∷ out) (ground arith) (ground arith),
  )
]

-- A decimal number is digits alone, at least one.
pub format_nat-IsDigit : (n : ℕ) → All IsDigit (format_nat n)
unfolding format_nat
format_nat-IsDigit n = ground (arith, print-IsDigit n n [] tt)

-- It is "0", or starts with a positive digit.
pub format_nat_head : (n : ℕ) → 0 < n → IsPositiveHead (format_nat n)
unfolding format_nat
format_nat_head n h = ground (arith, print-IsPositiveHead n n [] h (omega arith))

parse_nat-scan : (s : Bytes) → s ≢ [] → parse_nat s ≡ scan 0 s
unfolding parse_nat
parse_nat-scan [] h = absurd (h refl)
parse_nat-scan (c ∷ s) h = refl

IsPositiveHead-ne-nil : (s : Bytes) → IsPositiveHead s → s ≢ []
IsPositiveHead-ne-nil [] h = absurd h
IsPositiveHead-ne-nil (c ∷ s) h = ground arith

pub format_nat-ne-nil : (n : ℕ) → format_nat n ≢ []
unfolding format_nat
format_nat-ne-nil zero = ground arith
format_nat-ne-nil (suc n) =
    IsPositiveHead-ne-nil (format_nat (suc n)) (format_nat_head (suc n) (omega arith))

pub parse_nat-format_nat : (n : ℕ) → parse_nat (format_nat n) ≡ some n
parse_nat-format_nat n = parse_nat-scan (format_nat n) (format_nat-ne-nil n) ∙ scan-format_nat n
  where
    scan-format_nat : (n : ℕ) → scan 0 (format_nat n) ≡ some n
    scan-format_nat n = unfold format_nat scan in ground (arith, scan-print n n [] (omega arith))

-- A number that starts with a digit is read as it is, with no sign.
parse_int_digits :
    (c : ℕ) (s : Bytes) (n : ℕ)
    → IsDigit c
    → parse_nat (c ∷ s) ≡ some n
    → n < 2 ^ 63
    → parse_int (c ∷ s) ≡ some (pos n)
unfolding parse_int
parse_int_digits c s n hc e h = ground arith

parse_int_natural :
    (s : Bytes) (n : ℕ)
    → s ≢ []
    → All IsDigit s
    → parse_nat s ≡ some n
    → n < 2 ^ 63
    → parse_int s ≡ some (pos n)
parse_int_natural [] n h a e lt = absurd (h refl)
parse_int_natural (c ∷ s) n h (hc, a) e lt = parse_int_digits c s n hc e lt

pub parse_int-format_nat : (n : ℕ) → n < 2 ^ 63 → parse_int (format_nat n) ≡ some (pos n)
parse_int-format_nat n h =
    parse_int_natural (format_nat n) n (format_nat-ne-nil n) (format_nat-IsDigit n)
      (parse_nat-format_nat n) h

parse_int_negative :
    (s : Bytes) (n : ℕ)
    → parse_nat s ≡ some (suc n)
    → n < 2 ^ 63
    → parse_int (b'-' ∷ s) ≡ some (negsuc n)
unfolding parse_int
parse_int_negative s n e h = ground arith

-- Every int64 is read back from its print.
pub parse_int-format_int : (z : ℤ) → IsInt64 z → parse_int (format_int z) ≡ some z
unfolding format_int
parse_int-format_int (pos n) h = parse_int-format_nat n (omega arith)
parse_int-format_int (negsuc n) h =
    parse_int_negative (format_nat (suc n)) n (parse_nat-format_nat (suc n)) (omega arith)

-- What is read is an int64.
pub parse_int-IsInt64 : (s : Bytes) (n : ℤ) → parse_int s ≡ some n → IsInt64 n
unfolding parse_int
parse_int-IsInt64 [] n h = ground arith
parse_int-IsInt64 (c ∷ s) n h = ground arith
