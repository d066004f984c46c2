-- ===== src/Base/Decimal.antt =====
-- strconv and fmt's decimal numbers: `%d`, `FormatInt`, `Itoa`; `ParseInt(s, 10, 64)` and `Atoi`.
pub mod RoundTrip
use amish.Base.{
  ℕ, zero, suc, ◌+◌, ◌-◌, ◌*◌, ◌/◌, ◌%◌, ◌^◌, ◌≤◌, ◌≡◌, refl, [], ◌∷◌, Option, none, some, Bool,
  true, false, ◌&&◌, Bytes, codes, ltb, leb, ◌==◌, if◌then◌else◌,
}
use amish.Base.Int.{ℤ, pos, negsuc}

abbrev pub is_digit : ℕ → Bool
is_digit c = leb b'0' c && leb c b'9'

abbrev pub IsDigit : ℕ → Type 0
IsDigit c = (b'0' ≤ c) × (c ≤ b'9')

-- The digits of `n` in front of `out`, from the last; `fuel` bounds their number.
pub print : ℕ → ℕ → Bytes → Bytes
print zero n out = out
print (suc fuel) n out = elim (n == 0) [
  | true ↦ out
  | false ↦ print fuel (n / 10) ((b'0' + n % 10) ∷ out)
]

-- A positive number is its own fuel: each digit makes it smaller.
unfoldable pub format_nat : ℕ → Bytes
unfolding print
format_nat n = if n == 0 then b'0' ∷ [] else print n n []

unfoldable pub format_int : ℤ → Bytes
unfolding format_nat
format_int (pos n) = format_nat n
format_int (negsuc n) = b'-' ∷ format_nat (suc n)

-- The number that the digits spell behind `n`; `none` is a syntax error.
pub scan : ℕ → Bytes → Option ℕ
scan n [] = some n
scan n (c ∷ s) = let rest = scan (n * 10 + (c - b'0')) s in if is_digit c then rest else none

unfoldable pub parse_nat : Bytes → Option ℕ
unfolding scan
parse_nat [] = none
parse_nat (c ∷ s) = scan 0 (c ∷ s)

-- A value outside int64 is a range error.
abbrev pub int_of : Bool → ℕ → Option ℤ
int_of true n =
    if leb n (2 ^ 63) then (if n == 0 then some (pos 0) else some (negsuc (n - 1))) else none
int_of false n = if ltb n (2 ^ 63) then some (pos n) else none

abbrev and_then : Option ℕ → (ℕ → Option ℤ) → Option ℤ
and_then none f = none
and_then (some n) f = f n

unfoldable pub parse_int : Bytes → Option ℤ
unfolding parse_nat
parse_int [] = none
parse_int (c ∷ s) =
    if c == b'-'
    then and_then (parse_nat s) (int_of true)
    else if c == b'+'
    then and_then (parse_nat s) (int_of false)
    else and_then (parse_nat (c ∷ s)) (int_of false)

runs : format_int (negsuc 1204) ≡ codes "-1205"
unfolding format_int
runs = refl

reads : parse_int (codes "-9223372036854775808") ≡ some (negsuc (2 ^ 63 - 1))
unfolding parse_int
reads = refl

reads_plus : parse_int (codes "+007") ≡ some (pos 7)
unfolding parse_int
reads_plus = refl

overflows : parse_int (codes "9223372036854775808") ≡ none
unfolding parse_int
overflows = refl
