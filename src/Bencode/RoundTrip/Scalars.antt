-- ===== src/Bencode/RoundTrip/Scalars.antt =====
-- Integers and byte strings: `decodeInt` and `decodeString` read what `encodeValue` writes.
use amish.Base.{
  zero, suc, ◌≤◌, ◌≡◌, ◌≢◌, refl, [], ◌∷◌, ◌++◌, append_assoc, append-nil, Bytes, length,
  take-append, drop-append, arith, lengths, All, ok, require, ge→ltb,
}
use amish.Base.Int.{ℤ, pos, negsuc, IsInt64}
use amish.Base.Decimal.{format_nat, format_int, parse_int, IsDigit}
use amish.Base.Decimal.RoundTrip.{
  IsPositiveHead, format_nat-IsDigit, format_nat_head, parse_int-format_int, parse_int-format_nat,
}
use amish.Bencode.Syntax.{max_alloc, invalid_integer}
use amish.Bencode.Encode.{encode_string}
use amish.Bencode.Decode.{read_int, check_int, decode_int, read_length, read_full, decode_string}

read_int-append :
    (s buf rest : Bytes)
    → All (λ c. c ≢ b'e') s
    → read_int buf (s ++ b'e' ∷ rest) ≡ ok (buf ++ s, rest)
unfolding read_int
read_int-append [] buf rest h = rw append-nil
read_int-append (c ∷ s) buf rest (hc, h) =
    ground (arith, read_int-append s (buf ++ c ∷ []) rest h, append_assoc buf (c ∷ []) s)

digits_lack_e : (s : Bytes) → All IsDigit s → All (λ c. c ≢ b'e') s
digits_lack_e [] h = tt
digits_lack_e (c ∷ s) (hc, h) = (omega arith, digits_lack_e s h)

format_int_lacks_e : (n : ℤ) → All (λ c. c ≢ b'e') (format_int n)
unfolding format_int
format_int_lacks_e (pos n) = digits_lack_e (format_nat n) (format_nat-IsDigit n)
format_int_lacks_e (negsuc n) =
    (omega arith, digits_lack_e (format_nat (suc n)) (format_nat-IsDigit (suc n)))

check_int_head :
    (s : Bytes) → IsPositiveHead s → check_int s ≡ require (parse_int s) invalid_integer
unfolding check_int
check_int_head [] h = absurd h
check_int_head (c ∷ []) h = ground arith
check_int_head (c ∷ d ∷ s) h = ground arith

check_int_negative :
    (s : Bytes)
    → IsPositiveHead s
    → check_int (b'-' ∷ s) ≡ require (parse_int (b'-' ∷ s)) invalid_integer
unfolding check_int
check_int_negative [] h = absurd h
check_int_negative (c ∷ s) h = ground arith

check_int-format_int-require :
    (n : ℤ) → check_int (format_int n) ≡ require (parse_int (format_int n)) invalid_integer
unfolding format_int
check_int-format_int-require (pos zero) = unfold check_int in refl
check_int-format_int-require (pos (suc n)) =
    check_int_head (format_nat (suc n)) (format_nat_head (suc n) (omega arith))
check_int-format_int-require (negsuc n) =
    check_int_negative (format_nat (suc n)) (format_nat_head (suc n) (omega arith))

check_int-format_int : (n : ℤ) → IsInt64 n → check_int (format_int n) ≡ ok n
check_int-format_int n h = rw (check_int-format_int-require n, parse_int-format_int n h)

pub decode_int-format_int :
    (n : ℤ) (rest : Bytes) → IsInt64 n → decode_int (format_int n ++ b'e' ∷ rest) ≡ ok (n, rest)
unfolding decode_int
decode_int-format_int n rest h =
    rw (read_int-append (format_int n) [] rest (format_int_lacks_e n), check_int-format_int n h)

read_length-append :
    (s buf rest : Bytes) → All IsDigit s → read_length buf (s ++ b':' ∷ rest) ≡ ok (buf ++ s, rest)
unfolding read_length
read_length-append [] buf rest h = rw append-nil
read_length-append (c ∷ s) buf rest (hc, h) =
    ground (arith, read_length-append s (buf ++ c ∷ []) rest h, append_assoc buf (c ∷ []) s)

read_full-append :
    (s rest : Bytes) → length s ≤ max_alloc → read_full (pos (length s)) (s ++ rest) ≡ ok (s, rest)
unfolding read_full
read_full-append s rest h = rw (
  ge→ltb max_alloc (length s) h,
  ge→ltb (length (s ++ rest)) (length s) (omega (lengths)),
  take-append s rest,
  drop-append s rest,
)

pub decode_string-encode_string :
    (s rest : Bytes) → length s ≤ max_alloc → decode_string (encode_string s ++ rest) ≡ ok (s, rest)
unfolding decode_string encode_string
decode_string-encode_string s rest h = rw (
  append_assoc (format_nat (length s)) (b':' ∷ s) rest,
  read_length-append (format_nat (length s)) [] (s ++ rest) (format_nat-IsDigit (length s)),
  parse_int-format_nat (length s) (omega arith),
  read_full-append s rest h,
)
