-- ===== src/Bencode/Decode.antt =====
-- `Decode`, `DecodeBytes` and the recursive descent below them. A parser reads a value off the
-- front of the input, and returns it with what the reader has left.
use amish.Base.{
  ℕ, zero, suc, ◌+◌, ◌-◌, ◌*◌, ◌≡◌, refl, Bool, false, ◌&&◌, ◌||◌, [], ◌∷◌, ◌++◌, Bytes, codes,
  bytes_eq, ltb, leb, ◌==◌, if◌then◌else◌, length, take, drop, Result, ok, err, panic, ◌>>=◌,
  require,
}
use amish.Base.Int.{ℤ, pos, negsuc}
use amish.Base.Decimal.{parse_int}
use amish.Bencode.Syntax.{
  Value, Items, Fields, Error, int64, string, list, dict, nil, cons, end, field, unexpected_eof,
  invalid_format, invalid_integer, invalid_string, out_of_fuel, insert, as_string, max_alloc,
}

abbrev pub Parser {ℓ} : Type ℓ → Type ℓ
Parser A = Bytes → Result Error (A × Bytes)

-- The loop of `decodeInt`: bytes up to an 'e'.
unfoldable pub read_int : Bytes → Parser Bytes
read_int buf [] = err unexpected_eof
read_int buf (b ∷ r) = if b == b'e' then ok (buf, r) else read_int (buf ++ b ∷ []) r

abbrev pub leading_zero : Bytes → Bool
leading_zero (c ∷ d ∷ s) = c == b'0'
leading_zero _ = false

unfoldable pub check_int : Bytes → Result Error ℤ
check_int s =
    if bytes_eq s []
    then err invalid_integer
    else if leading_zero s
    then err invalid_integer
    else if bytes_eq s (codes "-0")
    then err invalid_integer
    else require (parse_int s) invalid_integer

unfoldable pub decode_int : Parser ℤ
unfolding read_int check_int
decode_int r = do (s, rest) ← read_int [] r; n ← check_int s; ok (n, rest)

-- The loop of `decodeString`: digits up to a ':'.
unfoldable pub read_length : Bytes → Parser Bytes
read_length buf [] = err unexpected_eof
read_length buf (b ∷ r) =
    if b == b':'
    then ok (buf, r)
    else if ltb b b'0' || ltb b'9' b
    then err invalid_string
    else read_length (buf ++ b ∷ []) r

-- `make([]byte, length)`, which panics on a length that it cannot allocate, and `io.ReadFull`.
unfoldable pub read_full : ℤ → Parser Bytes
read_full (negsuc n) r = panic
read_full (pos n) r =
    if ltb max_alloc n
    then panic
    else if ltb (length r) n
    then err unexpected_eof
    else ok (take n r, drop n r)

unfoldable pub decode_string : Parser Bytes
unfolding read_length read_full
decode_string r = do
  (s, rest) ← read_length [] r
  n ← require (parse_int s) invalid_string
  read_full n rest

-- A call consumes at least one byte, but what it leaves is no structural part of the input: each
-- call takes a unit of fuel. `UnreadByte` keeps the byte that was looked at.
unfoldable mutual
  unfolding decode_int decode_string insert

  pub decode_value : ℕ → Parser Value
  decode_value zero r = err out_of_fuel
  decode_value (suc f) [] = err unexpected_eof
  decode_value (suc f) (b ∷ r) =
      let items = (do (xs, rest) ← decode_list f r; ok (list xs, rest)) in
      let fields = (do (fs, rest) ← decode_dict f end r; ok (dict fs, rest)) in
      if b == b'i'
      then (do (n, rest) ← decode_int r; ok (int64 n, rest))
      else if b == b'l'
      then items
      else if b == b'd'
      then fields
      else if leb b'0' b && leb b b'9'
      then (do (s, rest) ← decode_string (b ∷ r); ok (string s, rest))
      else err invalid_format

  pub decode_list : ℕ → Parser Items
  decode_list zero r = err out_of_fuel
  decode_list (suc f) [] = err unexpected_eof
  decode_list (suc f) (b ∷ r) =
      let more = do
        (v, rest) ← decode_value f (b ∷ r)
        (xs, rest') ← decode_list f rest
        ok (cons v xs, rest')
      in if b == b'e' then ok (nil, r) else more

  pub decode_dict : ℕ → Fields → Parser Fields
  decode_dict zero m r = err out_of_fuel
  decode_dict (suc f) m [] = err unexpected_eof
  decode_dict (suc f) m (b ∷ r) =
      let more = do
        (key, rest) ← decode_value f (b ∷ r)
        k ← require (as_string key) invalid_format
        (v, rest') ← decode_value f rest
        decode_dict f (insert k v m) rest'
      in if b == b'e' then ok (m, r) else more

-- Enough fuel for an input of this length.
abbrev pub fuel_for : Bytes → ℕ
fuel_for s = 2 * length s + 1

unfoldable pub decode : Bytes → Result Error Value
unfolding decode_value
decode s = do (v, _) ← decode_value (fuel_for s) s; ok v

unfoldable pub decode_bytes : Bytes → Result Error (Value × ℕ)
unfolding decode_value
decode_bytes s = do (v, rest) ← decode_value (fuel_for s) s; ok (v, length s - length rest)

nested :
    decode (codes "d1:bl2:hii-7ee1:a0:e")
    ≡ ok (
        dict (
          field
            (codes "b")
            (list (cons (string (codes "hi")) (cons (int64 (negsuc 6)) nil)))
            (field (codes "a") (string []) end)))
unfolding decode parse_int
nested = refl

short_string : decode (codes "5:ab") ≡ err unexpected_eof
unfolding decode parse_int
short_string = refl

huge_string : decode (codes "281474976710657:") ≡ panic
unfolding decode parse_int
huge_string = refl

signed_zeros : decode (codes "i-007e") ≡ ok (int64 (negsuc 6))
unfolding decode parse_int
signed_zeros = refl
