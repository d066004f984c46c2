-- ===== src/Magnet.antt =====
-- magnet/magnet.go: the parts of a magnet link. A string is its bytes. `parse_query` is what
-- url.ParseQuery makes of a query: the values of every key, or no result where it gives an error.
pub mod Base32
pub mod Hex
mod Tests
use amish.Base.{
  ℕ, zero, suc, ◌+◌, ◌-◌, ◌*◌, ◌/◌, ◌%◌, ◌^◌, ◌≡◌, refl, Bool, true, false, ◌&&◌, not, Option, none,
  some, List, [], ◌∷◌, ◌++◌, Bytes, codes, bytes_eq, ltb, leb, ◌==◌, if◌then◌else◌, length, take,
  drop, replicate, Result, ok, err, ◌>>=◌, ◌>>◌, guard, require,
}

pub data Error : Type 0 where
  invalid_scheme missing_info_hash invalid_info_hash invalid_query : Error

pub record Magnet : Type 0 where
  pub info_hash : Bytes
  pub name : Bytes
  pub trackers : List Bytes

abbrev has_prefix : Bytes → Bytes → Bool
has_prefix s p = bytes_eq (take (length p) s) p

-- hex.EncodeToString, and HexHash.
abbrev pub hex_digit : ℕ → ℕ
hex_digit n = if ltb n 10 then 48 + n else 87 + n

unfoldable pub hex_hash : Bytes → Bytes
hex_hash [] = []
hex_hash (b ∷ s) = hex_digit (b / 16) ∷ hex_digit (b % 16) ∷ hex_hash s

-- hex.DecodeString: digits of either case, two for a byte. Any error of a decoder is reported as an
-- invalid info hash.
abbrev pub hex_value : ℕ → Option ℕ
hex_value c =
    if leb 48 c && leb c 57
    then some (c - 48)
    else if leb 97 c && leb c 102
    then some (c - 87)
    else if leb 65 c && leb c 70
    then some (c - 55)
    else none

unfoldable pub decode_hex : Bytes → Result Error Bytes
decode_hex [] = ok []
decode_hex (c ∷ []) = err invalid_info_hash
decode_hex (c ∷ d ∷ s) = do
  high ← require (hex_value c) invalid_info_hash
  low ← require (hex_value d) invalid_info_hash
  rest ← decode_hex s
  ok ((high * 16 + low) ∷ rest)

-- The characters of strings.ToUpper. Outside of ASCII two letters have an upper case in the alphabet:
-- the dotless i, and the long s. Any other byte belongs to a character outside of the alphabet.
unfoldable pub upper : Bytes → List ℕ
upper [] = []
upper (c ∷ []) = (if leb 97 c && leb c 122 then c - 32 else c) ∷ []
upper (c ∷ d ∷ s) =
    let rest = upper (d ∷ s) in
    let behind = upper s in
    if c == 196 && d == 177
    then 73 ∷ behind
    else if c == 197 && d == 191
    then 83 ∷ behind
    else (if leb 97 c && leb c 122 then c - 32 else c) ∷ rest

-- strings.IndexRune in the alphabet: the letters, and the digits 2 to 7.
abbrev pub index_rune : ℕ → Option ℕ
index_rune c =
    if leb 65 c && leb c 90
    then some (c - 65)
    else if leb 50 c && leb c 55
    then some (c - 24)
    else none

-- The variables of the loop; `bits` is a uint64, whose low five bits are free after the shift.
pub record Bits : Type 0 where
  pub bits : ℕ
  pub n_bits : ℕ
  pub out : Bytes

unfoldable pub push_digit : ℕ → Bits → Bits
push_digit idx st =
    let bits = st.bits * 2 ^ 5 % 2 ^ 64 + idx in
    let n = st.n_bits + 5 in
    if leb 8 n
    then record {
      bits = bits % 2 ^ (n - 8);
      n_bits = n - 8;
      out = st.out ++ bits / 2 ^ (n - 8) % 256 ∷ [];
    }
    else record { bits = bits; n_bits = n; out = st.out }

unfoldable pub push_digits : List ℕ → Bits → Result Error Bits
unfolding push_digit
push_digits [] st = ok st
push_digits (c ∷ cs) st = do
  idx ← require (index_rune c) invalid_info_hash
  push_digits cs (push_digit idx st)

abbrev pub no_bits : Bits
no_bits = record { bits = 0; n_bits = 0; out = [] }

unfoldable pub decode_base32 : Bytes → Result Error Bytes
unfolding upper push_digits
decode_base32 s = do st ← push_digits (upper s) no_bits; ok st.out

-- `copy(hash[:], decoded)` into twenty zeros.
abbrev pub to_hash : Bytes → Bytes
to_hash s = take 20 s ++ replicate (20 - length s) 0

abbrev pub urn_prefix : Bytes
urn_prefix = codes "urn:btih:"

abbrev pub decode_raw : Bytes → Result Error Bytes
decode_raw raw =
    if length raw == 40
    then (do decoded ← decode_hex raw; ok (to_hash decoded))
    else if length raw == 32
    then (do decoded ← decode_base32 raw; ok (to_hash decoded))
    else err invalid_info_hash

unfoldable pub parse_info_hash : Bytes → Result Error Bytes
unfolding decode_hex decode_base32
parse_info_hash xt = do
  guard (has_prefix xt urn_prefix) invalid_info_hash
  decode_raw (drop (length urn_prefix) xt)

abbrev pub scheme : Bytes
scheme = codes "magnet:?"

-- `params.Get(key)`: the first value, or the empty string.
abbrev pub get : (Bytes → List Bytes) → Bytes → Bytes
get params key = elim (params key) [ [] ↦ [] | v ∷ vs ↦ v ]

-- The magnet link, from the values of xt, dn and tr.
unfoldable pub of_params : Bytes → Bytes → List Bytes → Result Error Magnet
unfolding parse_info_hash
of_params xt dn tr = do
  guard (not (bytes_eq xt [])) missing_info_hash
  info_hash ← parse_info_hash xt
  ok (record { info_hash = info_hash; name = dn; trackers = tr })

module _ (parse_query : Bytes → Option (Bytes → List Bytes)) where
  unfoldable pub parse : Bytes → Result Error Magnet
  unfolding of_params
  parse raw = do
    guard (has_prefix raw scheme) invalid_scheme
    params ← require (parse_query (drop (length scheme) raw)) invalid_query
    of_params (get params (codes "xt")) (get params (codes "dn")) (params (codes "tr"))
