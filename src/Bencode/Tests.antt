-- ===== src/Bencode/Tests.antt =====
-- Bencode theorems at concrete values.
use amish.Base.{◌≡◌, ◌≢◌, refl, [], ◌++◌, Bytes, codes, length, ok, err, arith}
use amish.Base.Decimal.{parse_int}
use amish.Base.Int.{pos, negsuc}
use amish.Bencode.Syntax.{
  Value, int, int64, string, bytes, list, dict, nil, cons, end, field, out_of_fuel,
}
use amish.Bencode.Encode.{encode}
use amish.Bencode.Decode.{decode, decode_bytes}
use amish.Bencode.WellFormed.{canon}
use amish.Bencode.RoundTrip.Values.{decode_bytes-encode}
use amish.Bencode.Sound.Total.{decode-ne-out_of_fuel, decode-encode-decode}

-- {"b": -7, "a": [b"hi", {}]}
abbrev sample : Value
sample = dict (
    field (codes "b") (int (negsuc 6))
      (field (codes "a") (list (cons (bytes (codes "hi")) (cons (dict end) nil))) end))

decode_bytes-encode_example :
    (b : Bytes) × (encode sample ≡ ok b)
    × ((rest : Bytes) → decode_bytes (b ++ rest) ≡ ok (canon sample, length b))
decode_bytes-encode_example = decode_bytes-encode sample (
  (((refl, tt), (tt, tt))),
  (omega arith, omega arith, (omega arith, (omega arith, ((tt, tt), tt)), tt)),
)

decode-ne-out_of_fuel_example : decode (codes "lld1:al") ≢ err out_of_fuel
decode-ne-out_of_fuel_example = decode-ne-out_of_fuel (codes "lld1:al")

unsorted :
    decode (codes "d1:b0:1:ai5ee")
    ≡ ok (dict (field (codes "b") (string []) (field (codes "a") (int64 (pos 5)) end)))
unfolding decode parse_int
unsorted = refl

prefix : decode_bytes (codes "li1eex") ≡ ok (list (cons (int64 (pos 1)) nil), 5)
unfolding decode_bytes parse_int
prefix = refl

decode-encode-decode_example :
    (b : Bytes) × (encode
        (dict (field (codes "b") (string []) (field (codes "a") (int64 (pos 5)) end)))
      ≡ ok b)
    × (decode b
        ≡ ok (canon (dict (field (codes "b") (string []) (field (codes "a") (int64 (pos 5)) end)))))
decode-encode-decode_example =
    decode-encode-decode (codes "d1:b0:1:ai5ee")
      (dict (field (codes "b") (string []) (field (codes "a") (int64 (pos 5)) end))) unsorted
