-- ===== src/Magnet/Hex.antt =====
-- Info hashes in hexadecimal, as `HexHash` writes them and `Parse` reads them.
use amish.Base.{
  ℕ, ◌*◌, ◌/◌, ◌%◌, ◌<◌, ◌≡◌, refl, ap, ◌∙◌, Option, some, List, [], ◌∷◌, ◌++◌, Bytes, codes,
  length, take_all, append-nil, All, IsByte, ok, arith,
}
use amish.Magnet.{
  hex_digit, hex_value, hex_hash, decode_hex, parse_info_hash, urn_prefix, scheme, get, of_params,
  parse,
}

hex_value-hex_digit : (n : ℕ) → n < 16 → hex_value (hex_digit n) ≡ some n
hex_value-hex_digit n h = ground arith

decode_hex-hex_hash : (s : Bytes) → All IsByte s → decode_hex (hex_hash s) ≡ ok s
unfolding decode_hex hex_hash
decode_hex-hex_hash [] h = refl
decode_hex-hex_hash (b ∷ s) (hb, h) =
    rw
      (
        hex_value-hex_digit (b / 16) (omega arith),
        hex_value-hex_digit (b % 16) (omega arith),
        decode_hex-hex_hash s h,
      )
      (ap (λ c. ok (c ∷ s)) (omega arith))

length-hex_hash : (s : Bytes) → length (hex_hash s) ≡ 2 * length s
unfolding hex_hash
length-hex_hash [] = refl
length-hex_hash (b ∷ s) = omega (arith, length-hex_hash s)

parse_info_hash-hex_hash :
    (hash : Bytes)
    → All IsByte hash
    → length hash ≡ 20
    → parse_info_hash (urn_prefix ++ hex_hash hash) ≡ ok hash
unfolding parse_info_hash
parse_info_hash-hex_hash hash bytes size =
    rw (length-hex_hash hash, size, decode_hex-hex_hash hash bytes)
      (ap ok (rw (take_all 20 hash (omega arith), size) (append-nil hash)))

of_params-hex_hash :
    (hash dn : Bytes) (tr : List Bytes)
    → All IsByte hash
    → length hash ≡ 20
    → of_params (urn_prefix ++ hex_hash hash) dn tr
      ≡ ok (record { info_hash = hash; name = dn; trackers = tr })
unfolding of_params
of_params-hex_hash hash dn tr bytes size = rw (parse_info_hash-hex_hash hash bytes size) refl

-- A magnet link whose parameter xt is, in its first value, the hexadecimal info hash that `HexHash`
-- writes is parsed to that hash, which has twenty bytes, with the first dn as its name and every tr as
-- a tracker.
pub parse-hex_hash :
    (parse_query : Bytes → Option (Bytes → List Bytes)) (query hash : Bytes)
    (params : Bytes → List Bytes) (more : List Bytes)
    → parse_query query ≡ some params
    → params (codes "xt") ≡ (urn_prefix ++ hex_hash hash) ∷ more
    → All IsByte hash
    → length hash ≡ 20
    → parse parse_query (scheme ++ query)
      ≡ ok (record {
        info_hash = hash;
        name = get params (codes "dn");
        trackers = params (codes "tr");
      })
unfolding parse
parse-hex_hash parse_query query hash params more q xt bytes size = rw q (
    ap
      (λ vs.
        of_params (elim vs [ [] ↦ [] | v ∷ more ↦ v ]) (get params (codes "dn"))
          (params (codes "tr")))
      xt
    ∙ of_params-hex_hash hash (get params (codes "dn")) (params (codes "tr")) bytes size)
