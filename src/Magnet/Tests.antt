-- ===== src/Magnet/Tests.antt =====
-- Theorems on magnet links at concrete hashes.
use amish.Base.{
  All-replicate, ℕ, zero, suc, IsByte, ◌≡◌, refl, some, List, [], ◌∷◌, ◌++◌, Bytes, codes, bytes_eq,
  if◌then◌else◌, replicate, ok, err, arith,
}
use amish.Magnet.{hex_hash, parse_info_hash, parse, urn_prefix, invalid_scheme}
use amish.Magnet.Base32.{digit_of, Spells, IsHashOf, parse_info_hash_base32}
use amish.Magnet.Hex.{parse-hex_hash}

abbrev hash : Bytes
hash = 171 ∷ replicate 19 7

Spells-replicate : (n c d : ℕ) → digit_of c ≡ some d → Spells (replicate n c) (replicate n d)
Spells-replicate zero c d h = tt
Spells-replicate (suc n) c d h = (h, Spells-replicate n c d h)

-- A query that has one value of xt and two of tr, whatever the string is.
abbrev params : Bytes → List Bytes
params key =
    if bytes_eq key (codes "xt")
    then (urn_prefix ++ hex_hash hash) ∷ []
    else if bytes_eq key (codes "tr")
    then codes "udp://a" ∷ codes "udp://b" ∷ []
    else []

parse-hex_hash_example :
    parse (λ _. some params) (codes "magnet:?xt")
    ≡ ok (record { info_hash = hash; name = []; trackers = codes "udp://a" ∷ codes "udp://b" ∷ [] })
parse-hex_hash_example =
    parse-hex_hash (λ _. some params) (codes "xt") hash params [] refl refl
      (omega arith, All-replicate IsByte 19 7 (omega arith)) refl

parse_info_hash_base32_example :
    (h : Bytes) × (parse_info_hash (urn_prefix ++ codes "Ab" ++ replicate 30 50) ≡ ok h)
    × IsHashOf (0 ∷ 1 ∷ replicate 30 26) h
parse_info_hash_base32_example =
    parse_info_hash_base32 (codes "Ab" ++ replicate 30 50) (0 ∷ 1 ∷ replicate 30 26) refl
      (refl, (refl, Spells-replicate 30 50 26 refl))

other_scheme : parse (λ _. some params) (codes "http://x") ≡ err invalid_scheme
unfolding parse
other_scheme = refl

-- Thirty-two bytes that are thirty-one characters, the last a dotless i: nineteen bytes and a zero.
short_hash :
    parse_info_hash (urn_prefix ++ (replicate 30 66 ++ 196 ∷ 177 ∷ []))
    ≡ ok (
        8 ∷ 66 ∷ 16 ∷ 132 ∷ 33 ∷ 8 ∷ 66 ∷ 16 ∷ 132 ∷ 33 ∷ 8 ∷ 66 ∷ 16 ∷ 132 ∷ 33 ∷ 8 ∷ 66 ∷ 16 ∷ 133
        ∷ 0 ∷ [])
unfolding parse_info_hash
short_hash = refl
