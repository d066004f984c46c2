-- ===== src/Bencode/Sound/Total.antt =====
-- `Decode` and `DecodeBytes` on any input.
use amish.Base.{
  ℕ, ◌+◌, ◌-◌, ◌*◌, ◌≡◌, ◌≢◌, refl, [], append-nil, Bytes, length, arith, ok, err, ◌>>=◌, >>=-eq-ok,
  holds, Ensures-ok, Ensures-err, Ensures->>=,
}
use amish.Bencode.Syntax.{
  Value, Items, Fields, int, int64, string, bytes, list, dict, other, nil, cons, end, field,
  out_of_fuel,
}
use amish.Bencode.Decode.{decode_value, decode, decode_bytes}
use amish.Bencode.WellFormed.{IsEncodable, AreEncodable, HasEncodable, canon}
use amish.Bencode.Encode.{encode}
use amish.Bencode.RoundTrip.Values.{decode_bytes-encode}
use amish.Bencode.Sound.Scalars.{IsDecoded, AreDecoded, HasDecoded, Yields}
use amish.Bencode.Sound.Values.{decode_value-Yields}

-- Every input, whatever it holds, is decoded within the fuel that `decode` hands out: the model
-- gives a value, an error of the source or a panic.
pub decode-ne-out_of_fuel : (s : Bytes) → decode s ≢ err out_of_fuel
unfolding decode
decode-ne-out_of_fuel s = λ e. Ensures-err finished e refl
  where
    finished : Yields (λ _. Unit {0}) (decode_value (2 * length s + 1) s >>= λ (v, _). ok v)
    finished = Ensures->>= (decode_value-Yields (2 * length s + 1) s (omega arith)) λ _ _. holds tt

decode-IsDecoded : (s : Bytes) (v : Value) → decode s ≡ ok v → IsDecoded v
unfolding decode
decode-IsDecoded s v e = Ensures-ok {P = IsDecoded} finished e
  where
    finished : Yields IsDecoded (decode_value (2 * length s + 1) s >>= λ (w, _). ok w)
    finished = Ensures->>= (decode_value-Yields (2 * length s + 1) s (omega arith)) λ _ h. holds h.0

mutual
  IsDecoded-IsEncodable : (v : Value) → IsDecoded v → IsEncodable v
  IsDecoded-IsEncodable (int n) h = absurd h
  IsDecoded-IsEncodable (int64 n) h = h
  IsDecoded-IsEncodable (string s) h = h
  IsDecoded-IsEncodable (bytes s) h = absurd h
  IsDecoded-IsEncodable (list xs) h = AreDecoded-AreEncodable xs h
  IsDecoded-IsEncodable (dict fs) (d, h) = (d, HasDecoded-HasEncodable fs h)
  IsDecoded-IsEncodable other h = absurd h

  AreDecoded-AreEncodable : (xs : Items) → AreDecoded xs → AreEncodable xs
  AreDecoded-AreEncodable nil h = tt
  AreDecoded-AreEncodable (cons v xs) (hv, h) =
      (IsDecoded-IsEncodable v hv, AreDecoded-AreEncodable xs h)

  HasDecoded-HasEncodable : (fs : Fields) → HasDecoded fs → HasEncodable fs
  HasDecoded-HasEncodable end h = tt
  HasDecoded-HasEncodable (field k v fs) (hk, hv, h) =
      (hk, IsDecoded-IsEncodable v hv, HasDecoded-HasEncodable fs h)

pub decode_of_decode_bytes :
    (b : Bytes) (w : Value) (n : ℕ) → decode_bytes b ≡ ok (w, n) → decode b ≡ ok w
unfolding decode decode_bytes
decode_of_decode_bytes b w n h =
    let (a, ea, ha) =
      >>=-eq-ok (decode_value (2 * length b + 1) b) (λ (v, rest). ok (v, length b - length rest))
        h in
    rw ea (ground (arith, ha))

-- What `Decode` makes of an encoding.
pub decode-encode :
    (v : Value) → IsEncodable v → (b : Bytes) × (encode v ≡ ok b) × (decode b ≡ ok (canon v))
decode-encode v h =
    let (b, e, reads) = decode_bytes-encode v h in
    let whole = reads [] in
    (b, e, decode_of_decode_bytes b (canon v) (length b) (rw append-nil at whole))

-- Whatever was decoded, from any bytes, can be encoded again, and the new encoding is decoded to
-- the same value with its maps in the order of their keys.
pub decode-encode-decode :
    (s : Bytes) (v : Value)
    → decode s ≡ ok v
    → (b : Bytes) × (encode v ≡ ok b) × (decode b ≡ ok (canon v))
decode-encode-decode s v e =
    let (b, d, reads) = decode_bytes-encode v (IsDecoded-IsEncodable v (decode-IsDecoded s v e)) in
    (b, d, decode_of_decode_bytes b (canon v) (length b) (rw append-nil at (reads [])))
