-- ===== src/Bencode/RoundTrip/Values.antt =====
-- Every encodable value is encoded, and read back in its canonical form.
use amish.Base.{
  ℕ, zero, suc, ◌+◌, ◌*◌, ◌≤◌, ◌<◌, ◌≡◌, refl, ap, ◌∙◌, List, [], ◌∷◌, ◌++◌, append_assoc, Bytes,
  length, length-append, arith, lengths, Result, ok, ◌>>=◌, ne→==,
}
use amish.Base.Int.{ℤ, IsInt64}
use amish.Base.Decimal.{format_int}
use amish.Bencode.Syntax.{
  Value, Items, Fields, Error, int, int64, string, bytes, list, dict, other, nil, cons, end, field,
  IsMap, max_alloc,
}
use amish.Bencode.Encode.{
  Entry, encode_int, encode_string, sort_entries, write_entries, encode_value, encode_items,
  encode_fields, encode,
}
use amish.Bencode.Decode.{decode_value, decode_list, decode_bytes}
use amish.Bencode.WellFormed.{
  canon, canon_items, canon_fields, sort_fields, IsEncodable, AreEncodable, HasEncodable,
}
use amish.Bencode.Maps.{append_fields, sort_fields-IsMap, canon_fields-IsMap}
use amish.Bencode.RoundTrip.Scalars.{decode_int-format_int}
use amish.Bencode.RoundTrip.Dicts.{
  ReadsAs, IsOpen, IsOpen-append, Apart-end, Matches, encode_string-IsOpen,
  decode_value-encode_string, sort_entries-Matches, length-IsOpen_pos, decode_dict-write_entries,
}

-- The encoding `b` of a value that comes back as `w`.
abbrev IsCode : Bytes → Value → Type 0
IsCode b w = IsOpen b × ReadsAs b w

IsCode-of_int : (n : ℤ) → IsInt64 n → IsCode (encode_int n) (int64 n)
IsCode-of_int n h = (opens, reads)
  where
    opens : IsOpen (encode_int n)
    opens = unfold encode_int in omega arith

    reads : ReadsAs (encode_int n) (int64 n)
    reads zero rest lt = absurd (omega arith)
    reads (suc f) rest lt =
        unfold encode_int decode_value in
        rw (append_assoc (format_int n) (b'e' ∷ []) rest, decode_int-format_int n rest h)

IsCode-of_string : (s : Bytes) → length s ≤ max_alloc → IsCode (encode_string s) (string s)
IsCode-of_string s h = (encode_string-IsOpen s, reads)
  where
    reads : ReadsAs (encode_string s) (string s)
    reads zero rest lt = absurd (omega arith)
    reads (suc f) rest lt = decode_value-encode_string f s rest h

-- The items `xs`, read by the loop of `decodeList`.
abbrev ReadsItems : Bytes → Items → Type 0
ReadsItems b xs =
    (f : ℕ) (rest : Bytes) → 2 * length b + 1 < f → decode_list f (b ++ b'e' ∷ rest) ≡ ok (xs, rest)

IsCode-of_list :
    (b : Bytes) (xs : Items) → ReadsItems b xs → IsCode (b'l' ∷ (b ++ b'e' ∷ [])) (list xs)
IsCode-of_list b xs h = (omega arith, reads)
  where
    reads : ReadsAs (b'l' ∷ (b ++ b'e' ∷ [])) (list xs)
    reads zero rest lt = absurd (omega arith)
    reads (suc f) rest lt =
        unfold decode_value in
        rw (append_assoc b (b'e' ∷ []) rest, h f rest (omega (arith, length-append b (b'e' ∷ []))))

items_nil : ReadsItems [] nil
items_nil zero rest lt = absurd (omega arith)
items_nil (suc f) rest lt = unfold decode_value in refl

-- One round of the loop of `decodeList`.
decode_list_round :
    (f : ℕ) (r rest : Bytes) (w : Value)
    → IsOpen r
    → decode_value f r ≡ ok (w, rest)
    → decode_list (suc f) r ≡ (decode_list f rest >>= λ (ys, r'). ok (cons w ys, r'))
unfolding decode_value
decode_list_round f [] rest w ho h = absurd ho
decode_list_round f (c ∷ r) rest w ho h = rw (ne→== c b'e' ho, h)

items_cons :
    (b : Bytes) (w : Value) (bs : Bytes) (xs : Items)
    → IsCode b w
    → ReadsItems bs xs
    → ReadsItems (b ++ bs) (cons w xs)
items_cons b w bs xs (ho, hr) h zero rest lt = absurd (omega arith)
items_cons b w bs xs (ho, hr) h (suc f) rest lt = rw (append_assoc b bs (b'e' ∷ rest)) (
    decode_list_round f (b ++ (bs ++ b'e' ∷ rest)) (bs ++ b'e' ∷ rest) w
      (IsOpen-append b (bs ++ b'e' ∷ rest) ho) (hr f (bs ++ b'e' ∷ rest) (omega lengths))
    ∙ ap (λ r. r >>= λ (ys, r'). ok (cons w ys, r'))
        (h f rest (omega (lengths, length-IsOpen_pos b ho))))

IsCode-of_dict :
    (es : List Entry) (gs : Fields)
    → Matches es gs
    → IsMap gs
    → IsCode (b'd' ∷ (write_entries (sort_entries es) ++ b'e' ∷ [])) (dict (sort_fields gs))
IsCode-of_dict es gs m d = (omega arith, reads)
  where
    reads : ReadsAs (b'd' ∷ (write_entries (sort_entries es) ++ b'e' ∷ [])) (dict (sort_fields gs))
    reads zero rest lt = absurd (omega arith)
    reads (suc f) rest lt =
        let b = write_entries (sort_entries es) in
        unfold decode_value in
        rw
          (
            append_assoc b (b'e' ∷ []) rest,
            decode_dict-write_entries (sort_entries es) (sort_fields gs) end f rest
                (sort_entries-Matches es gs m) (sort_fields-IsMap gs d) (Apart-end (sort_fields gs))
                (omega (arith, length-append b (b'e' ∷ []))),
          )
          (unfold append_fields in refl)

-- What `encodeValue` gives is a code of the canonical form.
abbrev Encodes : Result Error Bytes → Value → Type 0
Encodes r w = (b : Bytes) × (r ≡ ok b) × IsOpen b × ReadsAs b w

abbrev EncodesItems : Result Error Bytes → Items → Type 0
EncodesItems r ys = (b : Bytes) × (r ≡ ok b) × ReadsItems b ys

abbrev EncodesFields : Result Error (List Entry) → Fields → Type 0
EncodesFields r gs = (es : List Entry) × (r ≡ ok es) × Matches es gs

mutual
  unfolding encode_value canon

  encode_value-Encodes : (v : Value) → IsEncodable v → Encodes (encode_value v) (canon v)
  encode_value-Encodes (int n) h =
      (encode_int n, refl, (IsCode-of_int n h).0, (IsCode-of_int n h).1)
  encode_value-Encodes (int64 n) h =
      (encode_int n, refl, (IsCode-of_int n h).0, (IsCode-of_int n h).1)
  encode_value-Encodes (string s) h =
      (encode_string s, refl, (IsCode-of_string s h).0, (IsCode-of_string s h).1)
  encode_value-Encodes (bytes s) h =
      (encode_string s, refl, (IsCode-of_string s h).0, (IsCode-of_string s h).1)
  encode_value-Encodes (list xs) h =
      let (b, e, reads) = encode_items-EncodesItems xs h in
      let code = IsCode-of_list b (canon_items xs) reads in
      (b'l' ∷ (b ++ b'e' ∷ []), rw e, code.0, code.1)
  encode_value-Encodes (dict fs) (d, h) =
      let (es, e, m) = encode_fields-EncodesFields fs h in
      let code = IsCode-of_dict es (canon_fields fs) m (canon_fields-IsMap fs d) in
      (b'd' ∷ (write_entries (sort_entries es) ++ b'e' ∷ []), rw e, code.0, code.1)
  encode_value-Encodes other h = absurd h

  encode_items-EncodesItems :
      (xs : Items) → AreEncodable xs → EncodesItems (encode_items xs) (canon_items xs)
  encode_items-EncodesItems nil h = ([], refl, items_nil)
  encode_items-EncodesItems (cons v xs) (hv, h) =
      let (b, e, ho, hr) = encode_value-Encodes v hv in
      let (bs, es, reads) = encode_items-EncodesItems xs h in
      (b ++ bs, rw (e, es), items_cons b (canon v) bs (canon_items xs) (ho, hr) reads)

  encode_fields-EncodesFields :
      (fs : Fields) → HasEncodable fs → EncodesFields (encode_fields fs) (canon_fields fs)
  encode_fields-EncodesFields end h = ([], refl, tt)
  encode_fields-EncodesFields (field k v fs) (hk, hv, h) =
      let (b, e, ho, hr) = encode_value-Encodes v hv in
      let (es, ee, m) = encode_fields-EncodesFields fs h in
      ((k, b) ∷ es, rw (e, ee), (refl, hk, ho, hr, m))

-- Every encodable value is encoded, and the decoder reads the encoding off the front of any input:
-- it gives the canonical form of the value, and consumes exactly the encoding.
pub decode_bytes-encode :
    (v : Value)
    → IsEncodable v
    → (b : Bytes) × (encode v ≡ ok b)
      × ((rest : Bytes) → decode_bytes (b ++ rest) ≡ ok (canon v, length b))
unfolding encode decode_bytes
decode_bytes-encode v h =
    let (b, e, ho, hr) = encode_value-Encodes v h in
    (
      b,
      e,
      λ rest.
          rw (hr (2 * length (b ++ rest) + 1) rest (omega lengths))
            (ap (λ n. ok (canon v, n)) (omega lengths)),
    )
