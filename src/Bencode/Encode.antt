-- ===== src/Bencode/Encode.antt =====
-- `Encode` and `encodeValue`. The buffer that they write to is the result.
use amish.Base.{
  ◌≡◌, refl, List, [], ◌∷◌, ◌++◌, Bytes, codes, length, if◌then◌else◌, Result, ok, err, ◌>>=◌,
}
use amish.Base.Int.{ℤ, pos, negsuc}
use amish.Base.Decimal.{format_nat, format_int}
use amish.Bencode.Syntax.{
  Value, Items, Fields, Error, int, int64, string, bytes, list, dict, other, nil, cons, end, field,
  unsupported_type, bytes_lt,
}

-- `i%de`
unfoldable pub encode_int : ℤ → Bytes
encode_int n = b'i' ∷ (format_int n ++ b'e' ∷ [])

-- `%d:%s`
unfoldable pub encode_string : Bytes → Bytes
encode_string s = format_nat (length s) ++ b':' ∷ s

-- A key with the encoding of the value under it.
abbrev pub Entry : Type 0
Entry = Bytes × Bytes

-- `sort.Strings(keys)`, on the keys with what is written behind each.
unfoldable pub insert_entry : Entry → List Entry → List Entry
insert_entry e [] = e ∷ []
insert_entry e (d ∷ es) = if bytes_lt d.0 e.0 then d ∷ insert_entry e es else e ∷ d ∷ es

unfoldable pub sort_entries : List Entry → List Entry
unfolding insert_entry
sort_entries [] = []
sort_entries (e ∷ es) = insert_entry e (sort_entries es)

unfoldable pub write_entries : List Entry → Bytes
write_entries [] = []
write_entries ((k, b) ∷ es) = encode_string k ++ (b ++ write_entries es)

-- The values of a map are encoded in its order, and written in the order of the keys: since every
-- failure is the same error, the result is that of the source, which sorts first.
unfoldable mutual
  unfolding encode_int encode_string sort_entries write_entries

  pub encode_value : Value → Result Error Bytes
  encode_value (int n) = ok (encode_int n)
  encode_value (int64 n) = ok (encode_int n)
  encode_value (string s) = ok (encode_string s)
  encode_value (bytes s) = ok (encode_string s)
  encode_value (list xs) = do b ← encode_items xs; ok (b'l' ∷ (b ++ b'e' ∷ []))
  encode_value (dict fs) = do
    es ← encode_fields fs
    ok (b'd' ∷ (write_entries (sort_entries es) ++ b'e' ∷ []))
  encode_value other = err unsupported_type

  pub encode_items : Items → Result Error Bytes
  encode_items nil = ok []
  encode_items (cons v xs) = do b ← encode_value v; bs ← encode_items xs; ok (b ++ bs)

  pub encode_fields : Fields → Result Error (List Entry)
  encode_fields end = ok []
  encode_fields (field k v fs) = do b ← encode_value v; es ← encode_fields fs; ok ((k, b) ∷ es)

unfoldable pub encode : Value → Result Error Bytes
unfolding encode_value
encode v = encode_value v

sorts_keys :
    encode (dict (field (codes "b") (int (negsuc 2)) (field (codes "a") (bytes (codes "xy")) end)))
    ≡ ok (codes "d1:a2:xy1:bi-3ee")
unfolding encode format_int
sorts_keys = refl

refuses : encode (list (cons (int64 (pos 1)) (cons other nil))) ≡ err unsupported_type
unfolding encode
refuses = refl
