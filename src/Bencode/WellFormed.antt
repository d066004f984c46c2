-- ===== src/Bencode/WellFormed.antt =====
-- The values that are encoded and read back, and the form in which they come back.
use amish.Base.{◌≤◌, Bytes, length, if◌then◌else◌}
use amish.Base.Int.{IsInt64}
use amish.Bencode.Syntax.{
  Value, Items, Fields, int, int64, string, bytes, list, dict, other, nil, cons, end, field,
  max_alloc, IsMap, bytes_lt,
}

-- A map's entries, in the order of their keys.
unfoldable pub insert_sorted : Bytes → Value → Fields → Fields
insert_sorted k v end = field k v end
insert_sorted k v (field j w fs) =
    if bytes_lt j k then field j w (insert_sorted k v fs) else field k v (field j w fs)

unfoldable pub sort_fields : Fields → Fields
unfolding insert_sorted
sort_fields end = end
sort_fields (field k v fs) = insert_sorted k v (sort_fields fs)

-- What is read back: an int is an int64, a []byte is a string, and a map is in order.
unfoldable mutual
  unfolding sort_fields

  pub canon : Value → Value
  canon (int n) = int64 n
  canon (int64 n) = int64 n
  canon (string s) = string s
  canon (bytes s) = string s
  canon (list xs) = list (canon_items xs)
  canon (dict fs) = dict (sort_fields (canon_fields fs))
  canon other = other

  pub canon_items : Items → Items
  canon_items nil = nil
  canon_items (cons v xs) = cons (canon v) (canon_items xs)

  pub canon_fields : Fields → Fields
  canon_fields end = end
  canon_fields (field k v fs) = field k (canon v) (canon_fields fs)

-- Integers in range, texts that can be allocated, distinct keys, and no other type.
abbrev mutual
  pub IsEncodable : Value → Type 0
  IsEncodable (int n) = IsInt64 n
  IsEncodable (int64 n) = IsInt64 n
  IsEncodable (string s) = length s ≤ max_alloc
  IsEncodable (bytes s) = length s ≤ max_alloc
  IsEncodable (list xs) = AreEncodable xs
  IsEncodable (dict fs) = IsMap fs × HasEncodable fs
  IsEncodable other = ⊥

  pub AreEncodable : Items → Type 0
  AreEncodable nil = Unit
  AreEncodable (cons v xs) = IsEncodable v × AreEncodable xs

  pub HasEncodable : Fields → Type 0
  HasEncodable end = Unit
  HasEncodable (field k v fs) = (length k ≤ max_alloc) × IsEncodable v × HasEncodable fs
