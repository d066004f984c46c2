-- ===== src/Bencode/Maps.antt =====
-- Maps as entries with distinct keys: insertion, order, and look-up.
use amish.Base.{
  ◌≡◌, refl, ap, ◌∙◌, false, none, some, [], ◌∷◌, Bytes, bytes_eq, bytes_eq→eq, arith,
  if◌then◌else◌, Bool-cases, inl, inr,
}
use amish.Base.Int.{ℤ}
use amish.Bencode.Syntax.{
  int64, as_int64, get_as, Value, Fields, end, field, lookup, insert, LacksKey, IsMap, bytes_lt,
}
use amish.Bencode.WellFormed.{insert_sorted, sort_fields, canon, canon_fields}

pub bytes_eq_comm : (s t : Bytes) → bytes_eq s t ≡ bytes_eq t s
bytes_eq_comm [] [] = refl
bytes_eq_comm [] (b ∷ t) = refl
bytes_eq_comm (a ∷ s) [] = refl
bytes_eq_comm (a ∷ s) (b ∷ t) = ground (arith, bytes_eq_comm s t)

unfoldable pub append_fields : Fields → Fields → Fields
append_fields end gs = gs
append_fields (field k v fs) gs = field k v (append_fields fs gs)

pub append_fields_assoc :
    (fs gs hs : Fields)
    → append_fields (append_fields fs gs) hs ≡ append_fields fs (append_fields gs hs)
unfolding append_fields
append_fields_assoc end gs hs = refl
append_fields_assoc (field k v fs) gs hs = ap (field k v) (append_fields_assoc fs gs hs)

-- A new key goes behind the others.
pub insert-LacksKey :
    (k : Bytes) (v : Value) (fs : Fields)
    → LacksKey k fs
    → insert k v fs ≡ append_fields fs (field k v end)
unfolding insert append_fields
insert-LacksKey k v end h = refl
insert-LacksKey k v (field j w fs) (hj, h) = rw hj (ap (field j w) (insert-LacksKey k v fs h))

pub lookup-insert :
    (k j : Bytes) (v : Value) (m : Fields)
    → lookup j (insert k v m) ≡ (if bytes_eq k j then some v else lookup j m)
unfolding lookup insert
lookup-insert k j v end = refl
lookup-insert k j v (field i w m) = elim (Bool-cases (bytes_eq i k)) [
  | inl e ↦ let same : i ≡ k = bytes_eq→eq i k e in ground (arith, e, same)
  | inr e ↦ elim (Bool-cases (bytes_eq k j)) [
    | inl d ↦
        let same : k ≡ j = bytes_eq→eq k j d in ground (arith, e, d, same, lookup-insert k j v m)
    | inr d ↦ ground (arith, e, d, lookup-insert k j v m)
  ]
]

LacksKey-insert :
    (i k : Bytes) (v : Value) (fs : Fields)
    → bytes_eq k i ≡ false
    → LacksKey i fs
    → LacksKey i (insert k v fs)
unfolding insert
LacksKey-insert i k v end d h = (d, tt)
LacksKey-insert i k v (field j w fs) d (hj, h) = elim (Bool-cases (bytes_eq j k)) [
  | inl e ↦ rw e (hj, h)
  | inr e ↦ rw e (hj, LacksKey-insert i k v fs d h)
]

-- Writing an entry of a map leaves it a map.
pub insert-IsMap : (k : Bytes) (v : Value) (fs : Fields) → IsMap fs → IsMap (insert k v fs)
unfolding insert
insert-IsMap k v end h = (tt, tt)
insert-IsMap k v (field j w fs) (hj, h) = elim (Bool-cases (bytes_eq j k)) [
  | inl e ↦ rw e (hj, h)
  | inr e ↦ rw e (LacksKey-insert j k v fs (bytes_eq_comm k j ∙ e) hj, insert-IsMap k v fs h)
]

LacksKey-insert_sorted :
    (i k : Bytes) (v : Value) (fs : Fields)
    → bytes_eq k i ≡ false
    → LacksKey i fs
    → LacksKey i (insert_sorted k v fs)
unfolding insert_sorted
LacksKey-insert_sorted i k v end d h = (d, tt)
LacksKey-insert_sorted i k v (field j w fs) d (hj, h) = elim (Bool-cases (bytes_lt j k)) [
  | inl e ↦ rw e (hj, LacksKey-insert_sorted i k v fs d h)
  | inr e ↦ rw e (d, (hj, h))
]

insert_sorted-IsMap :
    (k : Bytes) (v : Value) (fs : Fields) → LacksKey k fs → IsMap fs → IsMap (insert_sorted k v fs)
unfolding insert_sorted
insert_sorted-IsMap k v end l h = (tt, tt)
insert_sorted-IsMap k v (field j w fs) (lj, l) (hj, h) = elim (Bool-cases (bytes_lt j k)) [
  | inl e ↦
      rw e (
        LacksKey-insert_sorted j k v fs (bytes_eq_comm k j ∙ lj) hj,
        insert_sorted-IsMap k v fs l h,
      )
  | inr e ↦ rw e ((lj, l), (hj, h))
]

LacksKey-sort_fields : (i : Bytes) (fs : Fields) → LacksKey i fs → LacksKey i (sort_fields fs)
unfolding sort_fields
LacksKey-sort_fields i end h = h
LacksKey-sort_fields i (field k v fs) (hk, h) =
    LacksKey-insert_sorted i k v (sort_fields fs) hk (LacksKey-sort_fields i fs h)

pub sort_fields-IsMap : (fs : Fields) → IsMap fs → IsMap (sort_fields fs)
unfolding sort_fields
sort_fields-IsMap end h = h
sort_fields-IsMap (field k v fs) (hk, h) =
    insert_sorted-IsMap k v (sort_fields fs) (LacksKey-sort_fields k fs hk) (sort_fields-IsMap fs h)

LacksKey-canon_fields : (i : Bytes) (fs : Fields) → LacksKey i fs → LacksKey i (canon_fields fs)
unfolding canon
LacksKey-canon_fields i end h = h
LacksKey-canon_fields i (field k v fs) (hk, h) = (hk, LacksKey-canon_fields i fs h)

pub canon_fields-IsMap : (fs : Fields) → IsMap fs → IsMap (canon_fields fs)
unfolding canon
canon_fields-IsMap end h = h
canon_fields-IsMap (field k v fs) (hk, h) = (LacksKey-canon_fields k fs hk, canon_fields-IsMap fs h)

lookup-insert_sorted :
    (k i : Bytes) (v : Value) (fs : Fields)
    → LacksKey k fs
    → lookup i (insert_sorted k v fs) ≡ (if bytes_eq k i then some v else lookup i fs)
unfolding lookup insert_sorted
lookup-insert_sorted k i v end h = refl
lookup-insert_sorted k i v (field j w fs) (hj, h) = elim (Bool-cases (bytes_lt j k)) [
  | inr e ↦ rw e
  | inl e ↦ elim (Bool-cases (bytes_eq k i)) [
    | inl d ↦
        let same : k ≡ i = bytes_eq→eq k i d in
        ground (arith, e, d, same, hj, lookup-insert_sorted k i v fs h)
    | inr d ↦ ground (arith, e, d, lookup-insert_sorted k i v fs h)
  ]
]

-- The order of the entries does not matter to a look-up.
pub lookup-sort_fields :
    (i : Bytes) (fs : Fields) → IsMap fs → lookup i (sort_fields fs) ≡ lookup i fs
unfolding lookup sort_fields
lookup-sort_fields i end h = refl
lookup-sort_fields i (field k v fs) (hk, h) =
    lookup-insert_sorted k i v (sort_fields fs) (LacksKey-sort_fields k fs hk)
    ∙ ap (λ o. if bytes_eq k i then some v else o) (lookup-sort_fields i fs h)

canon_fields_field :
    (k : Bytes) (v : Value) (fs : Fields)
    → canon_fields (field k v fs) ≡ field k (canon v) (canon_fields fs)
canon_fields_field k v fs = unfold canon in refl

lookup-canon_fields :
    (k : Bytes) (fs : Fields) (v : Value)
    → lookup k fs ≡ some v
    → lookup k (canon_fields fs) ≡ some (canon v)
unfolding lookup
lookup-canon_fields k end v h = ground arith
lookup-canon_fields k (field j w fs) v h =
    ground (arith, canon_fields_field j w fs, lookup-canon_fields k fs v)

-- A key of a map has the canonical form of its value when the map comes back.
pub lookup-canon :
    (k : Bytes) (fs : Fields) (v : Value)
    → IsMap fs
    → lookup k fs ≡ some v
    → lookup k (sort_fields (canon_fields fs)) ≡ some (canon v)
lookup-canon k fs v h e =
    lookup-sort_fields k (canon_fields fs) (canon_fields-IsMap fs h) ∙ lookup-canon_fields k fs v e

lookup-canon_fields-none :
    (k : Bytes) (fs : Fields) → lookup k fs ≡ none → lookup k (canon_fields fs) ≡ none
unfolding lookup
lookup-canon_fields-none k end h = unfold canon in refl
lookup-canon_fields-none k (field j w fs) h =
    ground (arith, canon_fields_field j w fs, lookup-canon_fields-none k fs)

-- A key that is missing is missing in the map that comes back.
pub lookup-canon_none :
    (k : Bytes) (fs : Fields)
    → IsMap fs
    → lookup k fs ≡ none
    → lookup k (sort_fields (canon_fields fs)) ≡ none
lookup-canon_none k fs h e =
    lookup-sort_fields k (canon_fields fs) (canon_fields-IsMap fs h)
    ∙ lookup-canon_fields-none k fs e

-- So an int64 is read back under its key.
pub get_int64-canon :
    (k : Bytes) (fs : Fields) (n : ℤ)
    → IsMap fs
    → lookup k fs ≡ some (int64 n)
    → get_as as_int64 k (sort_fields (canon_fields fs)) ≡ some n
get_int64-canon k fs n h e = rw (lookup-canon k fs (int64 n) h e, get_as) (unfold canon in refl)
