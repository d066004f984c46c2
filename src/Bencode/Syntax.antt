-- ===== src/Bencode/Syntax.antt =====
-- The dynamic types that bencode.go switches on, and its maps.
use amish.Base.{
  ℕ, ◌^◌, ◌≡◌, Bool, true, false, Option, none, some, [], ◌∷◌, Bytes, ltb, ◌==◌, bytes_eq,
  if◌then◌else◌,
}
use amish.Base.Int.{ℤ}

-- `out_of_fuel` has no counterpart in the program: `Decode.decode` never gives it.
pub data Error : Type 0 where
  unexpected_eof invalid_format invalid_integer invalid_string unsupported_type out_of_fuel : Error

-- `int` and `bytes` are given to the encoder only. A map is its entries in some order, and a
-- value of any other dynamic type is `other`.
mutual
  pub data Value : Type 0 where
    int : ℤ → Value
    int64 : ℤ → Value
    string : Bytes → Value
    bytes : Bytes → Value
    list : Items → Value
    dict : Fields → Value
    other : Value

  pub data Items : Type 0 where
    nil : Items
    cons : Value → Items → Items

  pub data Fields : Type 0 where
    end : Fields
    field : Bytes → Value → Fields → Fields

-- The largest block that `make` allocates on a 64-bit platform: past it the call panics.
abbrev pub max_alloc : ℕ
max_alloc = 2 ^ 48

-- `m[key]`
unfoldable pub lookup : Bytes → Fields → Option Value
lookup k end = none
lookup k (field j v fs) = if bytes_eq j k then some v else lookup k fs

-- `m[key] = v`: a key that is there keeps its place and takes the new value.
unfoldable pub insert : Bytes → Value → Fields → Fields
insert k v end = field k v end
insert k v (field j w fs) = if bytes_eq j k then field j v fs else field j w (insert k v fs)

-- The type assertions `v.(string)`, `v.(int64)`, `v.([]any)` and `v.(map[string]any)`.
abbrev pub as_string : Value → Option Bytes
as_string (string s) = some s
as_string _ = none

abbrev pub as_int64 : Value → Option ℤ
as_int64 (int64 n) = some n
as_int64 _ = none

abbrev pub as_list : Value → Option Items
as_list (list xs) = some xs
as_list _ = none

abbrev pub as_dict : Value → Option Fields
as_dict (dict fs) = some fs
as_dict _ = none

-- `dict[key].(T)`: a missing key is a nil interface, whose assertion fails as well.
abbrev pub get_as {ℓ} : {A : Type ℓ} → (Value → Option A) → Bytes → Fields → Option A
get_as assert k fs = elim (lookup k fs) [ none ↦ none | some v ↦ assert v ]

-- No entry has the key `k`.
abbrev pub LacksKey : Bytes → Fields → Type 0
LacksKey k end = Unit {0}
LacksKey k (field j v fs) = (bytes_eq j k ≡ false) × LacksKey k fs

-- The keys of a map are distinct.
abbrev pub IsMap : Fields → Type 0
IsMap end = Unit {0}
IsMap (field k v fs) = LacksKey k fs × IsMap fs

-- The order of `sort.Strings`: byte by byte, a proper prefix first.
abbrev pub bytes_lt : Bytes → Bytes → Bool
bytes_lt [] [] = false
bytes_lt [] (b ∷ t) = true
bytes_lt (a ∷ s) [] = false
bytes_lt (a ∷ s) (b ∷ t) = if ltb a b then true else if a == b then bytes_lt s t else false
