-- ===== src/Bencode/Sound/Scalars.antt =====
-- What the decoder takes off its input: integers and byte strings.
use amish.Base.{
  ℕ, ◌≤◌, ◌<◌, ◌≡◌, ◌≢◌, refl, sym, ap, ◌∙◌, [], ◌∷◌, ◌++◌, append_assoc, Bytes, codes, length,
  length-take, take-append-drop, arith, lengths, Result, Ensures, holds, fails, panics, Ensures-if,
  Ensures->>=, Ensures-require, ltb, ◌==◌, bytes_eq, ◌||◌,
}
use amish.Base.Int.{ℤ, pos, negsuc, IsInt64}
use amish.Base.Decimal.{parse_int}
use amish.Base.Decimal.RoundTrip.{parse_int-IsInt64}
use amish.Bencode.Syntax.{
  Value, Items, Fields, Error, int, int64, string, bytes, list, dict, other, nil, cons, end, field,
  IsMap, max_alloc, out_of_fuel, invalid_integer, invalid_string,
}
use amish.Bencode.Decode.{
  read_int, check_int, decode_int, read_length, read_full, decode_string, leading_zero,
}

-- The types that `Decode` documents, with integers in range and maps with distinct keys.
abbrev mutual
  pub IsDecoded : Value → Type 0
  IsDecoded (int n) = ⊥
  IsDecoded (int64 n) = IsInt64 n
  IsDecoded (string s) = length s ≤ max_alloc
  IsDecoded (bytes s) = ⊥
  IsDecoded (list xs) = AreDecoded xs
  IsDecoded (dict fs) = IsMap fs × HasDecoded fs
  IsDecoded other = ⊥

  pub AreDecoded : Items → Type 0
  AreDecoded nil = Unit
  AreDecoded (cons v xs) = IsDecoded v × AreDecoded xs

  pub HasDecoded : Fields → Type 0
  HasDecoded end = Unit
  HasDecoded (field k v fs) = (length k ≤ max_alloc) × IsDecoded v × HasDecoded fs

-- `rest` is what is left of `r` when at least one byte is taken off its front.
abbrev pub Leaves : Bytes → Bytes → Type 0
Leaves r rest = (pre : Bytes) × (r ≡ pre ++ rest) × (0 < length pre)

pub Leaves-one : (b : ℕ) (r : Bytes) → Leaves (b ∷ r) r
Leaves-one b r = (b ∷ [], refl, omega arith)

pub Leaves-cons : (b : ℕ) {r rest : Bytes} → Leaves r rest → Leaves (b ∷ r) rest
Leaves-cons b (pre, e, h) = (b ∷ pre, ap (λ t. b ∷ t) e, omega arith)

pub Leaves-trans : {r s t : Bytes} → Leaves r s → Leaves s t → Leaves r t
Leaves-trans {r} {s} {t} (p, e, h) (q, d, k) =
    (p ++ q, e ∙ ap (λ u. p ++ u) d ∙ sym (append_assoc p q t), omega lengths)

pub length-Leaves : {r s : Bytes} → Leaves r s → length s < length r
length-Leaves {r} {s} (p, e, h) = omega (lengths, ap length e)

-- The decoder kept within its fuel, and its result satisfies `P`.
abbrev pub Yields {ℓ} : {A : Type ℓ} → (A → Type 0) → Result Error A → Type ℓ
Yields P = Ensures P (λ e. e ≢ out_of_fuel)

Yields-cons :
    (b : ℕ) {r : Bytes} {m : Result Error (Bytes × Bytes)}
    → Yields (λ (s, rest). Leaves r rest) m
    → Yields (λ (s, rest). Leaves (b ∷ r) rest) m
Yields-cons b (holds h) = holds (Leaves-cons b h)
Yields-cons b (fails h) = fails h
Yields-cons b panics = panics

read_int-Yields : (buf r : Bytes) → Yields (λ (s, rest). Leaves r rest) (read_int buf r)
unfolding read_int
read_int-Yields buf [] = fails (cc)
read_int-Yields buf (b ∷ r) =
    Ensures-if (b == b'e') (λ _. holds (Leaves-one b r))
      λ _. Yields-cons b (read_int-Yields (buf ++ b ∷ []) r)

check_int-Yields : (s : Bytes) → Yields IsInt64 (check_int s)
unfolding check_int
check_int-Yields s =
    Ensures-if (bytes_eq s []) (λ _. fails (cc))
      λ _.
        Ensures-if (leading_zero s) (λ _. fails (cc))
          λ _.
            Ensures-if (bytes_eq s (codes "-0")) (λ _. fails (cc))
              λ _. Ensures-require (parse_int s) invalid_integer (parse_int-IsInt64 s) (cc)

pub decode_int-Yields : (r : Bytes) → Yields (λ (n, rest). IsInt64 n × Leaves r rest) (decode_int r)
unfolding decode_int
decode_int-Yields r =
    Ensures->>= (read_int-Yields [] r)
      λ (s, rest) h. Ensures->>= (check_int-Yields s) λ n k. holds (k, h)

read_length-Yields : (buf r : Bytes) → Yields (λ (s, rest). Leaves r rest) (read_length buf r)
unfolding read_length
read_length-Yields buf [] = fails (cc)
read_length-Yields buf (b ∷ r) =
    Ensures-if (b == b':') (λ _. holds (Leaves-one b r))
      λ _.
        Ensures-if (ltb b b'0' || ltb b'9' b) (λ _. fails (cc))
          λ _. Yields-cons b (read_length-Yields (buf ++ b ∷ []) r)

read_full-Yields :
    (n : ℤ) (r : Bytes)
    → Yields (λ (s, rest). (length s ≤ max_alloc) × (r ≡ s ++ rest)) (read_full n r)
unfolding read_full
read_full-Yields (negsuc n) r = panics
read_full-Yields (pos n) r =
    Ensures-if (ltb max_alloc n) (λ _. panics)
      λ fits.
        Ensures-if (ltb (length r) n) (λ _. fails (cc))
          λ _. holds (ground (arith, fits, length-take n r), sym (take-append-drop n r))

Yields-body :
    {r rest : Bytes}
    → Leaves r rest
    → {m : Result Error (Bytes × Bytes)}
    → Yields (λ (s, t). (length s ≤ max_alloc) × (rest ≡ s ++ t)) m
    → Yields (λ (s, t). (length s ≤ max_alloc) × Leaves r t) m
Yields-body (pre, e, h) (holds {a = a} (k, d)) =
    holds
      (k, (pre ++ a.0, e ∙ ap (λ u. pre ++ u) d ∙ sym (append_assoc pre a.0 a.1), omega lengths))
Yields-body l (fails k) = fails k
Yields-body l panics = panics

pub decode_string-Yields :
    (r : Bytes) → Yields (λ (s, rest). (length s ≤ max_alloc) × Leaves r rest) (decode_string r)
unfolding decode_string
decode_string-Yields r = Ensures->>= (read_length-Yields [] r) λ (s, rest) h.
    Ensures->>= (Ensures-require {P = λ _. Unit {0}} (parse_int s) invalid_string (λ _ _. tt) (cc))
      λ n _. Yields-body h (read_full-Yields n rest)
