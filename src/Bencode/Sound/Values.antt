-- ===== src/Bencode/Sound/Values.antt =====
-- The recursive descent keeps within its fuel, and gives well-formed values.
use amish.Base.{
  ℕ, zero, suc, ◌+◌, ◌*◌, ◌≤◌, ◌<◌, ◌≡◌, some, [], ◌∷◌, Bytes, length, arith, Result, holds, fails,
  panics, Ensures-if, Ensures->>=, Ensures-require, ◌==◌, bytes_eq, leb, ◌&&◌, Bool-cases, inl, inr,
}
use amish.Bencode.Syntax.{
  Value, Fields, Error, int, int64, string, bytes, list, dict, other, end, field, IsMap, max_alloc,
  invalid_format, as_string, insert,
}
use amish.Bencode.Decode.{decode_value, decode_list, decode_dict}
use amish.Bencode.Maps.{insert-IsMap}
use amish.Bencode.Sound.Scalars.{
  IsDecoded, AreDecoded, HasDecoded, Leaves, Leaves-one, Leaves-cons, Leaves-trans, length-Leaves,
  Yields, decode_int-Yields, decode_string-Yields,
}

HasDecoded-insert :
    (k : Bytes) (v : Value) (m : Fields)
    → length k ≤ max_alloc
    → IsDecoded v
    → HasDecoded m
    → HasDecoded (insert k v m)
unfolding insert
HasDecoded-insert k v end hk hv h = (hk, hv, tt)
HasDecoded-insert k v (field j w m) hk hv (hj, hw, h) = elim (Bool-cases (bytes_eq j k)) [
  | inl e ↦ rw e (hj, hv, h)
  | inr e ↦ rw e (hj, hw, HasDecoded-insert k v m hk hv h)
]

as_string-IsDecoded :
    (v : Value) → IsDecoded v → (k : Bytes) → as_string v ≡ some k → length k ≤ max_alloc
as_string-IsDecoded (int n) h k e = absurd h
as_string-IsDecoded (int64 n) h k e = cc
as_string-IsDecoded (string s) h k e = ground arith
as_string-IsDecoded (bytes s) h k e = absurd h
as_string-IsDecoded (list xs) h k e = cc
as_string-IsDecoded (dict fs) h k e = cc
as_string-IsDecoded other h k e = absurd h

Yields-after :
    {r s : Bytes} {m : Result Error (Fields × Bytes)}
    → Leaves r s
    → Yields (λ (fs, rest). IsMap fs × HasDecoded fs × Leaves s rest) m
    → Yields (λ (fs, rest). IsMap fs × HasDecoded fs × Leaves r rest) m
Yields-after l (holds (d, h, k)) = holds (d, h, Leaves-trans l k)
Yields-after l (fails e) = fails e
Yields-after l panics = panics

-- One induction on the fuel, for the three functions of the descent.
mutual
  unfolding decode_value

  pub decode_value-Yields :
      (f : ℕ) (r : Bytes)
      → 2 * length r < f
      → Yields (λ (v, rest). IsDecoded v × Leaves r rest) (decode_value f r)
  decode_value-Yields zero r lt = absurd (omega arith)
  decode_value-Yields (suc f) [] lt = fails (cc)
  decode_value-Yields (suc f) (b ∷ r) lt =
      Ensures-if (b == b'i')
        (λ _. Ensures->>= (decode_int-Yields r) λ (n, rest) h. holds (h.0, Leaves-cons b h.1))
        λ _.
          Ensures-if (b == b'l')
            (λ _.
              Ensures->>= (decode_list-Yields f r (omega arith))
                λ (xs, rest) h. holds (h.0, Leaves-cons b h.1))
            λ _.
              Ensures-if (b == b'd')
                (λ _.
                  Ensures->>= (decode_dict-Yields f end r (omega arith) tt tt)
                    λ (fs, rest) h. holds ((h.0, h.1), Leaves-cons b h.2))
                λ _.
                  Ensures-if (leb b'0' b && leb b b'9')
                    (λ _. Ensures->>= (decode_string-Yields (b ∷ r)) λ (s, rest) h. holds h)
                    λ _. fails (cc)

  decode_list-Yields :
      (f : ℕ) (r : Bytes)
      → 2 * length r + 1 < f
      → Yields (λ (xs, rest). AreDecoded xs × Leaves r rest) (decode_list f r)
  decode_list-Yields zero r lt = absurd (omega arith)
  decode_list-Yields (suc f) [] lt = fails (cc)
  decode_list-Yields (suc f) (b ∷ r) lt =
      Ensures-if (b == b'e') (λ _. holds (tt, Leaves-one b r))
        λ _. Ensures->>= (decode_value-Yields f (b ∷ r) (omega arith)) λ (v, rest) h.
          Ensures->>= (decode_list-Yields f rest (omega (arith, length-Leaves h.1)))
            λ (xs, rest') k. holds ((h.0, k.0), Leaves-trans h.1 k.1)

  decode_dict-Yields :
      (f : ℕ) (m : Fields) (r : Bytes)
      → 2 * length r + 1 < f
      → IsMap m
      → HasDecoded m
      → Yields (λ (fs, rest). IsMap fs × HasDecoded fs × Leaves r rest) (decode_dict f m r)
  decode_dict-Yields zero m r lt d h = absurd (omega arith)
  decode_dict-Yields (suc f) m [] lt d h = fails (cc)
  decode_dict-Yields (suc f) m (b ∷ r) lt d h =
      Ensures-if (b == b'e') (λ _. holds (d, h, Leaves-one b r))
        λ _. Ensures->>= (decode_value-Yields f (b ∷ r) (omega arith)) λ (key, rest) hk.
          Ensures->>=
            (Ensures-require (as_string key) invalid_format (as_string-IsDecoded key hk.0) (cc))
            λ k short.
              Ensures->>= (decode_value-Yields f rest (omega (arith, length-Leaves hk.1)))
                λ (v, rest') hv. Yields-after (Leaves-trans hk.1 hv.1) (
                  decode_dict-Yields f (insert k v m) rest'
                    (omega (arith, length-Leaves hk.1, length-Leaves hv.1)) (insert-IsMap k v m d)
                    (HasDecoded-insert k v m short hv.0 h))
