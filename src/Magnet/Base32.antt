-- ===== src/Magnet/Base32.antt =====
-- Base32 info hashes, against the number that their digits write.
use amish.Base.{
  ℕ, zero, suc, ◌+◌, ◌-◌, ◌*◌, ◌/◌, ◌%◌, ◌^◌, ◌≤◌, ◌<◌, ◌≡◌, refl, ap, ◌∙◌, subst, Bool, true,
  false, ◌&&◌, Option, some, List, [], ◌∷◌, ◌++◌, Bytes, leb, ◌==◌, if◌then◌else◌, length, All,
  All-append, IsByte, length-append, take_all, append-nil, ok, arith, Bool-cases, inl, inr,
}
use amish.Magnet.{
  upper, index_rune, Bits, push_digit, push_digits, no_bits, decode_base32, parse_info_hash,
  urn_prefix,
}

-- Digits in base 32, bytes in base 256: the number that they write, the first the highest.
unfoldable pub value_32 : ℕ → List ℕ → ℕ
value_32 v [] = v
value_32 v (d ∷ ds) = value_32 (v * 32 + d) ds

unfoldable pub value_256 : ℕ → Bytes → ℕ
value_256 v [] = v
value_256 v (b ∷ s) = value_256 (v * 256 + b) s

-- The digit of an ASCII character of either case.
abbrev pub digit_of : ℕ → Option ℕ
digit_of c = index_rune (if leb 97 c && leb c 122 then c - 32 else c)

-- A string spells these digits.
abbrev pub Spells : Bytes → List ℕ → Type 0
Spells [] [] = Unit {0}
Spells (c ∷ s) (d ∷ ds) = (digit_of c ≡ some d) × Spells s ds
Spells _ _ = ⊥

push_all : List ℕ → Bits → Bits
push_all [] st = st
push_all (d ∷ ds) st = push_all ds (push_digit d st)

value_256-snoc : (v : ℕ) (s : Bytes) (b : ℕ) → value_256 v (s ++ b ∷ []) ≡ value_256 v s * 256 + b
unfolding value_256
value_256-snoc v [] b = refl
value_256-snoc v (c ∷ s) b = value_256-snoc (v * 256 + c) s b

-- The bytes so far and the bits behind them are the digits so far.
record IsState (v k : ℕ) (st : Bits) : Type 0 where
  few : st.n_bits < 8
  below : st.bits < 2 ^ st.n_bits
  total : value_256 0 st.out * 2 ^ st.n_bits + st.bits ≡ v
  counted : 8 * length st.out + st.n_bits ≡ 5 * k
  bytes : All IsByte st.out

-- Five bits more, where they do not fill a byte, and where they do.
keep_arith :
    (n bits idx w : ℕ)
    → n + 5 < 8
    → bits < 2 ^ n
    → idx < 32
    → (bits * 2 ^ 5 % 2 ^ 64 + idx < 2 ^ (n + 5))
      × (w * 2 ^ (n + 5) + (bits * 2 ^ 5 % 2 ^ 64 + idx) ≡ (w * 2 ^ n + bits) * 32 + idx)
keep_arith zero bits idx w h b i = omega arith
keep_arith (suc zero) bits idx w h b i = omega arith
keep_arith (suc (suc zero)) bits idx w h b i = omega arith
keep_arith (suc (suc (suc n))) bits idx w h b i = absurd (omega arith)

fill_arith :
    (n bits idx w : ℕ)
    → n < 8
    → 8 ≤ n + 5
    → bits < 2 ^ n
    → idx < 32
    → (bits * 2 ^ 5 % 2 ^ 64 + idx) % 2 ^ (n + 5 - 8) < 2 ^ (n + 5 - 8)
      × ((w * 256 + (bits * 2 ^ 5 % 2 ^ 64 + idx) / 2 ^ (n + 5 - 8) % 256) * 2 ^ (n + 5 - 8)
            + (bits * 2 ^ 5 % 2 ^ 64 + idx) % 2 ^ (n + 5 - 8)
          ≡ (w * 2 ^ n + bits) * 32 + idx)
fill_arith zero bits idx w lt h b i = absurd (omega arith)
fill_arith (suc zero) bits idx w lt h b i = absurd (omega arith)
fill_arith (suc (suc zero)) bits idx w lt h b i = absurd (omega arith)
fill_arith (suc (suc (suc zero))) bits idx w lt h b i = omega arith
fill_arith (suc (suc (suc (suc zero)))) bits idx w lt h b i = omega arith
fill_arith (suc (suc (suc (suc (suc zero))))) bits idx w lt h b i = omega arith
fill_arith (suc (suc (suc (suc (suc (suc zero)))))) bits idx w lt h b i = omega arith
fill_arith (suc (suc (suc (suc (suc (suc (suc zero))))))) bits idx w lt h b i = omega arith
fill_arith (suc (suc (suc (suc (suc (suc (suc (suc n)))))))) bits idx w lt h b i =
    absurd (omega arith)

push_digit-IsState :
    (v k idx : ℕ) (st : Bits)
    → IsState v k st
    → idx < 32
    → IsState (v * 32 + idx) (suc k) (push_digit idx st)
unfolding push_digit
push_digit-IsState v k idx st h i = elim (Bool-cases (leb 8 (st.n_bits + 5))) [
  | inr short ↦
      let few : st.n_bits + 5 < 8 = ground (arith, short) in
      let (below, total) = keep_arith st.n_bits st.bits idx (value_256 0 st.out) few h.below i in
      rw short (record {
        few = few;
        below = below;
        total = total ∙ ap (λ w. w * 32 + idx) h.total;
        counted = omega (arith, h.counted);
        bytes = h.bytes;
      })
  | inl full ↦
      let enough : 8 ≤ st.n_bits + 5 = ground (arith, full) in
      let bits = st.bits * 2 ^ 5 % 2 ^ 64 + idx in
      let b = bits / 2 ^ (st.n_bits + 5 - 8) % 256 in
      let (below, total) =
        fill_arith st.n_bits st.bits idx (value_256 0 st.out) h.few enough h.below i in
      rw full (record {
        few = omega (arith, h.few);
        below = below;
        total =
            ap (λ w. w * 2 ^ (st.n_bits + 5 - 8) + bits % 2 ^ (st.n_bits + 5 - 8))
              (value_256-snoc 0 st.out b)
            ∙ total
            ∙ ap (λ w. w * 32 + idx) h.total;
        counted = omega (arith, h.counted, length-append st.out (b ∷ []), enough);
        bytes = All-append IsByte st.out (b ∷ []) h.bytes (omega arith, tt);
      })
]

index_rune-lt : (c d : ℕ) → index_rune c ≡ some d → d < 32
index_rune-lt c d h = ground arith

push_all-IsState :
    (v k : ℕ) (ds : List ℕ) (st : Bits)
    → IsState v k st
    → All (λ d. d < 32) ds
    → IsState (value_32 v ds) (k + length ds) (push_all ds st)
unfolding value_32 push_all
push_all-IsState v k [] st h small = subst (λ n. IsState v n st) (omega arith) h
push_all-IsState v k (d ∷ ds) st h (i, small) =
    subst (λ n. IsState (value_32 (v * 32 + d) ds) n (push_all ds (push_digit d st))) (omega arith)
      (push_all-IsState (v * 32 + d) (suc k) ds (push_digit d st) (push_digit-IsState v k d st h i)
        small)

Spells-small : (s : Bytes) (ds : List ℕ) → Spells s ds → All (λ d. d < 32) ds
Spells-small [] [] h = tt
Spells-small [] (d ∷ ds) h = absurd h
Spells-small (c ∷ s) [] h = absurd h
Spells-small (c ∷ s) (d ∷ ds) (hd, h) =
    (index_rune-lt (if leb 97 c && leb c 122 then c - 32 else c) d hd, Spells-small s ds h)

length-Spells : (s : Bytes) (ds : List ℕ) → Spells s ds → length s ≡ length ds
length-Spells [] [] h = refl
length-Spells [] (d ∷ ds) h = absurd h
length-Spells (c ∷ s) [] h = absurd h
length-Spells (c ∷ s) (d ∷ ds) (hd, h) = ap suc (length-Spells s ds h)

-- An ASCII letter is no first byte of a longer character.
upper_cons :
    (c d : ℕ) (s : Bytes)
    → digit_of c ≡ some d
    → upper (c ∷ s) ≡ (if leb 97 c && leb c 122 then c - 32 else c) ∷ upper s
unfolding upper
upper_cons c d [] h = refl
upper_cons c d (e ∷ s) h =
    rw (plain c d 196 (e == 177) h refl, plain c d 197 (e == 191) h refl, upper) refl
  where
    plain : (c d k : ℕ) (b : Bool) → digit_of c ≡ some d → leb 196 k ≡ true → (c == k && b) ≡ false
    plain c d k b h big = ground arith

push_digits-upper :
    (s : Bytes) (ds : List ℕ) (st : Bits)
    → Spells s ds
    → push_digits (upper s) st ≡ ok (push_all ds st)
unfolding push_digits push_all
push_digits-upper [] [] st h = unfold upper in refl
push_digits-upper [] (d ∷ ds) st h = absurd h
push_digits-upper (c ∷ s) [] st h = absurd h
push_digits-upper (c ∷ s) (d ∷ ds) st (hd, h) =
    ap (λ cs. push_digits cs st) (upper_cons c d s hd)
    ∙ rw hd (push_digits-upper s ds (push_digit d st) h)

-- What an info hash is: twenty bytes that write the number of the digits.
abbrev pub IsHashOf : List ℕ → Bytes → Type 0
IsHashOf ds hash = (length hash ≡ 20) × All IsByte hash × (value_256 0 hash ≡ value_32 0 ds)

decode_base32_lem :
    (s : Bytes) (ds : List ℕ)
    → length s ≡ 32
    → Spells s ds
    → (hash : Bytes) × (decode_base32 s ≡ ok hash) × IsHashOf ds hash
unfolding decode_base32
decode_base32_lem s ds size h =
    let st = push_all ds no_bits in
    let good : IsState (value_32 0 ds) (0 + length ds) st =
      push_all-IsState 0 0 ds no_bits
        (record {
          few = omega arith;
          below = omega arith;
          total = unfold value_256 in omega arith;
          counted = omega arith;
          bytes = tt;
        })
        (Spells-small s ds h) in
    let none_left : st.n_bits ≡ 0 =
      omega (arith, good.counted, good.few, length-Spells s ds h, size) in
    (
      st.out,
      rw (push_digits-upper s ds no_bits h) refl,
      (
        omega (arith, good.counted, none_left, length-Spells s ds h, size),
        good.bytes,
        last st.n_bits st.bits none_left good.below good.total,
      ),
    )
  where
    last : (n bits : ℕ) {w v : ℕ} → n ≡ 0 → bits < 2 ^ n → w * 2 ^ n + bits ≡ v → w ≡ v
    last zero bits e b t = omega (arith, b, t)
    last (suc n) bits e b t = absurd (omega arith)

-- An info hash of thirty-two base32 characters, of either case, is accepted, and gives twenty
-- bytes: they write in base 256 the number that the digits write in base 32.
pub parse_info_hash_base32 :
    (s : Bytes) (ds : List ℕ)
    → length s ≡ 32
    → Spells s ds
    → (hash : Bytes) × (parse_info_hash (urn_prefix ++ s) ≡ ok hash) × IsHashOf ds hash
unfolding parse_info_hash
parse_info_hash_base32 s ds size h =
    let (hash, e, (len, bytes, value)) = decode_base32_lem s ds size h in
    (
      hash,
      rw (size, e) (ap ok (rw (take_all 20 hash (omega arith), len) (append-nil hash))),
      (len, bytes, value),
    )
