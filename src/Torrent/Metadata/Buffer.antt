-- ===== src/Torrent/Metadata/Buffer.antt =====
-- The buffer that the pieces of the metadata are copied into, and the marks of those received.
use amish.Base.{
  ℕ, zero, suc, ◌+◌, ◌-◌, ◌≤◌, ◌<◌, ◌≡◌, ◌≢◌, refl, ap, ap₂, ◌∙◌, Bool, true, false, List, [], ◌∷◌,
  ◌++◌, Bytes, ltb, if◌then◌else◌, length, take, drop, replicate, get_or, set, arith, lengths,
  length-append, length-take, length-drop, take_all,
}
use amish.Torrent.Writer.Files.{covers}
use amish.Torrent.Writer.Spread.{get_or-drop, get_or-take}
use amish.Torrent.Metadata.{copy_at}

-- Byte strings of the same length with the same bytes.
pub get_or_ext :
    (xs ys : Bytes)
    → length xs ≡ length ys
    → ((j : ℕ) → j < length xs → get_or xs j 0 ≡ get_or ys j 0)
    → xs ≡ ys
get_or_ext [] [] l h = refl
get_or_ext [] (y ∷ ys) l h = absurd (omega arith)
get_or_ext (x ∷ xs) [] l h = absurd (omega arith)
get_or_ext (x ∷ xs) (y ∷ ys) l h =
    ap₂ (λ z zs. z ∷ zs) (h 0 (omega arith))
      (get_or_ext xs ys (omega arith) (λ j lt. h (suc j) (omega arith)))

get_or-append :
    (xs ys : Bytes) (j : ℕ)
    → get_or (xs ++ ys) j 0
      ≡ (if ltb j (length xs) then get_or xs j 0 else get_or ys (j - length xs) 0)
get_or-append [] ys j = ground arith
get_or-append (x ∷ xs) ys zero = ground arith
get_or-append (x ∷ xs) ys (suc j) = ground (arith, get_or-append xs ys j)

module _ (dst : Bytes) (i : ℕ) (src : Bytes) (fits : i + length src ≤ length dst) where
  copied : copy_at dst i src ≡ take i dst ++ (src ++ drop (i + length src) dst)
  unfolding copy_at
  copied =
      ap (λ s. take i dst ++ (s ++ drop (i + length src) dst))
        (take_all (length dst - i) src (omega arith))

  pub length-copy_at : length (copy_at dst i src) ≡ length dst
  length-copy_at =
      ap length copied
      ∙ omega (
        lengths,
        length-take i dst,
        length-drop (i + length src) dst,
        length-append (take i dst) (src ++ drop (i + length src) dst),
      )

  -- The bytes copied, and the others as they were.
  pub get_or-copy_at :
      (j : ℕ)
      → get_or (copy_at dst i src) j 0
        ≡ (if covers i (length src) j then get_or src (j - i) 0 else get_or dst j 0)
  get_or-copy_at j =
      let tail = drop (i + length src) dst in
      let front : length (take i dst) ≡ i = omega (arith, length-take i dst) in
      ap (λ s. get_or s j 0) copied
      ∙ get_or-append (take i dst) (src ++ tail) j
      ∙ rw front (
          pick j i (length src) (get_or src (j - i) 0) (get_or dst j 0) (get_or-take i dst j)
            (get_or-append src tail (j - i))
            (λ past.
              get_or-drop (i + length src) dst (j - i - length src)
              ∙ ap (λ k. get_or dst k 0) (omega arith)))
    where
      pick :
          (j i n d e : ℕ) {a b c : ℕ}
          → (j < i → a ≡ e)
          → b ≡ (if ltb (j - i) n then d else c)
          → (i + n ≤ j → c ≡ e)
          → (if ltb j i then a else b) ≡ (if covers i n j then d else e)
      pick j i n d e ha hb hc = ground arith

pub count_true : List Bool → ℕ
count_true [] = 0
count_true (true ∷ bs) = suc (count_true bs)
count_true (false ∷ bs) = count_true bs

pub count_true-replicate : (n : ℕ) → count_true (replicate n false) ≡ 0
unfolding count_true
count_true-replicate zero = refl
count_true-replicate (suc n) = count_true-replicate n

pub count_true-set :
    (bs : List Bool) (i : ℕ)
    → i < length bs
    → get_or bs i false ≡ false
    → count_true (set bs i true) ≡ suc (count_true bs)
unfolding count_true
count_true-set [] i lt h = absurd (omega arith)
count_true-set (true ∷ bs) zero lt h = absurd (cc)
count_true-set (false ∷ bs) zero lt h = refl
count_true-set (true ∷ bs) (suc i) lt h = ap suc (count_true-set bs i (omega arith) h)
count_true-set (false ∷ bs) (suc i) lt h = count_true-set bs i (omega arith) h

count_true-le : (bs : List Bool) → count_true bs ≤ length bs
unfolding count_true
count_true-le [] = omega arith
count_true-le (true ∷ bs) = omega (arith, count_true-le bs)
count_true-le (false ∷ bs) = omega (arith, count_true-le bs)

-- As many marks as pieces: every piece has one.
pub count_true_full :
    (bs : List Bool) (i : ℕ) → length bs ≤ count_true bs → i < length bs → get_or bs i false ≡ true
unfolding count_true
count_true_full [] i full lt = absurd (omega arith)
count_true_full (true ∷ bs) zero full lt = refl
count_true_full (true ∷ bs) (suc i) full lt = count_true_full bs i (omega arith) (omega arith)
count_true_full (false ∷ bs) i full lt = absurd (omega (arith, count_true-le bs))

pub count_true_every :
    (bs : List Bool)
    → ((i : ℕ) → i < length bs → get_or bs i false ≡ true)
    → count_true bs ≡ length bs
unfolding count_true
count_true_every [] h = refl
count_true_every (true ∷ bs) h = ap suc (count_true_every bs (λ i lt. h (suc i) (omega arith)))
count_true_every (false ∷ bs) h = absurd (ground (arith, h 0 (omega arith)))

pub get_or-set_self :
    (bs : List Bool) (i : ℕ) → i < length bs → get_or (set bs i true) i false ≡ true
get_or-set_self [] i lt = absurd (omega arith)
get_or-set_self (b ∷ bs) zero lt = refl
get_or-set_self (b ∷ bs) (suc i) lt = get_or-set_self bs i (omega arith)

pub get_or-set_ne :
    (bs : List Bool) (i j : ℕ) → i ≢ j → get_or (set bs i true) j false ≡ get_or bs j false
get_or-set_ne [] i j ne = refl
get_or-set_ne (b ∷ bs) zero zero ne = absurd (ne refl)
get_or-set_ne (b ∷ bs) zero (suc j) ne = refl
get_or-set_ne (b ∷ bs) (suc i) zero ne = refl
get_or-set_ne (b ∷ bs) (suc i) (suc j) ne = get_or-set_ne bs i j (λ e. ne (ap suc e))
