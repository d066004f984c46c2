-- ===== src/Torrent/Writer/Spread.antt =====
-- What the parts of a piece store in one file, and what they leave alone.
use amish.Base.{
  leb→le, ℕ, zero, suc, ◌+◌, ◌-◌, ◌≤◌, ◌<◌, ◌≡◌, refl, sym, ap, ◌∙◌, ◌⊎◌, List, [], ◌∷◌, Bytes,
  true, false, leb, max, min, if◌then◌else◌, arith, inl, inr, Bool-cases, take, drop, length,
  length-take, length-drop, get_or, subst,
}
use amish.Torrent.Writer.Files.{Disk, store, write_at, covers, get_or-write_at, store-other}
use amish.Torrent.Writer.Layout.{IsAbsent, Extent, parts, leb→lt, parts-past}
use amish.Torrent.Writer.Plan.{lay, Fits}

pub lay-other :
    (piece : Bytes) (first last at offset : ℕ) (es : List Extent) (disk : Disk) (p : Bytes)
    → IsAbsent p es
    → lay piece at (parts first last offset es) disk p ≡ disk p
unfolding parts lay
lay-other piece first last at offset [] disk p h = refl
lay-other piece first last at offset (e ∷ es) disk p (n, m, h) =
    let end = offset + e.count in
    let lo = max first offset in
    let size = min last end - lo in
    let chunk = take size (drop at piece) in
    let stored = store disk e.path (lo - offset) chunk in
    elim (Bool-cases (leb end first)) [
      | inl a ↦ rw a (lay-other piece first last at end es disk p h)
      | inr a ↦ elim (Bool-cases (leb last offset)) [
        | inl b ↦ rw (a, b) refl
        | inr b ↦
            rw (a, b)
              (lay-other piece first last (at + size) end es stored p h
                ∙ store-other disk e.path p (lo - offset) chunk m)
      ]
    ]

-- Where the data goes on behind a file that the piece reaches.
pub next_at :
    (first last offset count : ℕ)
    → leb (offset + count) first ≡ false
    → leb last offset ≡ false
    → (last ≤ offset + count)
      ⊎ (offset - first + (min last (offset + count) - max first offset) ≡ offset + count - first)
next_at first last offset count a b = elim (Bool-cases (leb last (offset + count))) [
  | inl c ↦ inl (leb→le last (offset + count) c)
  | inr c ↦ inr (ground arith)
]

Fits-rest :
    (piece : Bytes) (first last at end : ℕ) (es : List Extent)
    → (last ≤ end) ⊎ (at ≡ end - first)
    → Fits piece (end - first) (parts first last end es)
    → Fits piece at (parts first last end es)
Fits-rest piece first last at end es (inl h) f =
    subst (λ ps. Fits piece at ps) (sym (parts-past first last end es h)) tt
Fits-rest piece first last at end es (inr h) f =
    subst (λ k. Fits piece k (parts first last end es)) (sym h) f

pub lay-rest :
    (piece : Bytes) (first last at end : ℕ) (es : List Extent) (disk : Disk)
    → (last ≤ end) ⊎ (at ≡ end - first)
    → lay piece at (parts first last end es) disk
      ≡ lay piece (end - first) (parts first last end es) disk
lay-rest piece first last at end es disk (inl h) =
    unfold lay in rw (parts-past first last end es h) refl
lay-rest piece first last at end es disk (inr h) =
    ap (λ k. lay piece k (parts first last end es) disk) h

pub skip :
    (first offset count : ℕ)
    → leb (offset + count) first ≡ true
    → offset + count - first ≡ offset - first
skip first offset count a = ground arith

pub parts-Fits :
    (piece : Bytes) (first last offset : ℕ) (es : List Extent)
    → first ≤ last
    → length piece ≡ last - first
    → Fits piece (offset - first) (parts first last offset es)
unfolding parts
parts-Fits piece first last offset [] o l = tt
parts-Fits piece first last offset (e ∷ es) o l =
    let end = offset + e.count in
    let at = offset - first + (min last end - max first offset) in
    let ih = parts-Fits piece first last end es o l in
    elim (Bool-cases (leb end first)) [
      | inl a ↦
          rw a
            (subst (λ k. Fits piece k (parts first last end es)) (skip first offset e.count a) ih)
      | inr a ↦ elim (Bool-cases (leb last offset)) [
        | inl b ↦ rw (a, b) tt
        | inr b ↦
            rw (a, b)
              (
                reach first last offset e.count (length piece) a b l,
                Fits-rest piece first last at end es (next_at first last offset e.count a b) ih,
              )
      ]
    ]
  where
    reach :
        (first last offset count len : ℕ)
        → leb (offset + count) first ≡ false
        → leb last offset ≡ false
        → len ≡ last - first
        → offset - first + (min last (offset + count) - max first offset) ≤ len
    reach first last offset count len a b l = ground arith

pub get_or-drop : (d : ℕ) (xs : Bytes) (k : ℕ) → get_or (drop d xs) k 0 ≡ get_or xs (d + k) 0
get_or-drop zero xs k = ap (λ i. get_or xs i 0) (omega arith)
get_or-drop (suc d) [] k = refl
get_or-drop (suc d) (x ∷ xs) k = get_or-drop d xs k ∙ ap (λ i. get_or (x ∷ xs) i 0) (suc-add d k)
  where
    suc-add : (d k : ℕ) → suc (d + k) ≡ suc d + k
    suc-add d k = omega arith

pub get_or-take : (n : ℕ) (xs : Bytes) (k : ℕ) → k < n → get_or (take n xs) k 0 ≡ get_or xs k 0
get_or-take zero xs k h = absurd (omega arith)
get_or-take (suc n) [] k h = refl
get_or-take (suc n) (x ∷ xs) zero h = refl
get_or-take (suc n) (x ∷ xs) (suc k) h = get_or-take n xs k (omega arith)

-- A byte of a file that the piece reaches.
pub byte_in_file :
    (piece s : Bytes) (first last offset count g : ℕ)
    → length piece ≡ last - first
    → leb (offset + count) first ≡ false
    → leb last offset ≡ false
    → g < count
    → get_or
        (write_at s
          (max first offset - offset)
          (take (min last (offset + count) - max first offset) (drop (offset - first) piece)))
        g
        0
      ≡ (if covers first (last - first) (offset + g)
          then get_or piece (offset + g - first) 0
          else get_or s g 0)
byte_in_file piece s first last offset count g l a b h =
    let n = min last (offset + count) - max first offset in
    let rest = drop (offset - first) piece in
    let from = max first offset - offset in
    let a' = leb→lt (offset + count) first a in
    let b' = leb→lt last offset b in
    let len : length (take n rest) ≡ n =
      omega (arith, length-take n rest, length-drop (offset - first) piece) in
    let same = same_covers first last offset count g a' b' h in
    get_or-write_at s from (take n rest) g
    ∙ rw (len, same)
        (elim (Bool-cases (covers first (last - first) (offset + g))) [
          | inl c ↦ rw c (
              get_or-take n rest (g - from) (within from n g (same ∙ c))
              ∙ get_or-drop (offset - first) piece (g - from)
              ∙ ap (λ i. get_or piece i 0) (place first offset g (first_le first last offset g c)))
          | inr c ↦ rw c refl
        ])
  where
    same_covers :
        (first last offset count g : ℕ)
        → first < offset + count
        → offset < last
        → g < count
        → covers (max first offset - offset) (min last (offset + count) - max first offset) g
          ≡ covers first (last - first) (offset + g)
    same_covers first last offset count g a b h = ground arith

    within : (from n g : ℕ) → covers from n g ≡ true → g - from < n
    within from n g h = ground arith

    first_le :
        (first last offset g : ℕ)
        → covers first (last - first) (offset + g) ≡ true
        → first ≤ offset + g
    first_le first last offset g h = ground arith

    place :
        (first offset g : ℕ)
        → first ≤ offset + g
        → offset - first + (g - (max first offset - offset)) ≡ offset + g - first
    place first offset g h = omega arith
