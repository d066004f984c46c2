-- ===== src/Torrent/Coordinator/Content.antt =====
-- The content of a torrent, its pieces, and the bytes that a new piece adds to the files.
use native.Mathlib.Nat.{div-mul-le_self, lt-div-mul-add, div-eq_of_lt-le, mul-le-mul_right, suc-mul}
use amish.Base.{
  eq→==, ==→eq, ℕ, suc, ◌+◌, ◌-◌, ◌*◌, ◌/◌, ◌^◌, ◌≤◌, ◌<◌, ◌≡◌, sym, ap, subst, ◌∙◌, Bool, true,
  false, Option, none, some, List, ◌∷◌, Bytes, ◌==◌, if◌then◌else◌, length, take, drop, get_or, min,
  map, arith, Bool-cases, inl, inr,
}
use amish.Base.Int.{pos}
use amish.Metainfo.{Info, num_pieces, total_length}
use amish.Torrent.Endgame.{contains}
use amish.Torrent.Writer.{Writer}
use amish.Torrent.Writer.Files.{covers}
use amish.Torrent.Writer.Layout.{Extent, entry_of, total}
use amish.Torrent.Writer.Spread.{get_or-take, get_or-drop}
use amish.Torrent.Writer.Flat.{byte_at, AreDistinct}
use amish.Torrent.Coordinator.{Event, arrive}

-- The metadata describes this content: in pieces of `p` bytes, and in files of these sizes, with
-- different paths.
pub record IsTorrent (info : Info) (es : List Extent) (p : ℕ) (content : Bytes) : Type 0 where
  pub positive : 0 < p
  pub in_pieces : info.piece_length ≡ pos p
  pub whole : total_length info ≡ pos (length content)
  pub in_files : total es ≡ length content
  pub fits : length content < 2 ^ 63
  pub distinct : AreDistinct es
  pub enough : length content ≤ num_pieces info * p
  pub needed : num_pieces info * p < length content + p

abbrev pub piece_of : Bytes → ℕ → ℕ → Bytes
piece_of content p i = take p (drop (i * p) content)

-- What a result holds is the piece of its index.
abbrev pub Matches : Bytes → ℕ → ℕ → Option Bytes → Type 0
Matches content p i none = Unit {0}
Matches content p i (some b) = b ≡ piece_of content p i

module _ (info : Info) (content : Bytes) (p : ℕ) where
  -- A result is for a piece of the torrent, and holds it if the worker has no error.
  abbrev pub IsGenuine : Event → Type 0
  IsGenuine (arrive r) = (r.index < num_pieces info) × Matches content p r.index r.piece
  IsGenuine _ = Unit {0}

-- The bytes of the completed pieces are on the disk.
pub record IsStored (info : Info) (es : List Extent) (p : ℕ) (content : Bytes) (is : List ℕ)
    (w : Writer) : Type 0 where
  pub stored :
      (g : ℕ)
      → g < length content
      → contains is (g / p) ≡ true
      → byte_at w.disk es g ≡ get_or content g 0
  pub same_info : w.info ≡ info
  pub same_files : w.files ≡ map entry_of es
  pub usable : w.closed ≡ false

covers-div : (i p n g : ℕ) → 0 < p → n ≤ p → covers (i * p) n g ≡ true → g / p ≡ i
covers-div i p n g some_bytes short h =
    let (lo, hi) = bounds (i * p) n g h in div-eq_of_lt-le {k = i} p lo (next i p g (omega arith))
  where
    bounds : (a n g : ℕ) → covers a n g ≡ true → (a ≤ g) × (g < a + n)
    bounds a n g h = ground arith

    next : (i p g : ℕ) → g < i * p + p → g < (i + 1) * p
    next i p g h = grind arith

covers_own :
    (i p len g : ℕ) → 0 < p → g < len → g / p ≡ i → covers (i * p) (min p (len - i * p)) g ≡ true
covers_own i p len g some_bytes lt e =
    inside (i * p) p len g lt (subst (λ k. k * p ≤ g) e (div-mul-le_self g p))
      (subst (λ k. g < k * p + p) e (lt-div-mul-add {a = g} {b = p} some_bytes))
  where
    inside : (a p len g : ℕ) → g < len → a ≤ g → g < a + p → covers a (min p (len - a)) g ≡ true
    inside a p len g lt lo hi = ground arith

pub starts_within : (n p i len : ℕ) → n * p < len + p → i < n → i * p < len
starts_within n p i len h lt =
    omega (arith, h, mul-le-mul_right {m = suc i} {n = n} p lt, suc-mul i p)

-- A byte of a piece is that byte of the content.
get_or-piece_of :
    (content : Bytes) (p i g : ℕ)
    → i * p ≤ g
    → g < i * p + p
    → get_or (piece_of content p i) (g - i * p) 0 ≡ get_or content g 0
get_or-piece_of content p i g lo hi =
    get_or-take p (drop (i * p) content) (g - i * p) (omega arith)
    ∙ get_or-drop (i * p) content (g - i * p)
    ∙ ap (λ k. get_or content k 0) (omega arith)

contains-other :
    (i j : ℕ) (is : List ℕ) → contains (i ∷ is) j ≡ true → i == j ≡ false → contains is j ≡ true
unfolding contains
contains-other i j is h other = ground arith

pub byte_after :
    (content : Bytes) (p i : ℕ) (is : List ℕ) (old g : ℕ)
    → 0 < p
    → g < length content
    → contains (i ∷ is) (g / p) ≡ true
    → (contains is (g / p) ≡ true → old ≡ get_or content g 0)
    → (if covers (i * p) (min p (length content - i * p)) g
        then get_or (piece_of content p i) (g - i * p) 0
        else old)
      ≡ get_or content g 0
byte_after content p i is old g some_bytes lt there stored = elim (Bool-cases (i == g / p)) [
  | inl same ↦
      let e = ==→eq i (g / p) same in
      rw (covers_own i p (length content) g some_bytes lt (sym e)) (
        get_or-piece_of content p i g (subst (λ k. k * p ≤ g) (sym e) (div-mul-le_self g p))
          (subst (λ k. g < k * p + p) (sym e) (lt-div-mul-add {a = g} {b = p} some_bytes)))
  | inr other ↦ elim (Bool-cases (covers (i * p) (min p (length content - i * p)) g)) [
    | inl c ↦
        let e = covers-div i p (min p (length content - i * p)) g some_bytes (omega arith) c in
        absurd (differ (i == g / p) (eq→== i (g / p) (sym e)) other)
    | inr c ↦ rw c (stored (contains-other i (g / p) is there other))
  ]
]
  where
    differ : (b : Bool) → b ≡ true → b ≡ false → ⊥
    differ b h h' = cc
