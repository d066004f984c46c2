-- ===== src/Torrent/Writer/Layout.antt =====
-- The segments of a piece where no offset overflows: they are counted in natural numbers.
use amish.Base.{
  ℕ, ◌+◌, ◌-◌, ◌^◌, ◌≤◌, ◌<◌, ◌≡◌, refl, ap₂, List, [], ◌∷◌, Bytes, bytes_eq, false, leb, max, min,
  map, if◌then◌else◌, arith, inl, inr, Bool-cases,
}
use amish.Base.Int.{pos, ◌-ℤ◌, wrap, le_int, wrap-add-pos, wrap-sub-pos}
use amish.Torrent.Writer.Segments.{FileEntry, FileSegment, segments, max_int, min_int}

-- A file, and how many bytes it has.
pub record Extent : Type 0 where
  pub path : Bytes
  pub count : ℕ

abbrev pub entry_of : Extent → FileEntry
entry_of e = record { path = e.path; size = pos e.count }

-- A part of a file: from an offset, so many bytes.
pub record Part : Type 0 where
  pub path : Bytes
  pub offset : ℕ
  pub count : ℕ

abbrev pub segment_of : Part → FileSegment
segment_of p = record { path = p.path; offset = pos p.offset; size = pos p.count }

abbrev pub total : List Extent → ℕ
total [] = 0
total (e ∷ es) = e.count + total es

-- No file of the list has this path.
abbrev pub IsAbsent : Bytes → List Extent → Type 0
IsAbsent p [] = Unit {0}
IsAbsent p (e ∷ es) = (bytes_eq p e.path ≡ false) × (bytes_eq e.path p ≡ false) × IsAbsent p es

unfoldable pub parts : ℕ → ℕ → ℕ → List Extent → List Part
parts first last offset [] = []
parts first last offset (e ∷ es) =
    let end = offset + e.count in
    let rest = parts first last end es in
    let lo = max first offset in
    if leb end first
    then rest
    else if leb last offset
    then []
    else record { path = e.path; offset = lo - offset; count = min last end - lo } ∷ rest

max_pos : (a b : ℕ) → max_int (pos a) (pos b) ≡ pos (max a b)
max_pos a b = ground arith

min_pos : (a b : ℕ) → min_int (pos a) (pos b) ≡ pos (min a b)
min_pos a b = ground arith

le_pos : (a b : ℕ) → le_int (pos a) (pos b) ≡ leb a b
le_pos a b = ground arith

pub leb→lt : (a b : ℕ) → leb a b ≡ false → b < a
leb→lt a b h = ground arith

-- The segment of a file that the piece reaches.
segment_of_overlap :
    (first last offset : ℕ) (e : Extent)
    → first ≤ last
    → last < 2 ^ 63
    → offset + e.count < 2 ^ 63
    → leb (offset + e.count) first ≡ false
    → leb last offset ≡ false
    → record {
      path = e.path;
      offset = wrap (max_int (pos first) (pos offset) -ℤ pos offset);
      size = wrap (min_int (pos last) (pos (offset + e.count)) -ℤ max_int (pos first) (pos offset));
    }
      ≡ segment_of (record {
        path = e.path;
        offset = max first offset - offset;
        count = min last (offset + e.count) - max first offset;
      })
segment_of_overlap first last offset e o l fits a b =
    let a' = leb→lt (offset + e.count) first a in
    let b' = leb→lt last offset b in
    rw
      (
        max_pos first offset,
        min_pos last (offset + e.count),
        wrap-sub-pos (max first offset) offset (omega arith) (omega arith),
        wrap-sub-pos (min last (offset + e.count)) (max first offset) (omega arith) (omega arith),
      )
      refl

-- Here the loop's int64 arithmetic is exact.
pub segments-pos :
    (first last offset : ℕ) (es : List Extent)
    → first ≤ last
    → last < 2 ^ 63
    → offset + total es < 2 ^ 63
    → segments (pos first) (pos last) (pos offset) (map entry_of es)
      ≡ map segment_of (parts first last offset es)
unfolding segments parts
segments-pos first last offset [] o l h = refl
segments-pos first last offset (e ∷ es) o l h =
    let ih = segments-pos first last (offset + e.count) es o l (omega arith) in
    let fits : offset + e.count < 2 ^ 63 = omega arith in
    rw (wrap-add-pos offset e.count fits, le_pos (offset + e.count) first, le_pos last offset)
      (elim (Bool-cases (leb (offset + e.count) first)) [
        | inl a ↦ rw a ih
        | inr a ↦ elim (Bool-cases (leb last offset)) [
          | inl b ↦ rw (a, b) refl
          | inr b ↦
              rw (a, b)
                (ap₂ (λ x xs. x ∷ xs) (segment_of_overlap first last offset e o l fits a b) ih)
        ]
      ])

-- Behind its last byte a piece has no parts.
pub parts-past :
    (first last offset : ℕ) (es : List Extent) → last ≤ offset → parts first last offset es ≡ []
unfolding parts
parts-past first last offset [] h = refl
parts-past first last offset (e ∷ es) h =
    ground (arith, parts-past first last (offset + e.count) es)
