-- ===== src/Torrent/Writer/Flat.antt =====
-- The files of a torrent, one after the other, as the torrent's bytes: what a piece changes there.
use amish.Base.{
  ℕ, ◌+◌, ◌-◌, ◌*◌, ◌^◌, ◌≤◌, ◌<◌, ◌≡◌, refl, sym, ap, ap₂, ◌∙◌, List, [], ◌∷◌, Bytes, true, false,
  leb, ltb, max, min, map, if◌then◌else◌, arith, inl, inr, Bool-cases, take, drop, length, ok,
  get_or, subst,
}
use amish.Base.Int.{pos, wrap-add-pos, wrap-mul-pos}
use amish.Metainfo.{piece_size}
use amish.Torrent.Writer.{System, Writer, write_piece}
use amish.Torrent.Writer.Files.{Disk, store, covers, store_self, store-other}
use amish.Torrent.Writer.Segments.{piece_segments}
use amish.Torrent.Writer.Layout.{IsAbsent, Extent, entry_of, segment_of, total, parts, segments-pos}
use amish.Torrent.Writer.Plan.{Works, lay, Fits, write_segments-Leaves}
use amish.Torrent.Writer.Spread.{lay-other, next_at, lay-rest, skip, parts-Fits, byte_in_file}

-- The byte of the torrent at an offset.
unfoldable pub byte_at : Disk → List Extent → ℕ → ℕ
byte_at disk [] g = 0
byte_at disk (e ∷ es) g =
    if ltb g e.count then get_or (disk e.path) g 0 else byte_at disk es (g - e.count)

-- The paths of the files are different.
abbrev pub AreDistinct : List Extent → Type 0
AreDistinct [] = Unit {0}
AreDistinct (e ∷ es) = IsAbsent e.path es × AreDistinct es

byte_at-store :
    (disk : Disk) (p : Bytes) (offset : ℕ) (chunk : Bytes) (es : List Extent) (g : ℕ)
    → IsAbsent p es
    → byte_at (store disk p offset chunk) es g ≡ byte_at disk es g
unfolding byte_at
byte_at-store disk p offset chunk [] g h = refl
byte_at-store disk p offset chunk (e ∷ es) g (n, m, h) =
    rw
      (
        store-other disk p e.path offset chunk n,
        byte_at-store disk p offset chunk es (g - e.count) h,
      )
      refl

module _ (piece : Bytes) (first last offset : ℕ) (e : Extent) (es : List Extent) (disk : Disk) where
  abbrev end : ℕ
  end = offset + e.count

  abbrev size : ℕ
  size = min last end - max first offset

  abbrev put_part : Disk
  put_part = store disk e.path (max first offset - offset) (take size (drop (offset - first) piece))

  abbrev lay_from : Disk → Disk
  lay_from d = lay piece (end - first) (parts first last end es) d

  lay-skip :
      leb end first ≡ true
      → lay piece (offset - first) (parts first last offset (e ∷ es)) disk ≡ lay_from disk
  unfolding parts
  lay-skip a =
      rw a
        (ap (λ k. lay piece k (parts first last end es) disk) (sym (skip first offset e.count a)))

  lay-stop :
      leb end first ≡ false
      → leb last offset ≡ true
      → lay piece (offset - first) (parts first last offset (e ∷ es)) disk ≡ disk
  unfolding parts lay
  lay-stop a b = rw (a, b) refl

  lay-put :
      leb end first ≡ false
      → leb last offset ≡ false
      → lay piece (offset - first) (parts first last offset (e ∷ es)) disk ≡ lay_from put_part
  unfolding parts lay
  lay-put a b =
      rw (a, b)
        (lay-rest piece first last (offset - first + size) end es put_part
          (next_at first last offset e.count a b))

  -- The byte of the torrent at `g`, if the piece is stored.
  abbrev target : ℕ → ℕ → ℕ
  target g old =
      if covers first (last - first) (offset + g) then get_or piece (offset + g - first) 0 else old

  -- A byte behind the first file, by the statement for the files behind it.
  byte_behind :
      (d : Disk) (g : ℕ)
      → ltb g e.count ≡ false
      → byte_at (lay_from d) es (g - e.count) ≡ (
          if covers first (last - first) (end + (g - e.count))
          then get_or piece (end + (g - e.count) - first) 0
          else byte_at d es (g - e.count))
      → byte_at d es (g - e.count) ≡ byte_at disk es (g - e.count)
      → byte_at (lay_from d) es (g - e.count) ≡ target g (byte_at disk es (g - e.count))
  byte_behind d g i ih same = ih ∙ rw (behind offset e.count g i, same) refl
    where
      behind :
          (offset count g : ℕ) → ltb g count ≡ false → offset + count + (g - count) ≡ offset + g
      behind offset count g h = ground arith

  step-skip :
      (g : ℕ)
      → leb end first ≡ true
      → IsAbsent e.path es
      → (ltb g e.count ≡ false
          → byte_at (lay_from disk) es (g - e.count) ≡ target g (byte_at disk es (g - e.count)))
      → byte_at (lay_from disk) (e ∷ es) g ≡ target g (byte_at disk (e ∷ es) g)
  unfolding byte_at
  step-skip g a absent ih = elim (Bool-cases (ltb g e.count)) [
    | inl i ↦
        rw (i, lay-other piece first last (end - first) end es disk e.path absent)
          (ground (arith, a, i))
    | inr i ↦ rw i (ih i)
  ]

  step-put :
      (g : ℕ)
      → leb end first ≡ false
      → leb last offset ≡ false
      → length piece ≡ last - first
      → IsAbsent e.path es
      → (ltb g e.count ≡ false
          → byte_at (lay_from put_part) es (g - e.count) ≡ target g (byte_at disk es (g - e.count)))
      → byte_at (lay_from put_part) (e ∷ es) g ≡ target g (byte_at disk (e ∷ es) g)
  unfolding byte_at
  step-put g a b l absent ih = elim (Bool-cases (ltb g e.count)) [
    | inl i ↦
        rw
          (
            i,
            lay-other piece first last (end - first) end es put_part e.path absent,
            store_self disk e.path (max first offset - offset)
                (take size (drop (offset - first) piece)),
          )
          (byte_in_file piece (disk e.path) first last offset e.count g l a b (ground arith))
    | inr i ↦ rw i (ih i)
  ]

-- All bytes after the parts are stored.
pub byte_at-lay :
    (piece : Bytes) (first last offset : ℕ) (es : List Extent) (disk : Disk) (g : ℕ)
    → first ≤ last
    → length piece ≡ last - first
    → AreDistinct es
    → g < total es
    → byte_at (lay piece (offset - first) (parts first last offset es) disk) es g ≡ (
        if covers first (last - first) (offset + g)
        then get_or piece (offset + g - first) 0
        else byte_at disk es g)
byte_at-lay piece first last offset [] disk g o l d h = absurd (omega arith)
byte_at-lay piece first last offset (e ∷ es) disk g o l (absent, d) h =
    let end = offset + e.count in
    let put = put_part piece first last offset e es disk in
    let behind =
      λ (disk' : Disk) (same : byte_at disk' es (g - e.count) ≡ byte_at disk es (g - e.count))
          (i : ltb g e.count ≡ false).
        byte_behind piece first last offset e es disk disk' g i
          (byte_at-lay piece first last end es disk' (g - e.count) o l d
            (inside g e.count (total es) i h))
          same in
    elim (Bool-cases (leb end first)) [
      | inl a ↦
          rw (lay-skip piece first last offset e es disk a)
            (step-skip piece first last offset e es disk g a absent (behind disk refl))
      | inr a ↦ elim (Bool-cases (leb last offset)) [
        | inl b ↦
            rw (lay-stop piece first last offset e es disk a b)
              (rw (after first last offset g b o) refl)
        | inr b ↦ rw (lay-put piece first last offset e es disk a b) (
            step-put piece first last offset e es disk g a b l absent (
              behind put (
                byte_at-store disk e.path (max first offset - offset)
                  (take (min last end - max first offset) (drop (offset - first) piece)) es
                  (g - e.count) absent)))
      ]
    ]
  where
    inside : (g count n : ℕ) → ltb g count ≡ false → g < count + n → g - count < n
    inside g count n i h = ground arith

    after :
        (first last offset g : ℕ)
        → leb last offset ≡ true
        → first ≤ last
        → covers first (last - first) (offset + g) ≡ false
    after first last offset g b o = ground arith

-- If the writer is open, no call of the system fails, the files have different paths and sizes that add up to less than
-- 2^63, and the piece has the bytes that its index stands for and lies within the torrent, then
-- `WritePiece` succeeds, and each byte of the torrent is afterwards the piece's, where the piece
-- reaches, and what it was before elsewhere.
pub write_piece_lem :
    (sys : System) (w : Writer) (es : List Extent) (index p n : ℕ) (piece : Bytes) (g : ℕ)
    → Works sys
    → w.closed ≡ false
    → w.files ≡ map entry_of es
    → AreDistinct es
    → w.info.piece_length ≡ pos p
    → piece_size w.info index ≡ pos n
    → length piece ≡ n
    → index * p + n ≤ total es
    → total es < 2 ^ 63
    → g < total es
    → ((write_piece sys index piece w).0 ≡ ok tt)
      × (byte_at (write_piece sys index piece w).1.disk es g ≡ (
          if covers (index * p) n g then get_or piece (g - index * p) 0 else byte_at w.disk es g))
write_piece_lem sys w es index p n piece g works usable fs distinct ep en l within fits h =
    let first = index * p in
    let last = first + n in
    let len : length piece ≡ last - first = omega arith in
    let segs : piece_segments w.info w.files index ≡ map segment_of (parts first last 0 es) =
      unfold piece_segments in
      rw (en, ep, fs, wrap-mul-pos index p (omega arith), wrap-add-pos first n (omega arith))
        (segments-pos first last 0 es (omega arith) (omega arith) (omega arith)) in
    let at : (k : ℕ) → 0 - k ≡ 0 = λ k. omega arith in
    let done =
      write_segments-Leaves sys works piece 0 (parts first last 0 es) w
        (subst (λ k. Fits piece k (parts first last 0 es)) (at first)
          (parts-Fits piece first last 0 es (omega arith) len))
        usable in
    unfold write_piece in
    rw segs (done.0, ap (λ d. byte_at d es g) done.1 ∙ laid piece first n es w.disk g l distinct h)
  where
    laid :
        (piece : Bytes) (first n : ℕ) (es : List Extent) (disk : Disk) (g : ℕ)
        → length piece ≡ n
        → AreDistinct es
        → g < total es
        → byte_at (lay piece 0 (parts first (first + n) 0 es) disk) es g
          ≡ (if covers first n g then get_or piece (g - first) 0 else byte_at disk es g)
    laid piece first n es disk g l d h =
        ap (λ k. byte_at (lay piece k (parts first (first + n) 0 es) disk) es g)
          (sym (none_before first))
        ∙ byte_at-lay piece first (first + n) 0 es disk g (omega arith) (omega arith) d h
        ∙ ap₂ (λ m i. if covers first m i then get_or piece (i - first) 0 else byte_at disk es g)
            (back first n) (none_added g)
      where
        none_before : (k : ℕ) → 0 - k ≡ 0
        none_before k = omega arith

        back : (k n : ℕ) → k + n - k ≡ n
        back k n = omega arith

        none_added : (k : ℕ) → 0 + k ≡ k
        none_added k = omega arith
