-- ===== src/Torrent/Writer/Plan.antt =====
-- What the writer does on a system where no call fails: every part of the piece is stored.
use amish.Base.{
  ℕ, ◌+◌, ◌≤◌, ◌≡◌, refl, List, [], ◌∷◌, Bytes, false, map, arith, inl, inr, Bool-cases, take, drop,
  length, Result, ok, err, panic, subst, some,
}
use amish.Base.Int.{pos}
use amish.Torrent.Writer.{
  System, Writer, Error, M, and_then, slice, has_key, make_dir, open_handle, open_file, write_chunk,
  write_segments,
}
use amish.Torrent.Writer.Files.{Disk, store}
use amish.Torrent.Writer.Layout.{Part, segment_of}

-- None of the calls fails.
abbrev pub Works : System → Type 0
Works sys =
    (p : Bytes)
    → (sys.mkdir_fails p ≡ false) × (sys.open_fails p ≡ false) × (sys.write_fails p ≡ false)

-- The files after the parts of a piece are stored, one after the other.
unfoldable pub lay : Bytes → ℕ → List Part → Disk → Disk
lay piece at [] disk = disk
lay piece at (p ∷ ps) disk =
    lay piece (at + p.count) ps (store disk p.path p.offset (take p.count (drop at piece)))

-- The data reaches as far as the parts.
abbrev pub Fits : Bytes → ℕ → List Part → Type 0
Fits piece at [] = Unit {0}
Fits piece at (p ∷ ps) = (at + p.count ≤ length piece) × Fits piece (at + p.count) ps

-- A step succeeded, left the files as given, and the writer open.
abbrev pub Leaves : Result Error (Unit {0}) × Writer → Disk → Type 0
Leaves (r, w) disk = (r ≡ ok tt) × (w.disk ≡ disk) × (w.closed ≡ false)

and_then-Leaves :
    (x : Result Error (Unit {0}) × Writer) (g : M) (d d' : Disk)
    → Leaves x d
    → ((w : Writer) → w.disk ≡ d → w.closed ≡ false → Leaves (g w) d')
    → Leaves (and_then x g) d'
and_then-Leaves (ok tt, w) g d d' (r, e, o) next = next w e o
and_then-Leaves (err x, w) g d d' (r, e, o) next = absurd (ground arith)
and_then-Leaves (panic, w) g d d' (r, e, o) next = absurd (ground arith)

module _ (sys : System) (works : Works sys) where
  make_dir-Leaves : (d : Bytes) (w : Writer) → w.closed ≡ false → Leaves (make_dir sys d w) w.disk
  unfolding make_dir
  make_dir-Leaves d w o = elim (Bool-cases (has_key w.mkdirs d)) [
    | inl h ↦ rw h (refl, refl, o)
    | inr h ↦ rw (h, (works d).0) (refl, refl, o)
  ]

  open_handle-Leaves :
      (p : Bytes) (w : Writer) → w.closed ≡ false → Leaves (open_handle sys p w) w.disk
  unfolding open_handle
  open_handle-Leaves p w o = rw ((works p).1, o) (refl, refl, refl)

  open_file-Leaves : (p : Bytes) (w : Writer) → w.closed ≡ false → Leaves (open_file sys p w) w.disk
  unfolding open_file
  open_file-Leaves p w o = elim (Bool-cases (has_key w.handles p)) [
    | inl h ↦ rw h (refl, refl, o)
    | inr h ↦ rw h (
        and_then-Leaves (make_dir sys (sys.dir p) w) (open_handle sys p) w.disk w.disk
          (make_dir-Leaves (sys.dir p) w o)
          (λ w' e o'. subst (λ d. Leaves (open_handle sys p w') d) e (open_handle-Leaves p w' o')))
  ]

  write_chunk-Leaves :
      (p : Bytes) (n : ℕ) (chunk : Bytes) (w : Writer)
      → w.closed ≡ false
      → Leaves (write_chunk sys p (pos n) chunk w) (store w.disk p n chunk)
  unfolding write_chunk
  write_chunk-Leaves p n chunk w o = rw ((works p).2) (refl, refl, o)

  slice_fits :
      (piece : Bytes) (at n : ℕ)
      → at + n ≤ length piece
      → slice piece at (pos n) ≡ some (take n (drop at piece))
  slice_fits piece at n h = ground arith

  -- All parts are written, and nothing but the parts.
  pub write_segments-Leaves :
      (piece : Bytes) (at : ℕ) (ps : List Part) (w : Writer)
      → Fits piece at ps
      → w.closed ≡ false
      → Leaves (write_segments sys piece at (map segment_of ps) w) (lay piece at ps w.disk)
  unfolding write_segments lay
  write_segments-Leaves piece at [] w h o = (refl, refl, o)
  write_segments-Leaves piece at (p ∷ ps) w (h, hs) o =
      let chunk = take p.count (drop at piece) in
      let stored = store w.disk p.path p.offset chunk in
      let rest = λ (v : Writer). write_segments sys piece (at + p.count) (map segment_of ps) v in
      let put = λ (v : Writer). write_chunk sys p.path (pos p.offset) chunk v in
      rw (slice_fits piece at p.count h) (
        and_then-Leaves (and_then (open_file sys p.path w) put) rest stored
          (lay piece (at + p.count) ps stored)
          (and_then-Leaves (open_file sys p.path w) put w.disk stored (open_file-Leaves p.path w o)
            (λ v e o'.
              subst (λ d. Leaves (put v) (store d p.path p.offset chunk)) e
                (write_chunk-Leaves p.path p.offset chunk v o')))
          (λ v e o'.
            subst (λ d. Leaves (rest v) (lay piece (at + p.count) ps d)) e
              (write_segments-Leaves piece (at + p.count) ps v hs o')))
