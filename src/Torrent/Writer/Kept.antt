-- ===== src/Torrent/Writer/Kept.antt =====
-- What no step of the writer changes.
use amish.Base.{
  ℕ, ◌+◌, ◌≡◌, refl, ◌∙◌, Bool, true, false, List, [], ◌∷◌, Bytes, Option, none, some,
  if◌then◌else◌, Result, ok, err, panic,
}
use amish.Base.Int.{ℤ, pos, negsuc}
use amish.Torrent.Writer.Segments.{FileSegment, piece_segments}
use amish.Torrent.Writer.{
  System, Writer, Error, M, and_then, slice, nat_of, has_key, make_dir, open_handle, open_file,
  write_chunk, write_slice, write_segments, write_piece,
}

-- The torrent, the list of its files, and whether the writer is closed.
abbrev pub Keeps : Result Error (Unit {0}) × Writer → Writer → Type 0
Keeps (r, v) w = (v.info ≡ w.info) × (v.files ≡ w.files) × (v.closed ≡ w.closed)

and_then-Keeps :
    (x : Result Error (Unit {0}) × Writer) (g : M) (w : Writer)
    → Keeps x w
    → ((v : Writer) → Keeps (g v) v)
    → Keeps (and_then x g) w
and_then-Keeps (ok u, v) g w (a, b, c) next = let (a', b', c') = next v in (a' ∙ a, b' ∙ b, c' ∙ c)
and_then-Keeps (err e, v) g w h next = h
and_then-Keeps (panic, v) g w h next = h

if-Keeps :
    (b : Bool) (x y : Result Error (Unit {0}) × Writer) (w : Writer)
    → Keeps x w
    → Keeps y w
    → Keeps (if b then x else y) w
if-Keeps true x y w hx hy = hx
if-Keeps false x y w hx hy = hy

module _ (sys : System) where
  make_dir-Keeps : (d : Bytes) (w : Writer) → Keeps (make_dir sys d w) w
  unfolding make_dir
  make_dir-Keeps d w =
      if-Keeps (has_key w.mkdirs d) _ _ w (refl, refl, refl)
        (if-Keeps (sys.mkdir_fails d) _ _ w (refl, refl, refl) (refl, refl, refl))

  open_handle-Keeps : (p : Bytes) (w : Writer) → Keeps (open_handle sys p w) w
  unfolding open_handle
  open_handle-Keeps p w =
      if-Keeps (sys.open_fails p) _ _ w (refl, refl, refl)
        (if-Keeps w.closed _ _ w (refl, refl, refl) (refl, refl, refl))

  open_file-Keeps : (p : Bytes) (w : Writer) → Keeps (open_file sys p w) w
  unfolding open_file
  open_file-Keeps p w =
      if-Keeps (has_key w.handles p) _ _ w (refl, refl, refl)
        (and_then-Keeps (make_dir sys (sys.dir p) w) (open_handle sys p) w
          (make_dir-Keeps (sys.dir p) w) (open_handle-Keeps p))

  write_slice-Keeps :
      (p : Bytes) (offset : ℤ) (chunk : Option Bytes) (w : Writer)
      → Keeps (write_slice sys p offset chunk w) w
  unfolding write_chunk
  write_slice-Keeps p offset none w = (refl, refl, refl)
  write_slice-Keeps p (negsuc n) (some chunk) w = (refl, refl, refl)
  write_slice-Keeps p (pos n) (some chunk) w =
      if-Keeps (sys.write_fails p) _ _ w (refl, refl, refl) (refl, refl, refl)

  write_segments-Keeps :
      (piece : Bytes) (at : ℕ) (segs : List FileSegment) (w : Writer)
      → Keeps (write_segments sys piece at segs w) w
  unfolding write_segments
  write_segments-Keeps piece at [] w = (refl, refl, refl)
  write_segments-Keeps piece at (seg ∷ segs) w =
      let put = λ (v : Writer). write_slice sys seg.path seg.offset (slice piece at seg.size) v in
      and_then-Keeps (and_then (open_file sys seg.path w) put)
        (λ v. write_segments sys piece (at + nat_of seg.size) segs v) w
        (and_then-Keeps (open_file sys seg.path w) put w (open_file-Keeps seg.path w)
          (write_slice-Keeps seg.path seg.offset (slice piece at seg.size)))
        (write_segments-Keeps piece (at + nat_of seg.size) segs)

  pub write_piece-Keeps :
      (index : ℕ) (piece : Bytes) (w : Writer) → Keeps (write_piece sys index piece w) w
  unfolding write_piece
  write_piece-Keeps index piece w =
      write_segments-Keeps piece 0 (piece_segments w.info w.files index) w
