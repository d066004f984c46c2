-- ===== src/Torrent/Writer.antt =====
-- torrent/writer.go: the segments of a piece (Segments below), and their writing. What the operating
-- system answers is a parameter: for each path, whether the call on it fails.
pub mod Segments
pub mod Files
pub mod Layout
pub mod Plan
pub mod Spread
pub mod Flat
pub mod Kept
use amish.Base.{
  ℕ, zero, suc, ◌+◌, ◌≤◌, ◌<◌, ◌≡◌, Bool, true, false, ◌||◌, List, [], ◌∷◌, Bytes, bytes_eq, leb,
  ltb, if◌then◌else◌, length, take, drop, map, Result, ok, err, panic, Option, none, some,
}
use amish.Base.Int.{ℤ, pos, negsuc, lt_int}
use amish.Metainfo.{File, Info}
use amish.Torrent.Writer.Segments.{FileEntry, FileSegment, piece_segments}
use amish.Torrent.Writer.Files.{Disk, store}

-- Each error of the system, with the path of the call.
pub data Error : Type 0 where
  mkdir_failed : Bytes → Error
  open_failed : Bytes → Error
  write_failed : Bytes → Error
  close_failed : Bytes → Error

-- `filepath.Join` and `filepath.Dir`, and the calls that fail.
pub record System : Type 0 where
  pub join : List Bytes → Bytes
  pub dir : Bytes → Bytes
  pub mkdir_fails : Bytes → Bool
  pub open_fails : Bytes → Bool
  pub write_fails : Bytes → Bool
  pub close_fails : Bytes → Bool

-- `handles` and `mkdirs` are the keys of the maps; a handle stands for its path. The writer is
-- `closed` when its map of handles is nil. `disk` is what the files hold.
pub record Writer : Type 0 where
  pub info : Info
  pub files : List FileEntry
  pub handles : List Bytes
  pub closed : Bool
  pub mkdirs : List Bytes
  pub disk : Disk

unfoldable pub has_key : List Bytes → Bytes → Bool
has_key [] k = false
has_key (j ∷ js) k = bytes_eq j k || has_key js k

-- A step of the writer: its outcome, and the writer as it leaves it, also when it fails.
abbrev pub M : Type 0
M = Writer → Result Error (Unit {0}) × Writer

abbrev pub and_then : Result Error (Unit {0}) × Writer → M → Result Error (Unit {0}) × Writer
and_then (ok _, w) f = f w
and_then (err e, w) f = (err e, w)
and_then (panic, w) f = (panic, w)

-- `data[from : from+size]` of a slice that has no spare capacity.
abbrev pub slice : Bytes → ℕ → ℤ → Option Bytes
slice s from (negsuc n) = none
slice s from (pos n) = if leb (from + n) (length s) then some (take n (drop from s)) else none

abbrev pub nat_of : ℤ → ℕ
nat_of (pos n) = n
nat_of (negsuc n) = 0

module _ (sys : System) where
  -- The files under the base directory, of a single file or of several.
  unfoldable pub file_list : Bytes → Info → List FileEntry
  file_list base_dir info =
      if lt_int (pos 0) info.size
      then record { path = sys.join (base_dir ∷ info.name ∷ []); size = info.size } ∷ []
      else map
          (λ (f : File). record { path = sys.join (base_dir ∷ info.name ∷ f.path); size = f.size })
          info.files

  -- `disk` is what the files hold at this time.
  unfoldable pub new_writer : Info → Bytes → Disk → Writer
  unfolding file_list
  new_writer info base_dir disk = record {
    info = info;
    files = file_list base_dir info;
    handles = [];
    closed = false;
    mkdirs = [];
    disk = disk;
  }

  -- The first handle whose closing fails; all of them are closed.
  unfoldable pub close_handles : List Bytes → Option Error
  close_handles [] = none
  close_handles (path ∷ paths) =
      let rest = close_handles paths in
      if sys.close_fails path then some (close_failed path) else rest

  unfoldable pub close : M
  unfolding close_handles
  close w = (
    elim (close_handles w.handles) [ none ↦ ok tt | some e ↦ err e ],
    record w { handles = []; closed = true },
  )

  -- `os.MkdirAll`, once for each directory.
  unfoldable pub make_dir : Bytes → M
  unfolding has_key
  make_dir d w =
      if has_key w.mkdirs d
      then (ok tt, w)
      else if sys.mkdir_fails d
      then (err (mkdir_failed d), w)
      else (ok tt, record w { mkdirs = d ∷ w.mkdirs })

  unfoldable pub open_handle : Bytes → M
  open_handle path w =
      if sys.open_fails path
      then (err (open_failed path), w)
      else if w.closed
      then (panic, w)
      else (ok tt, record w { handles = path ∷ w.handles })

  unfoldable pub open_file : Bytes → M
  unfolding make_dir open_handle
  open_file path w =
      if has_key w.handles path
      then (ok tt, w)
      else and_then (make_dir (sys.dir path) w) (open_handle path)

  -- `f.WriteAt(chunk, offset)`: an offset below zero is an error.
  unfoldable pub write_chunk : Bytes → ℤ → Bytes → M
  write_chunk path (negsuc n) chunk w = (err (write_failed path), w)
  write_chunk path (pos n) chunk w =
      if sys.write_fails path
      then (err (write_failed path), w)
      else (ok tt, record w { disk = store w.disk path n chunk })

  abbrev pub write_slice : Bytes → ℤ → Option Bytes → M
  write_slice path offset none w = (panic, w)
  write_slice path offset (some chunk) w = write_chunk path offset chunk w

  -- The loop of `WritePiece`; `offset` is how far it is in the data.
  unfoldable pub write_segments : Bytes → ℕ → List FileSegment → M
  unfolding open_file write_chunk
  write_segments piece offset [] w = (ok tt, w)
  write_segments piece offset (seg ∷ segs) w =
      let rest = λ (w' : Writer). write_segments piece (offset + nat_of seg.size) segs w' in
      and_then
        (and_then (open_file seg.path w)
          (write_slice seg.path seg.offset (slice piece offset seg.size)))
        rest

  unfoldable pub write_piece : ℕ → Bytes → M
  unfolding write_segments
  write_piece index piece w = write_segments piece 0 (piece_segments w.info w.files index) w
