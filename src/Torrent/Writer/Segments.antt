-- ===== src/Torrent/Writer/Segments.antt =====
-- `pieceSegments`: the parts of the files that a piece covers.
use amish.Base.{ℕ, List, [], ◌∷◌, Bytes, if◌then◌else◌}
use amish.Base.Int.{ℤ, pos, ◌+ℤ◌, ◌-ℤ◌, ◌*ℤ◌, lt_int, le_int, wrap}
use amish.Metainfo.{Info, piece_size}

pub record FileEntry : Type 0 where
  pub path : Bytes
  pub size : ℤ

pub record FileSegment : Type 0 where
  pub path : Bytes
  pub offset : ℤ
  pub size : ℤ

abbrev pub max_int : ℤ → ℤ → ℤ
max_int a b = if lt_int a b then b else a

abbrev pub min_int : ℤ → ℤ → ℤ
min_int a b = if lt_int b a then b else a

-- The loop over the files, from the offset of the next one in the torrent.
unfoldable pub segments : ℤ → ℤ → ℤ → List FileEntry → List FileSegment
segments piece_start piece_end file_offset [] = []
segments piece_start piece_end file_offset (f ∷ fs) =
    let file_end = wrap (file_offset +ℤ f.size) in
    let rest = segments piece_start piece_end file_end fs in
    let first = max_int piece_start file_offset in
    let last = min_int piece_end file_end in
    if le_int file_end piece_start
    then rest
    else if le_int piece_end file_offset
    then []
    else record { path = f.path; offset = wrap (first -ℤ file_offset); size = wrap (last -ℤ first) }
      ∷ rest

unfoldable pub piece_segments : Info → List FileEntry → ℕ → List FileSegment
unfolding segments
piece_segments info files index =
    let piece_start = wrap (pos index *ℤ info.piece_length) in
    segments piece_start (wrap (piece_start +ℤ piece_size info index)) (pos 0) files
