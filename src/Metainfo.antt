-- ===== src/Metainfo.antt =====
-- metainfo/metainfo.go. `sha1` is the digest that crypto/sha1 computes: nothing is asked of it.
pub mod Parse
pub mod Sound
pub mod Sizes
mod Tests
use amish.Base.{ℕ, zero, suc, ◌+◌, ◌≡◌, List, [], ◌∷◌, Bytes, if◌then◌else◌, length}
use amish.Base.Int.{ℤ, pos, ◌+ℤ◌, ◌-ℤ◌, ◌*ℤ◌, lt_int, wrap}

pub data Error : Type 0 where
  invalid_metadata hash_mismatch : Error

pub record File : Type 0 where
  pub size : ℤ
  pub path : List Bytes

-- A [20]byte is its bytes. `size` is the field `Length`.
pub record Info : Type 0 where
  pub name : Bytes
  pub piece_length : ℤ
  pub pieces : List Bytes
  pub size : ℤ
  pub files : List File

-- The sums and products of int64 wrap around.
unfoldable pub sum_files : ℤ → List File → ℤ
sum_files total [] = total
sum_files total (f ∷ fs) = sum_files (wrap (total +ℤ f.size)) fs

unfoldable pub total_length : Info → ℤ
unfolding sum_files
total_length info = if lt_int (pos 0) info.size then info.size else sum_files (pos 0) info.files

unfoldable pub num_pieces : Info → ℕ
num_pieces info = length info.pieces

unfoldable pub piece_size : Info → ℕ → ℤ
unfolding total_length
piece_size info index =
    let start = wrap (pos index *ℤ info.piece_length) in
    let remaining = wrap (total_length info -ℤ start) in
    if lt_int remaining info.piece_length then remaining else info.piece_length
