-- ===== src/Metainfo/Parse.antt =====
-- `Parse` and `ParseUnverified`.
use amish.Base.{
  ℕ, zero, suc, ◌/◌, ◌%◌, Bool, true, false, not, Option, none, some, List, [], ◌∷◌, Bytes, codes,
  bytes_eq, ◌==◌, if◌then◌else◌, length, take, drop, Result, ok, err, ◌>>=◌, ◌>>◌, guard, require,
  map_err,
}
use amish.Base.Int.{ℤ, pos, lt_int}
use amish.Bencode.{Value, Items, Fields, cons, nil, as_string, as_int64, as_list, as_dict, get_as}
use amish.Bencode.Decode.{decode}
use amish.Metainfo.{Error, File, Info, invalid_metadata, hash_mismatch}

-- `copy(info.Pieces[i][:], piecesRaw[i*20:(i+1)*20])`, for `n` pieces.
unfoldable pub split_hashes : ℕ → Bytes → List Bytes
split_hashes zero s = []
split_hashes (suc n) s = take 20 s ∷ split_hashes n (drop 20 s)

-- The components of a path that are strings; the others are skipped.
unfoldable pub strings_of : Items → List Bytes
strings_of nil = []
strings_of (cons v xs) =
    let rest = strings_of xs in elim (as_string v) [ none ↦ rest | some s ↦ s ∷ rest ]

abbrev pub is_empty {ℓ} : {A : Type ℓ} → List A → Bool
is_empty [] = true
is_empty (x ∷ xs) = false

abbrev pub no_items : Items → Bool
no_items nil = true
no_items (cons v xs) = false

-- One round of the loop over the files.
unfoldable pub parse_file : Value → Result Error File
unfolding strings_of
parse_file f = do
  fd ← require (as_dict f) invalid_metadata
  n ← require (get_as as_int64 (codes "length") fd) invalid_metadata
  parts ← require (get_as as_list (codes "path") fd) invalid_metadata
  guard (not (no_items parts)) invalid_metadata
  let path = strings_of parts
  guard (not (is_empty path)) invalid_metadata
  ok (record { size = n; path = path })

unfoldable pub parse_files : Items → Result Error (List File)
unfolding parse_file
parse_files nil = ok []
parse_files (cons f fs) = do file ← parse_file f; files ← parse_files fs; ok (file ∷ files)

-- Either a length, or a list of files that is not empty.
unfoldable pub sizes_of : Option ℤ → Option Items → Result Error (ℤ × List File)
unfolding parse_files
sizes_of (some n) files = ok (n, [])
sizes_of none (some fs) = do
  files ← parse_files fs
  guard (not (is_empty files)) invalid_metadata
  ok (pos 0, files)
sizes_of none none = err invalid_metadata

unfoldable pub parse_sizes : Fields → Result Error (ℤ × List File)
unfolding sizes_of
parse_sizes d = sizes_of (get_as as_int64 (codes "length") d) (get_as as_list (codes "files") d)

unfoldable pub parse_info : Fields → Result Error Info
unfolding parse_sizes split_hashes
parse_info d = do
  name ← require (get_as as_string (codes "name") d) invalid_metadata
  guard (not (bytes_eq name [])) invalid_metadata
  piece_length ← require (get_as as_int64 (codes "piece length") d) invalid_metadata
  guard (lt_int (pos 0) piece_length) invalid_metadata
  raw ← require (get_as as_string (codes "pieces") d) invalid_metadata
  guard (length raw % 20 == 0) invalid_metadata
  (n, files) ← parse_sizes d
  ok (record {
    name = name;
    piece_length = piece_length;
    pieces = split_hashes (length raw / 20) raw;
    size = n;
    files = files;
  })

unfoldable pub parse_unverified : Bytes → Result Error Info
unfolding parse_info
parse_unverified raw = do
  decoded ← map_err (λ _. invalid_metadata) (decode raw)
  d ← require (as_dict decoded) invalid_metadata
  parse_info d

module _ (sha1 : Bytes → Bytes) where
  unfoldable pub parse : Bytes → Bytes → Result Error Info
  unfolding parse_unverified
  parse raw expected_hash =
      if bytes_eq (sha1 raw) expected_hash then parse_unverified raw else err hash_mismatch
