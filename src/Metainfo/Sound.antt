-- ===== src/Metainfo/Sound.antt =====
-- What `Parse` guarantees of the metadata that it returns.
use amish.Base.{
  ℕ, zero, suc, ◌*◌, ◌/◌, ◌%◌, ◌≤◌, ◌≡◌, ◌≢◌, refl, ap, true, false, not, Option, none, some, List,
  [], ◌∷◌, Bytes, codes, bytes_eq, ◌==◌, if◌then◌else◌, length, drop, length-take, length-drop,
  arith, All, Result, ok, err, panic, require, Ensures, holds, fails, panics, Ensures->>=,
  Ensures-ok, Ensures-require, Ensures-guard, ◌⊎◌, inl, inr, bytes_eq→eq, Bool-cases, map_err,
}
use amish.Base.Int.{ℤ, pos, lt_int}
use amish.Bencode
use amish.Bencode.{Value, Items, Fields, as_list, as_dict, as_int64, as_string, get_as, nil, cons}
use amish.Bencode.Decode.{decode}
use amish.Metainfo.{Error, File, Info, invalid_metadata, hash_mismatch}
use amish.Metainfo.Parse.{
  split_hashes, strings_of, is_empty, no_items, parse_file, parse_files, sizes_of, parse_sizes,
  parse_info, parse_unverified, parse,
}

-- The name is not empty, the pieces have a positive length and hashes of twenty bytes, every file
-- has a path; the torrent is a single file, or it lists one file at least.
pub record IsInfo (info : Info) : Type 0 where
  pub named : info.name ≢ []
  pub positive : lt_int (pos 0) info.piece_length ≡ true
  pub hashed : All (λ h. length h ≡ 20) info.pieces
  pub located : All (λ f. f.path ≢ []) info.files
  pub single_or_many : (info.files ≡ []) ⊎ ((info.files ≢ []) × (info.size ≡ pos 0))

split_hashes-All :
    (n : ℕ) (s : Bytes) → n * 20 ≤ length s → All (λ h. length h ≡ 20) (split_hashes n s)
unfolding split_hashes
split_hashes-All zero s h = tt
split_hashes-All (suc n) s h = (
  omega (arith, length-take 20 s),
  split_hashes-All n (drop 20 s) (omega (arith, length-drop 20 s)),
)

pub length-split_hashes : (n : ℕ) (s : Bytes) → length (split_hashes n s) ≡ n
unfolding split_hashes
length-split_hashes zero s = refl
length-split_hashes (suc n) s = ap suc (length-split_hashes n (drop 20 s))

is_empty-ne-nil {ℓ} : {A : Type ℓ} (xs : List A) → not (is_empty xs) ≡ true → xs ≢ []
is_empty-ne-nil [] h = ground arith
is_empty-ne-nil (x ∷ xs) h = cc

abbrev Yields {ℓ} : {A : Type ℓ} → (A → Type 0) → Result Error A → Type ℓ
Yields P = Ensures P (λ _. Unit {0})

parse_file-Yields : (f : Value) → Yields (λ file. file.path ≢ []) (parse_file f)
unfolding parse_file
parse_file-Yields f =
    Ensures->>= (Ensures-require {P = λ _. Unit {0}} (as_dict f) invalid_metadata (λ _ _. tt) tt)
      λ fd _.
        Ensures->>=
          (Ensures-require {P = λ _. Unit {0}} (get_as as_int64 (codes "length") fd)
            invalid_metadata (λ _ _. tt) tt)
          λ n _.
            Ensures->>=
              (Ensures-require {P = λ _. Unit {0}} (get_as as_list (codes "path") fd)
                invalid_metadata (λ _ _. tt) tt)
              λ parts _.
                Ensures->>= (Ensures-guard (not (no_items parts)) invalid_metadata tt) λ _ _.
                  Ensures->>=
                    (Ensures-guard (not (is_empty (strings_of parts))) invalid_metadata tt)
                    λ _ h. holds (is_empty-ne-nil (strings_of parts) h)

parse_files-Yields : (fs : Items) → Yields (All (λ file. file.path ≢ [])) (parse_files fs)
unfolding parse_files
parse_files-Yields nil = holds tt
parse_files-Yields (cons f fs) =
    Ensures->>= (parse_file-Yields f) λ _ h. Ensures->>= (parse_files-Yields fs) λ _ k. holds (h, k)

abbrev HasFiles : ℤ × List File → Type 0
HasFiles (n, files) = All (λ f. f.path ≢ []) files × ((files ≡ []) ⊎ ((files ≢ []) × (n ≡ pos 0)))

sizes_of-Yields : (n : Option ℤ) (fs : Option Items) → Yields HasFiles (sizes_of n fs)
unfolding sizes_of
sizes_of-Yields (some n) fs = holds (tt, inl refl)
sizes_of-Yields none none = fails tt
sizes_of-Yields none (some fs) = Ensures->>= (parse_files-Yields fs) λ files h.
    Ensures->>= (Ensures-guard (not (is_empty files)) invalid_metadata tt)
      λ _ k. holds (h, inr (is_empty-ne-nil files k, refl))

parse_sizes-Yields : (d : Fields) → Yields HasFiles (parse_sizes d)
unfolding parse_sizes
parse_sizes-Yields d =
    sizes_of-Yields (get_as as_int64 (codes "length") d) (get_as as_list (codes "files") d)

-- An entry that the code asks for: nothing is known of it but that it is there.
required {ℓ} : {A : Type ℓ} (o : Option A) → Yields (λ _. Unit {0}) (require o invalid_metadata)
required none = fails tt
required (some a) = holds tt

parse_info-Yields : (d : Fields) → Yields IsInfo (parse_info d)
unfolding parse_info
parse_info-Yields d = Ensures->>= (required (get_as as_string (codes "name") d)) λ name _.
    Ensures->>= (Ensures-guard (not (bytes_eq name [])) invalid_metadata tt) λ _ named.
      Ensures->>= (required (get_as as_int64 (codes "piece length") d)) λ piece_length _.
        Ensures->>= (Ensures-guard (lt_int (pos 0) piece_length) invalid_metadata tt) λ _ positive.
          Ensures->>= (required (get_as as_string (codes "pieces") d)) λ raw _.
            Ensures->>= (Ensures-guard (length raw % 20 == 0) invalid_metadata tt) λ _ whole.
              Ensures->>= (parse_sizes-Yields d) λ sizes h. holds (record {
                named = not_empty name named;
                positive = positive;
                hashed = split_hashes-All (length raw / 20) raw (omega arith);
                located = h.0;
                single_or_many = h.1;
              })
  where
    not_empty : (s : Bytes) → not (bytes_eq s []) ≡ true → s ≢ []
    not_empty [] h = ground arith
    not_empty (c ∷ s) h = cc

parse_unverified-Yields : (raw : Bytes) → Yields IsInfo (parse_unverified raw)
unfolding parse_unverified
parse_unverified-Yields raw =
    Ensures->>= (decoded (decode raw))
      λ v _. Ensures->>= (required (as_dict v)) λ d _. parse_info-Yields d
  where
    decoded :
        (r : Result Bencode.Error Value)
        → Yields (λ _. Unit {0}) (map_err (λ _. invalid_metadata) r)
    decoded (ok v) = holds tt
    decoded (err e) = fails tt
    decoded panic = panics

-- `Parse` returns metadata only for bytes whose digest is the expected info hash, and what it
-- returns is well formed: the name is not empty, the piece length is positive, every hash has
-- twenty bytes, every file has a path, and there is either a single file or a list of at least one.
pub parse_sound :
    (sha1 : Bytes → Bytes) (raw expected_hash : Bytes) (info : Info)
    → parse sha1 raw expected_hash ≡ ok info
    → IsInfo info × (sha1 raw ≡ expected_hash)
unfolding parse
parse_sound sha1 raw expected_hash info e = elim (Bool-cases (bytes_eq (sha1 raw) expected_hash)) [
  | inl same ↦ (
    Ensures-ok (parse_unverified-Yields raw) (accepted sha1 raw expected_hash info same e),
    bytes_eq→eq (sha1 raw) expected_hash same,
  )
  | inr other ↦ absurd (rejected sha1 raw expected_hash info other e)
]
  where
    accepted :
        (sha1 : Bytes → Bytes) (raw expected_hash : Bytes) (info : Info)
        → bytes_eq (sha1 raw) expected_hash ≡ true
        → (if bytes_eq (sha1 raw) expected_hash then parse_unverified raw else err hash_mismatch)
          ≡ ok info
        → parse_unverified raw ≡ ok info
    accepted sha1 raw expected_hash info h e = cc

    rejected :
        (sha1 : Bytes → Bytes) (raw expected_hash : Bytes) (info : Info)
        → bytes_eq (sha1 raw) expected_hash ≡ false
        → (if bytes_eq (sha1 raw) expected_hash then parse_unverified raw else err hash_mismatch)
          ≡ ok info
        → ⊥
    rejected sha1 raw expected_hash info h e = cc
