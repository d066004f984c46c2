-- ===== src/Torrent/Writer/Files.antt =====
-- The bytes of the files, by their paths, and what a write changes.
use amish.Base.{
  ℕ, zero, suc, ◌+◌, ◌-◌, ◌≤◌, ◌≡◌, refl, Bool, false, ◌&&◌, [], ◌∷◌, Bytes, bytes_eq,
  bytes_eq_refl, leb, ltb, if◌then◌else◌, length, get_or, arith,
}

abbrev pub Disk : Type 0
Disk = Bytes → Bytes

-- The new bytes over the old ones; a file grows if they go past its end.
pub overwrite : Bytes → Bytes → Bytes
overwrite [] s = s
overwrite (b ∷ chunk) [] = b ∷ chunk
overwrite (b ∷ chunk) (c ∷ s) = b ∷ overwrite chunk s

-- Behind the end of the file the system fills up with zeros.
pub seek : Bytes → ℕ → Bytes → Bytes
unfolding overwrite
seek s zero chunk = overwrite chunk s
seek [] (suc offset) chunk = 0 ∷ seek [] offset chunk
seek (c ∷ s) (suc offset) chunk = c ∷ seek s offset chunk

-- A write of no bytes changes nothing.
unfoldable pub write_at : Bytes → ℕ → Bytes → Bytes
unfolding seek
write_at s offset [] = s
write_at s offset (b ∷ chunk) = seek s offset (b ∷ chunk)

unfoldable pub store : Disk → Bytes → ℕ → Bytes → Disk
unfolding write_at
store disk path offset chunk q =
    if bytes_eq path q then write_at (disk path) offset chunk else disk q

get_or_past : (s : Bytes) (k : ℕ) → length s ≤ k → get_or s k 0 ≡ 0
get_or_past [] k h = refl
get_or_past (b ∷ s) zero h = absurd (omega arith)
get_or_past (b ∷ s) (suc k) h = get_or_past s k (omega arith)

get_or-overwrite :
    (chunk s : Bytes) (k : ℕ)
    → get_or (overwrite chunk s) k 0
      ≡ (if ltb k (length chunk) then get_or chunk k 0 else get_or s k 0)
unfolding overwrite
get_or-overwrite [] s k = ground arith
get_or-overwrite (b ∷ chunk) [] zero = ground arith
get_or-overwrite (b ∷ chunk) [] (suc k) = ground (arith, get_or_past chunk k)
get_or-overwrite (b ∷ chunk) (c ∷ s) zero = ground arith
get_or-overwrite (b ∷ chunk) (c ∷ s) (suc k) = ground (arith, get_or-overwrite chunk s k)

abbrev pub covers : ℕ → ℕ → ℕ → Bool
covers offset size k = leb offset k && ltb k (offset + size)

get_or-seek :
    (s : Bytes) (offset : ℕ) (chunk : Bytes) (k : ℕ)
    → get_or (seek s offset chunk) k 0
      ≡ (if covers offset (length chunk) k then get_or chunk (k - offset) 0 else get_or s k 0)
unfolding seek
get_or-seek s zero chunk k = ground (arith, get_or-overwrite chunk s k)
get_or-seek [] (suc offset) chunk zero = ground arith
get_or-seek [] (suc offset) chunk (suc k) = ground (arith, get_or-seek [] offset chunk k)
get_or-seek (c ∷ s) (suc offset) chunk zero = ground arith
get_or-seek (c ∷ s) (suc offset) chunk (suc k) = ground (arith, get_or-seek s offset chunk k)

-- A byte of a file after a write: the new one where the write reaches, the old one elsewhere.
pub get_or-write_at :
    (s : Bytes) (offset : ℕ) (chunk : Bytes) (k : ℕ)
    → get_or (write_at s offset chunk) k 0
      ≡ (if covers offset (length chunk) k then get_or chunk (k - offset) 0 else get_or s k 0)
unfolding write_at
get_or-write_at s offset [] k = ground arith
get_or-write_at s offset (b ∷ chunk) k = get_or-seek s offset (b ∷ chunk) k

pub store_self :
    (disk : Disk) (path : Bytes) (offset : ℕ) (chunk : Bytes)
    → store disk path offset chunk path ≡ write_at (disk path) offset chunk
store_self disk path offset chunk = unfold store in ground (arith, bytes_eq_refl path)

pub store-other :
    (disk : Disk) (path q : Bytes) (offset : ℕ) (chunk : Bytes)
    → bytes_eq path q ≡ false
    → store disk path offset chunk q ≡ disk q
store-other disk path q offset chunk h = unfold store in rw h
