-- ===== src/Peer/Bitfield.antt =====
-- `Bitfield` of peer/conn.go: the pieces that a peer has, a bit for each, the highest bit first.
-- The indices that the program passes come from an uint32 or count pieces: they are not negative.
pub mod Laws
use Prim.Native.Nat.{bit_and, bit_or}
use amish.Base.{
  ℕ, ◌+◌, ◌-◌, ◌/◌, ◌%◌, ◌^◌, ◌≡◌, refl, Bool, true, false, not, [], ◌∷◌, Bytes, ltb, ◌==◌,
  if◌then◌else◌, length, get_or, set, replicate,
}

-- `1 << bitIdx`, for the bit of this index in its byte.
abbrev pub mask : ℕ → ℕ
mask index = 2 ^ (7 - index % 8)

unfoldable pub has_piece : Bytes → ℕ → Bool
has_piece bf index =
    if ltb (index / 8) (length bf)
    then not (bit_and (get_or bf (index / 8) 0) (mask index) == 0)
    else false

unfoldable pub set_piece : Bytes → ℕ → Bytes
set_piece bf index =
    if ltb (index / 8) (length bf)
    then set bf (index / 8) (bit_or (get_or bf (index / 8) 0) (mask index))
    else bf

unfoldable pub new_bitfield : ℕ → Bytes
new_bitfield num_pieces = replicate ((num_pieces + 7) / 8) 0

third : set_piece (new_bitfield 9) 2 ≡ 32 ∷ 0 ∷ []
unfolding set_piece new_bitfield
third = refl
