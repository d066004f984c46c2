-- ===== src/Peer/Bitfield/Laws.antt =====
-- A bit that was set is seen, and no other bit changes.
use Prim.Native.Nat.{bit_and, bit_or, bit_and-bitwise}
use native.Mathlib.Decide.{ℕ_discrete}
use amish.Base.{
  ℕ, zero, suc, ◌+◌, ◌-◌, ◌/◌, ◌%◌, ◌^◌, ◌<◌, ◌≡◌, ◌≢◌, refl, ap, ◌∙◌, Bool, true, false, not, ◌&&◌,
  [], ◌∷◌, Bytes, ltb, ◌==◌, if◌then◌else◌, length, get_or, set, replicate, length-set,
  length-replicate, arith, All, IsByte, Bool-cases, inl, inr, ne→==, ltb→lt, lt→ltb,
}
use amish.Base.Bits.{holds_below, holds_below_at}
use amish.Peer.Bitfield.{mask, has_piece, set_piece, new_bitfield}

-- One byte `b`, its bit `i` set and its bit `j` read.
abbrev bit_law : ℕ → ℕ → ℕ → Bool
bit_law b i j =
    let after = not (bit_and (bit_or b (2 ^ (7 - i))) (2 ^ (7 - j)) == 0) in
    let before = not (bit_and b (2 ^ (7 - j)) == 0) in
    if i == j then after else if before then after else not after

bit_table : holds_below (λ b. holds_below (λ i. holds_below (λ j. bit_law b i j) 8) 8) 256 ≡ true
unfolding holds_below
bit_table = refl

bit_law_holds : (b i j : ℕ) → b < 256 → i < 8 → j < 8 → bit_law b i j ≡ true
bit_law_holds b i j hb hi hj =
    holds_below_at 8 j (λ j. bit_law b i j) hj
      (holds_below_at 8 i (λ i. holds_below (λ j. bit_law b i j) 8) hi
        (holds_below_at 256 b (λ b. holds_below (λ i. holds_below (λ j. bit_law b i j) 8) 8) hb
          bit_table))

byte_table : holds_below (λ b. holds_below (λ i. ltb (bit_or b (2 ^ (7 - i))) 256) 8) 256 ≡ true
unfolding holds_below
byte_table = refl

bit_or-lt : (b i : ℕ) → b < 256 → i < 8 → bit_or b (2 ^ (7 - i)) < 256
bit_or-lt b i hb hi = ltb→lt (bit_or b (2 ^ (7 - i))) 256 (
    holds_below_at 8 i (λ i. ltb (bit_or b (2 ^ (7 - i))) 256) hi
      (holds_below_at 256 b (λ b. holds_below (λ i. ltb (bit_or b (2 ^ (7 - i))) 256) 8) hb
        byte_table))

get_or-IsByte : (bf : Bytes) (k : ℕ) → All IsByte bf → get_or bf k 0 < 256
get_or-IsByte [] k h = omega arith
get_or-IsByte (b ∷ bf) zero h = h.0
get_or-IsByte (b ∷ bf) (suc k) h = get_or-IsByte bf k h.1

get_or-set_self : (bf : Bytes) (k v : ℕ) → k < length bf → get_or (set bf k v) k 0 ≡ v
get_or-set_self [] k v h = absurd (omega arith)
get_or-set_self (b ∷ bf) zero v h = refl
get_or-set_self (b ∷ bf) (suc k) v h = get_or-set_self bf k v (omega arith)

get_or-set_ne : (bf : Bytes) (k l v : ℕ) → k ≢ l → get_or (set bf k v) l 0 ≡ get_or bf l 0
get_or-set_ne [] k l v h = refl
get_or-set_ne (b ∷ bf) zero zero v h = absurd (h refl)
get_or-set_ne (b ∷ bf) zero (suc l) v h = refl
get_or-set_ne (b ∷ bf) (suc k) zero v h = refl
get_or-set_ne (b ∷ bf) (suc k) (suc l) v h = get_or-set_ne bf k l v (λ e. h (ap suc e))

set-All : (bf : Bytes) (k v : ℕ) → v < 256 → All IsByte bf → All IsByte (set bf k v)
set-All [] k v hv h = h
set-All (b ∷ bf) zero v hv h = (hv, h.1)
set-All (b ∷ bf) (suc k) v hv h = (h.0, set-All bf k v hv h.1)

pub set_piece-IsByte : (bf : Bytes) (i : ℕ) → All IsByte bf → All IsByte (set_piece bf i)
unfolding set_piece
set_piece-IsByte bf i h = elim (Bool-cases (ltb (i / 8) (length bf))) [
  | inl e ↦ rw e (
      set-All bf (i / 8) (bit_or (get_or bf (i / 8) 0) (mask i))
        (bit_or-lt (get_or bf (i / 8) 0) (i % 8) (get_or-IsByte bf (i / 8) h) (omega arith)) h)
  | inr e ↦ rw e h
]

read_bit :
    (b i j : ℕ)
    → b < 256
    → i < 8
    → j < 8
    → not (bit_and (bit_or b (2 ^ (7 - i))) (2 ^ (7 - j)) == 0)
      ≡ (if i == j then true else not (bit_and b (2 ^ (7 - j)) == 0))
read_bit b i j hb hi hj =
    split (i == j) (not (bit_and (bit_or b (2 ^ (7 - i))) (2 ^ (7 - j)) == 0))
      (not (bit_and b (2 ^ (7 - j)) == 0)) (bit_law_holds b i j hb hi hj)
  where
    split :
        (same after before : Bool)
        → (if same then after else if before then after else not after) ≡ true
        → after ≡ (if same then true else before)
    split same after before h = ground arith

same_index : (i j : ℕ) → i / 8 ≡ j / 8 → (i % 8 == j % 8) ≡ (i == j)
same_index i j e = ground arith

same_byte :
    (bf : Bytes) (i j : ℕ)
    → All IsByte bf
    → i / 8 < length bf
    → i / 8 ≡ j / 8
    → has_piece (set bf (i / 8) (bit_or (get_or bf (i / 8) 0) (mask i))) j
      ≡ (if i == j then true else has_piece bf j)
unfolding has_piece
same_byte bf i j h fits e =
    let b = get_or bf (i / 8) 0 in
    let in_range = lt→ltb (i / 8) (length bf) fits in
    rw
      (
        ← e,
        length-set bf (i / 8) (bit_or b (mask i)),
        in_range,
        get_or-set_self bf (i / 8) (bit_or b (mask i)) fits,
      )
      (read_bit b (i % 8) (j % 8) (get_or-IsByte bf (i / 8) h) (omega arith) (omega arith)
        ∙ ap (λ t. if t then true else not (bit_and b (mask j) == 0)) (same_index i j e))

other_byte :
    (bf : Bytes) (i j v : ℕ) → i / 8 ≢ j / 8 → has_piece (set bf (i / 8) v) j ≡ has_piece bf j
unfolding has_piece
other_byte bf i j v ne = rw (length-set bf (i / 8) v, get_or-set_ne bf (i / 8) (j / 8) v ne)

-- Setting the bit of a piece makes the bitfield report it, if it has a byte for it, and changes
-- nothing that it reports of any other piece.
pub has_piece-set_piece :
    (bf : Bytes) (i j : ℕ)
    → All IsByte bf
    → has_piece (set_piece bf i) j
      ≡ (if i == j && ltb (i / 8) (length bf) then true else has_piece bf j)
unfolding set_piece
has_piece-set_piece bf i j h = elim (Bool-cases (ltb (i / 8) (length bf))) [
  | inl fits ↦ rw fits (elim (ℕ_discrete (i / 8) (j / 8)) [
    | yes e ↦
        same_byte bf i j h (ltb→lt (i / 8) (length bf) fits) e
        ∙ ap (λ t. if t then true else has_piece bf j) (and_true (i == j))
    | no ne ↦
        other_byte bf i j (bit_or (get_or bf (i / 8) 0) (mask i)) ne
        ∙ rw (ne→== i j (λ e. ne (ap (λ k. k / 8) e)))
  ])
  | inr far ↦ rw far (ap (λ t. if t then true else has_piece bf j) (and_false (i == j)))
]
  where
    and_true : (b : Bool) → b ≡ b && true
    and_true b = ground arith

    and_false : (b : Bool) → false ≡ b && false
    and_false b = ground arith

zero-bit_and : (b : ℕ) → bit_and 0 b ≡ 0
zero-bit_and b = bit_and-bitwise 0 b

get_or-replicate : (n k : ℕ) → ◌≡◌ {A = ℕ} (get_or (replicate n 0) k 0) 0
get_or-replicate zero k = refl
get_or-replicate (suc n) zero = refl
get_or-replicate (suc n) (suc k) = get_or-replicate n k

-- A new bitfield has room for each of its pieces, and reports none.
pub new_bitfield_empty :
    (num_pieces j : ℕ)
    → (has_piece (new_bitfield num_pieces) j ≡ false)
      × (j < num_pieces → j / 8 < length (new_bitfield num_pieces))
unfolding has_piece new_bitfield
new_bitfield_empty n j = (
  elim (Bool-cases (ltb (j / 8) (length (replicate {A = ℕ} ((n + 7) / 8) 0)))) [
    | inl e ↦ rw (e, get_or-replicate ((n + 7) / 8) (j / 8), zero-bit_and (mask j))
    | inr e ↦ rw e
  ],
  λ h. omega (arith, length-replicate {A = ℕ} ((n + 7) / 8) 0),
)
