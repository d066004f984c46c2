-- ===== src/Torrent/Endgame/Pick.antt =====
-- `PickPiece`: which piece it returns, and when it returns none.
use native.Mathlib.Nat.{mod-lt, mod-eq_of_lt}
use native.Mathlib.Decide.{ℕ_discrete, dec_le, dec_lt}
use amish.Base.{
  ℕ, zero, suc, ◌+◌, ◌-◌, ◌%◌, ◌≤◌, ◌<◌, ◌≡◌, ◌≢◌, sym, ap, ◌∙◌, Bool, true, false, none, some,
  List, [], ◌∷◌, length, get_elem?, arith, Bool-cases, Option-cases, inl, inr, ne→==, ◌⊎◌, All,
  refl,
}
use amish.Torrent.Endgame.{PieceWork, EndgameTracker, pick_loop, pick_piece}

module _ (has_piece : ℕ → Bool) (ps : List PieceWork) (start : ℕ) where
  pick_loop-some :
      (rounds i : ℕ) (pw : PieceWork)
      → pick_loop has_piece ps start rounds i ≡ some pw
      → (k : ℕ) × (get_elem? ps k ≡ some pw) × (has_piece pw.index ≡ true)
  unfolding pick_loop
  pick_loop-some zero i pw h = ground arith
  pick_loop-some (suc rounds) i pw h =
      elim (Option-cases (get_elem? ps ((start + i) % length ps))) [
        | inl e ↦ absurd (ground (arith, e, h))
        | inr (qw, e) ↦ elim (Bool-cases (has_piece qw.index)) [
          | inl t ↦ ((start + i) % length ps, ground (arith, e, t, h), ground (arith, e, t, h))
          | inr f ↦ pick_loop-some rounds (i + 1) pw (ground (arith, e, f, h))
        ]
      ]

  get_elem?-in_range : (qs : List PieceWork) (k : ℕ) → k < length qs → get_elem? qs k ≢ none
  get_elem?-in_range [] k h = absurd (omega arith)
  get_elem?-in_range (q ∷ qs) zero h = ground arith
  get_elem?-in_range (q ∷ qs) (suc k) h = get_elem?-in_range qs k (omega arith)

  pick_loop-none :
      (rounds i : ℕ)
      → 0 < length ps
      → pick_loop has_piece ps start rounds i ≡ none
      → (t : ℕ) → i ≤ t
      → t < i + rounds
      → (pw : PieceWork) → get_elem? ps ((start + t) % length ps) ≡ some pw
      → has_piece pw.index ≡ false
  unfolding pick_loop
  pick_loop-none zero i pos h t ge lt pw at = absurd (omega arith)
  pick_loop-none (suc rounds) i pos h t ge lt pw at =
      elim (Option-cases (get_elem? ps ((start + i) % length ps))) [
        | inl e ↦
            absurd (get_elem?-in_range ps ((start + i) % length ps) (mod-lt (start + i) pos) e)
        | inr (qw, e) ↦ elim (Bool-cases (has_piece qw.index)) [
          | inl yes_it_has ↦ absurd (ground (arith, e, yes_it_has, h))
          | inr f ↦ elim (ℕ_discrete i t) [
            | yes same ↦ ground (arith, e, f, same, at)
            | no ne ↦
                pick_loop-none rounds (i + 1) pos (ground (arith, e, f, h)) t (omega arith)
                  (omega arith) pw at
          ]
        ]
      ]

-- The round in which the loop looks at position `k`.
round_of : (start k n : ℕ) → start < n → k < n → (t : ℕ) × (t < n) × ((start + t) % n ≡ k)
round_of start k n hs hk = elim (dec_le start k) [
  | yes le ↦ (k - start, omega arith, ap (λ m. m % n) (forward start k le) ∙ mod-eq_of_lt hk)
  | no gt ↦ (k + n - start, omega arith, ap (λ m. m % n) (around start k n hs) ∙ once_around k n hk)
]
  where
    forward : (start k : ℕ) → start ≤ k → start + (k - start) ≡ k
    forward start k le = omega arith

    around : (start k n : ℕ) → start < n → start + (k + n - start) ≡ k + n
    around start k n lt = omega arith

    once_around : (k n : ℕ) → k < n → (k + n) % n ≡ k
    once_around k n lt = grind arith

get_elem?-lt :
    (ps : List PieceWork) (k : ℕ) (pw : PieceWork) → get_elem? ps k ≡ some pw → k < length ps
get_elem?-lt [] k pw h = absurd (ground arith)
get_elem?-lt (q ∷ ps) zero pw h = omega arith
get_elem?-lt (q ∷ ps) (suc k) pw h = omega (arith, get_elem?-lt ps k pw h)

pick_piece_loop :
    (has_piece : ℕ → Bool) (e : EndgameTracker)
    → 0 < length e.pieces
    → (pick_piece has_piece e).0
      ≡ pick_loop has_piece e.pieces ((e.offset + 1) % length e.pieces) (length e.pieces) 0
pick_piece_loop has_piece e h =
    unfold pick_piece in rw (ne→== (length e.pieces) 0 (λ z. absurd (omega arith)))

pick_piece_empty :
    (has_piece : ℕ → Bool) (e : EndgameTracker)
    → length e.pieces ≡ 0
    → (pick_piece has_piece e).0 ≡ none
pick_piece_empty has_piece e h = unfold pick_piece in rw h

none_is_not_some : (pw : PieceWork) → none ≡ some pw → ⊥
none_is_not_some pw h = cc

pub pick_piece_found :
    (has_piece : ℕ → Bool) (e : EndgameTracker) (pw : PieceWork)
    → (pick_piece has_piece e).0 ≡ some pw
    → (k : ℕ) × (get_elem? e.pieces k ≡ some pw) × (has_piece pw.index ≡ true)
pick_piece_found has_piece e pw h = elim (dec_lt 0 (length e.pieces)) [
  | yes pos ↦
      let n = length e.pieces in
      pick_loop-some has_piece e.pieces ((e.offset + 1) % n) n 0 pw
        (sym (pick_piece_loop has_piece e pos) ∙ h)
  | no empty ↦ absurd (none_is_not_some pw (sym (pick_piece_empty has_piece e (omega arith)) ∙ h))
]

-- The loop comes to every position, wherever it starts.
pick_piece-none :
    (has_piece : ℕ → Bool) (e : EndgameTracker) (k : ℕ) (pw : PieceWork)
    → (pick_piece has_piece e).0 ≡ none
    → get_elem? e.pieces k ≡ some pw
    → has_piece pw.index ≡ false
pick_piece-none has_piece e k pw h at =
    let n = length e.pieces in
    let lt = get_elem?-lt e.pieces k pw at in
    let pos : 0 < n = omega arith in
    let start = (e.offset + 1) % n in
    let (t, in_range, meets) = round_of start k n (mod-lt (e.offset + 1) pos) lt in
    pick_loop-none has_piece e.pieces start n 0 pos (sym (pick_piece_loop has_piece e pos) ∙ h) t
      (omega arith) (omega arith) pw (ap (get_elem? e.pieces) meets ∙ at)

All-get_elem? :
    (P : PieceWork → Type 0) (ps : List PieceWork)
    → ((k : ℕ) (pw : PieceWork) → get_elem? ps k ≡ some pw → P pw)
    → All P ps
All-get_elem? P [] h = tt
All-get_elem? P (p ∷ ps) h = (h 0 p refl, All-get_elem? P ps (λ k pw. h (suc k) pw))

-- `PickPiece` returns a piece that stands in the set and that the peer has, or it returns nothing and
-- the peer has none of the pieces in the set.
pub pick_piece_lem :
    (has_piece : ℕ → Bool) (e : EndgameTracker)
    → ((pw : PieceWork) × (k : ℕ) × ((pick_piece has_piece e).0 ≡ some pw)
        × (get_elem? e.pieces k ≡ some pw)
        × (has_piece pw.index ≡ true))
      ⊎ (((pick_piece has_piece e).0 ≡ none) × All (λ pw. has_piece pw.index ≡ false) e.pieces)
pick_piece_lem has_piece e = elim (Option-cases (pick_piece has_piece e).0) [
  | inl h ↦ inr (
    h,
    All-get_elem? (λ pw. has_piece pw.index ≡ false) e.pieces
        (λ k pw. pick_piece-none has_piece e k pw h),
  )
  | inr (pw, h) ↦
      let (k, there, has) = pick_piece_found has_piece e pw h in inl (pw, k, h, there, has)
]
