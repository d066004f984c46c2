-- ===== src/Torrent/Endgame/Counts.antt =====
-- How often an index stands among the pieces, before and after the removal of one of them.
use native.Mathlib.Decide.{ℕ_discrete}
use amish.Base.{
  ℕ, zero, suc, ◌+◌, ◌-◌, ◌<◌, ◌≡◌, refl, ap, ◌∙◌, none, some, List, [], ◌∷◌, ◌++◌, ◌==◌,
  if◌then◌else◌, length, get_elem?, set, take, arith, length-set, min, length-take,
  get_elem?-set_self, get_elem?-set_ne, Option-cases, inl, inr,
}
use amish.Torrent.Endgame.{PieceWork, find_index, swap_remove, remove_piece}

abbrev pub is_index : ℕ → PieceWork → ℕ
is_index j pw = if pw.index == j then 1 else 0

unfoldable pub count : ℕ → List PieceWork → ℕ
count j [] = 0
count j (pw ∷ ps) = is_index j pw + count j ps

pub count-append : (j : ℕ) (ps qs : List PieceWork) → count j (ps ++ qs) ≡ count j ps + count j qs
unfolding count
count-append j [] qs = omega arith
count-append j (pw ∷ ps) qs = omega (arith, count-append j ps qs)

count-set :
    (j : ℕ) (ps : List PieceWork) (i : ℕ) (old new : PieceWork)
    → get_elem? ps i ≡ some old
    → count j (set ps i new) + is_index j old ≡ count j ps + is_index j new
unfolding count
count-set j [] i old new h = ground arith
count-set j (pw ∷ ps) zero old new h = ground arith
count-set j (pw ∷ ps) (suc i) old new h = omega (arith, count-set j ps i old new h)

count-take :
    (j n : ℕ) (ps : List PieceWork) (last : PieceWork)
    → length ps ≡ suc n
    → get_elem? ps n ≡ some last
    → count j (take n ps) + is_index j last ≡ count j ps
unfolding count
count-take j n [] last e h = absurd (omega arith)
count-take j zero (pw ∷ []) last e h = ground arith
count-take j zero (pw ∷ qw ∷ ps) last e h = absurd (omega arith)
count-take j (suc n) (pw ∷ ps) last e h = omega (arith, count-take j n ps last (omega arith) h)

get_elem?-last :
    (n : ℕ) (ps : List PieceWork)
    → length ps ≡ suc n
    → (last : PieceWork) × (get_elem? ps n ≡ some last)
get_elem?-last n [] e = absurd (omega arith)
get_elem?-last zero (pw ∷ ps) e = (pw, refl)
get_elem?-last (suc n) (pw ∷ ps) e = get_elem?-last n ps (omega arith)

get_elem?-set_last :
    (ps : List PieceWork) (i n : ℕ) (last : PieceWork)
    → n < length ps
    → get_elem? ps n ≡ some last
    → get_elem? (set ps i last) n ≡ some last
get_elem?-set_last ps i n last lt h = elim (ℕ_discrete i n) [
  | yes e ↦ rw e (get_elem?-set_self ps n last lt)
  | no ne ↦ get_elem?-set_ne ps i n last ne ∙ h
]

swap_remove_lem :
    (i : ℕ) (ps : List PieceWork) (last : PieceWork)
    → get_elem? ps (length ps - 1) ≡ some last
    → swap_remove i ps ≡ take (length ps - 1) (set ps i last)
unfolding swap_remove
swap_remove_lem i ps last h = rw (h, swap_remove)

swap_remove-take :
    (i n : ℕ) (ps : List PieceWork) (last : PieceWork)
    → length ps ≡ suc n
    → get_elem? ps n ≡ some last
    → swap_remove i ps ≡ take n (set ps i last)
swap_remove-take i n ps last e h =
    let size : length ps - 1 ≡ n = omega arith in
    swap_remove_lem i ps last (ap (get_elem? ps) size ∙ h) ∙ ap (λ m. take m (set ps i last)) size

-- The piece at `i` goes, whatever the order of the others becomes.
swap_remove-count :
    (j i n : ℕ) (ps : List PieceWork) (old : PieceWork)
    → length ps ≡ suc n
    → get_elem? ps i ≡ some old
    → count j (swap_remove i ps) + is_index j old ≡ count j ps
swap_remove-count j i n ps old e h =
    let (last, at_end) = get_elem?-last n ps e in
    let after : get_elem? (set ps i last) n ≡ some last =
      get_elem?-set_last ps i n last (omega arith) at_end in
    let shorter : length (set ps i last) ≡ suc n = length-set ps i last ∙ e in
    rw (swap_remove-take i n ps last e at_end) (
      omega (arith, count-take j n (set ps i last) last shorter after, count-set j ps i old last h))

length-swap_remove :
    (i n : ℕ) (ps : List PieceWork) → length ps ≡ suc n → length (swap_remove i ps) ≡ n
length-swap_remove i n ps e =
    let (last, at_end) = get_elem?-last n ps e in
    rw (swap_remove-take i n ps last e at_end)
      (omega (arith, length-take n (set ps i last), length-set ps i last))

-- `find_index` finds a piece exactly if one has the index.
find_index-some :
    (index : ℕ) (ps : List PieceWork) (i : ℕ)
    → find_index index ps ≡ some i
    → (pw : PieceWork) × (get_elem? ps i ≡ some pw) × (pw.index ≡ index)
unfolding find_index
find_index-some index [] i h = ground arith
find_index-some index (pw ∷ ps) zero h = (pw, refl, ground arith)
find_index-some index (pw ∷ ps) (suc i) h = find_index-some index ps i (ground arith)

find_index-none :
    (index : ℕ) (ps : List PieceWork) → find_index index ps ≡ none → count index ps ≡ 0
unfolding find_index count
find_index-none index [] h = refl
find_index-none index (pw ∷ ps) h = ground (arith, find_index-none index ps)

get_elem?-nonempty :
    (ps : List PieceWork) (i : ℕ) (pw : PieceWork)
    → get_elem? ps i ≡ some pw
    → (n : ℕ) × (length ps ≡ suc n)
get_elem?-nonempty [] i pw h = ground arith
get_elem?-nonempty (qw ∷ ps) i pw h = (length ps, refl)

-- Completing an index takes one piece with that index away, if there is one, and no other.
pub remove_piece-count :
    (j index : ℕ) (ps : List PieceWork)
    → count j (remove_piece index ps) ≡ (if index == j then count j ps - 1 else count j ps)
unfolding remove_piece
remove_piece-count j index ps = elim (Option-cases (find_index index ps)) [
  | inl e ↦ rw (e, remove_piece) (ground (arith, find_index-none index ps e))
  | inr (i, e) ↦
      let (old, at, same) = find_index-some index ps i e in
      let (n, size) = get_elem?-nonempty ps i old at in
      rw (e, remove_piece) (ground (arith, swap_remove-count j i n ps old size at, same))
]

pub length-remove_piece :
    (index : ℕ) (ps : List PieceWork)
    → length (remove_piece index ps) ≡ length ps - min (count index ps) 1
unfolding remove_piece
length-remove_piece index ps = elim (Option-cases (find_index index ps)) [
  | inl e ↦ rw (e, remove_piece) (omega (arith, find_index-none index ps e))
  | inr (i, e) ↦
      let (old, at, same) = find_index-some index ps i e in
      let (n, size) = get_elem?-nonempty ps i old at in
      rw (e, remove_piece)
        (ground
          (arith, length-swap_remove i n ps size, swap_remove-count index i n ps old size at, same))
]
