-- ===== src/Torrent/Endgame.antt =====
-- torrent/endgame.go. Each method holds the mutex from its first line to its last, so a method is
-- one step on the state; the lock itself is left out.
pub mod Counts
pub mod Pick
pub mod Laws
pub mod Once
use amish.Base.{
  ℕ, zero, suc, ◌+◌, ◌-◌, ◌%◌, ◌≡◌, refl, Bool, true, false, ◌||◌, Option, none, some, List, [],
  ◌∷◌, ◌++◌, Bytes, ◌==◌, if◌then◌else◌, length, get_elem?, set, take,
}
use amish.Base.Int.{ℤ, pos}

abbrev pub endgame_threshold : ℕ
endgame_threshold = 20

-- `PieceWork` of torrent/piece.go.
pub record PieceWork : Type 0 where
  pub index : ℕ
  pub hash : Bytes
  pub size : ℤ
  pub num_tries : ℕ

-- `completed` is the keys of the map: every value stored in it is true.
pub record EndgameTracker : Type 0 where
  pub active : Bool
  pub pieces : List PieceWork
  pub completed : List ℕ
  pub offset : ℕ

unfoldable pub new_endgame_tracker : EndgameTracker
new_endgame_tracker = record { active = false; pieces = []; completed = []; offset = 0 }

-- `m[i]` of a map[int]bool.
unfoldable pub contains : List ℕ → ℕ → Bool
contains [] i = false
contains (j ∷ js) i = j == i || contains js i

unfoldable pub activate : EndgameTracker → EndgameTracker
activate e = record e { active = true }

unfoldable pub is_active : EndgameTracker → Bool
is_active e = e.active

unfoldable pub add_piece : PieceWork → EndgameTracker → EndgameTracker
unfolding contains
add_piece pw e =
    if contains e.completed pw.index then e else record e { pieces = e.pieces ++ pw ∷ [] }

-- The loop of `PickPiece`: `rounds` are left, and `i` counts those done. The index is in range.
unfoldable pub pick_loop : (ℕ → Bool) → List PieceWork → ℕ → ℕ → ℕ → Option PieceWork
pick_loop has_piece pieces start zero i = none
pick_loop has_piece pieces start (suc rounds) i =
    let rest = pick_loop has_piece pieces start rounds (i + 1) in
    elim (get_elem? pieces ((start + i) % length pieces)) [
      | none ↦ none
      | some pw ↦ if has_piece pw.index then some pw else rest
    ]

unfoldable pub pick_piece : (ℕ → Bool) → EndgameTracker → Option PieceWork × EndgameTracker
unfolding pick_loop
pick_piece has_piece e =
    let n = length e.pieces in
    let offset = e.offset + 1 in
    if n == 0
    then (none, e)
    else (pick_loop has_piece e.pieces (offset % n) n 0, record e { offset = offset })

-- The position of the first piece with this index.
unfoldable pub find_index : ℕ → List PieceWork → Option ℕ
find_index index [] = none
find_index index (pw ∷ ps) =
    let rest = find_index index ps in
    if pw.index == index then some 0 else elim rest [ none ↦ none | some i ↦ some (suc i) ]

-- `pieces[i] = pieces[len(pieces)-1]; pieces = pieces[:len(pieces)-1]`
unfoldable pub swap_remove : ℕ → List PieceWork → List PieceWork
swap_remove i ps = elim (get_elem? ps (length ps - 1)) [
  | none ↦ ps
  | some last ↦ take (length ps - 1) (set ps i last)
]

unfoldable pub remove_piece : ℕ → List PieceWork → List PieceWork
unfolding find_index swap_remove
remove_piece index ps = elim (find_index index ps) [ none ↦ ps | some i ↦ swap_remove i ps ]

unfoldable pub complete : ℕ → EndgameTracker → Bool × EndgameTracker
unfolding contains remove_piece
complete index e =
    if contains e.completed index
    then (false, e)
    else (true, record e { completed = index ∷ e.completed; pieces = remove_piece index e.pieces })

unfoldable pub remaining : EndgameTracker → ℕ
remaining e = length e.pieces
