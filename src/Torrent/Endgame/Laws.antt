-- ===== src/Torrent/Endgame/Laws.antt =====
-- The invariant of the tracker, and that each piece is won once.
use amish.Base.{
  ℕ, ◌≤◌, ◌≡◌, refl, Bool, true, false, not, ◌||◌, List, [], ◌∷◌, ◌==◌, if◌then◌else◌, arith,
  Bool-cases, inl, inr,
}
use amish.Torrent.Endgame.{
  PieceWork, EndgameTracker, new_endgame_tracker, contains, activate, add_piece, pick_piece,
  remove_piece, complete,
}
use amish.Torrent.Endgame.Counts.{count, count-append, remove_piece-count}

-- No index stands twice among the pieces, and none that is completed stands there.
abbrev pub IsValid : EndgameTracker → Type 0
IsValid e =
    (j : ℕ) → (count j e.pieces ≤ 1) × (contains e.completed j ≡ true → count j e.pieces ≡ 0)

complete_again :
    (index : ℕ) (e : EndgameTracker)
    → contains e.completed index ≡ true
    → complete index e ≡ (false, e)
complete_again index e h = unfold complete in rw h

complete_first :
    (index : ℕ) (e : EndgameTracker)
    → contains e.completed index ≡ false
    → complete index e
      ≡ (true, record e { completed = index ∷ e.completed; pieces = remove_piece index e.pieces })
complete_first index e h = unfold complete in rw h

contains-cons : (i j : ℕ) (js : List ℕ) → contains (i ∷ js) j ≡ (i == j || contains js j)
contains-cons i j js = unfold contains in refl

pub complete_reports :
    (index : ℕ) (e : EndgameTracker) → (complete index e).0 ≡ not (contains e.completed index)
complete_reports index e = unfold complete in ground arith

pub complete_marks :
    (index : ℕ) (e : EndgameTracker) (j : ℕ)
    → contains (complete index e).1.completed j ≡ (index == j || contains e.completed j)
complete_marks index e j = elim (Bool-cases (contains e.completed index)) [
  | inl old ↦ rw (complete_again index e old) (ground (arith, old))
  | inr new ↦ rw (complete_first index e new) (contains-cons index j e.completed)
]

complete_takes :
    (index : ℕ) (e : EndgameTracker) (j : ℕ)
    → IsValid e
    → count j (complete index e).1.pieces ≡ (if index == j then 0 else count j e.pieces)
complete_takes index e j v = elim (Bool-cases (contains e.completed index)) [
  | inl old ↦ rw (complete_again index e old) (ground (arith, old, v index))
  | inr new ↦
      rw (complete_first index e new) (ground (arith, remove_piece-count j index e.pieces, v j))
]

-- The first completion of an index, and only that, is reported as such; the index is completed from
-- then on and its piece is gone; nothing changes for any other index.
pub complete_lem :
    (index : ℕ) (e : EndgameTracker)
    → IsValid e
    → ((complete index e).0 ≡ not (contains e.completed index))
      × ((j : ℕ)
          → (contains (complete index e).1.completed j ≡ (index == j || contains e.completed j))
            × (count j (complete index e).1.pieces ≡ (if index == j then 0 else count j e.pieces)))
complete_lem index e v =
    (complete_reports index e, λ j. (complete_marks index e j, complete_takes index e j v))

-- A call of one of the methods that change the tracker.
pub data Op : Type 0 where
  enable : Op
  add : PieceWork → Op
  pick : (ℕ → Bool) → Op
  finish : ℕ → Op

-- The new state, and whether the call was the first completion of its index.
unfoldable pub run : Op → EndgameTracker → Bool × EndgameTracker
run enable e = (false, activate e)
run (add pw) e = (false, add_piece pw e)
run (pick has_piece) e = (false, (pick_piece has_piece e).1)
run (finish index) e = complete index e

-- A piece is added once: the caller adds each index when the endgame starts.
abbrev pub IsFresh : Op → EndgameTracker → Type 0
IsFresh (add pw) e = count pw.index e.pieces ≡ 0
IsFresh _ e = Unit {0}

-- The states that the methods lead to, from the new tracker.
pub data Reach : EndgameTracker → Type 0 where
  start : Reach new_endgame_tracker
  next : {e : EndgameTracker} (op : Op) → Reach e → IsFresh op e → Reach (run op e).1

count_one : (j : ℕ) (pw : PieceWork) → count j (pw ∷ []) ≡ (if pw.index == j then 1 else 0)
unfolding count
count_one j pw = omega arith

add_piece-IsValid :
    (pw : PieceWork) (e : EndgameTracker)
    → count pw.index e.pieces ≡ 0
    → IsValid e
    → IsValid (add_piece pw e)
unfolding add_piece
add_piece-IsValid pw e fresh v j = elim (Bool-cases (contains e.completed pw.index)) [
  | inl old ↦ ground (arith, old, v j)
  | inr new ↦ ground (arith, new, v j, fresh, count-append j e.pieces (pw ∷ []), count_one j pw)
]

pick_piece-IsValid :
    (has_piece : ℕ → Bool) (e : EndgameTracker) → IsValid e → IsValid (pick_piece has_piece e).1
unfolding pick_piece
pick_piece-IsValid has_piece e v j = ground (arith, v j)

pub complete-IsValid : (index : ℕ) (e : EndgameTracker) → IsValid e → IsValid (complete index e).1
complete-IsValid index e v j =
    let (m, t) = (complete_lem index e v).1 j in ground (arith, m, t, v j)

run-IsValid : (op : Op) (e : EndgameTracker) → IsFresh op e → IsValid e → IsValid (run op e).1
run-IsValid enable e h v = unfold run activate in v
run-IsValid (add pw) e h v = unfold run in add_piece-IsValid pw e h v
run-IsValid (pick has_piece) e h v = unfold run in pick_piece-IsValid has_piece e v
run-IsValid (finish index) e h v = unfold run in complete-IsValid index e v

-- In every state that the methods lead to, a piece stands in the set at most once, and never after
-- its completion.
pub Reach-IsValid : {e : EndgameTracker} → Reach e → IsValid e
Reach-IsValid start = λ j. unfold new_endgame_tracker count in (omega arith, λ _. refl)
Reach-IsValid (next {e} op r h) = run-IsValid op e h (Reach-IsValid r)
