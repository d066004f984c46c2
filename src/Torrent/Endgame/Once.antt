-- ===== src/Torrent/Endgame/Once.antt =====
-- Racing workers: of the calls that complete a piece, one is told to be the first.
use amish.Base.{
  ℕ, ◌+◌, ◌≡◌, refl, Bool, false, ◌&&◌, List, [], ◌∷◌, ◌==◌, if◌then◌else◌, arith, min,
}
use amish.Torrent.Endgame.{EndgameTracker, contains, activate, add_piece, pick_piece, complete}
use amish.Torrent.Endgame.Laws.{
  Op, enable, add, pick, finish, run, complete_reports, complete_marks,
}

-- How many of the calls ask for the completion of `index`, and how many of them are told that
-- theirs was the first.
unfoldable pub asks : ℕ → List Op → ℕ
asks index [] = 0
asks index (finish i ∷ ops) = (if i == index then 1 else 0) + asks index ops
asks index (_ ∷ ops) = asks index ops

abbrev is_finish : ℕ → Op → Bool
is_finish index (finish i) = i == index
is_finish index _ = false

unfoldable pub wins : ℕ → List Op → EndgameTracker → ℕ
wins index [] e = 0
wins index (op ∷ ops) e =
    (if is_finish index op && (run op e).0 then 1 else 0) + wins index ops (run op e).1

abbrev IsOther : Op → Type 0
IsOther (finish i) = ⊥
IsOther _ = Unit {0}

run-completed : (op : Op) (e : EndgameTracker) → IsOther op → (run op e).1.completed ≡ e.completed
unfolding run
run-completed enable e h = unfold activate in refl
run-completed (add pw) e h = unfold add_piece in ground arith
run-completed (pick has_piece) e h = unfold pick_piece in ground arith
run-completed (finish i) e h = absurd h

run-finish : (i : ℕ) (e : EndgameTracker) → run (finish i) e ≡ complete i e
run-finish i e = unfold run in refl

-- Whatever the workers call, and in whatever order: if any of them completes an index that is not
-- completed yet, exactly one of the calls is told to be the first, and if it is completed, none.
pub wins_once :
    (index : ℕ) (ops : List Op) (e : EndgameTracker)
    → wins index ops e ≡ (if contains e.completed index then 0 else min 1 (asks index ops))
unfolding wins asks
wins_once index [] e = ground arith
wins_once index (enable ∷ ops) e =
    ground (arith, wins_once index ops (run enable e).1, run-completed enable e tt)
wins_once index (add pw ∷ ops) e =
    ground (arith, wins_once index ops (run (add pw) e).1, run-completed (add pw) e tt)
wins_once index (pick has_piece ∷ ops) e =
    ground
      (arith, wins_once index ops (run (pick has_piece) e).1, run-completed (pick has_piece) e tt)
wins_once index (finish i ∷ ops) e = ground (
  arith,
  wins_once index ops (run (finish i) e).1,
  complete_reports i e,
  complete_marks i e index,
  run-finish i e,
)
