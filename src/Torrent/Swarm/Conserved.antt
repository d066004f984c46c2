-- ===== src/Torrent/Swarm/Conserved.antt =====
-- No piece is lost, and none is in two places.
use amish.Base.{
  ℕ, zero, suc, ◌+◌, ◌-◌, ◌≤◌, ◌<◌, ◌≡◌, refl, ap, ◌∙◌, Bool, true, false, ◌&&◌, not, List, [], ◌∷◌,
  ◌++◌, ltb, leb, ◌==◌, if◌then◌else◌, arith, Bool-cases, inl, inr,
}
use amish.Metainfo.{Info, num_pieces}
use amish.Torrent.Endgame.{
  PieceWork, EndgameTracker, contains, activate, add_piece, endgame_threshold,
}
use amish.Torrent.Endgame.Counts.{count, count-append, is_index}
use amish.Torrent.Endgame.Laws.{IsValid}
use amish.Torrent.Coordinator.{
  Download, Signal, go_on, return_with, work_of, add_missing, transition_to_endgame, after_write,
}
use amish.Torrent.Coordinator.Counting.{occurrences, occurrences-missing, occurrences-there}

-- The pieces are counted where they are: in the queue or with a worker before the endgame, in the
-- tracker in the endgame; or they are completed.
pub record IsConserved (info : Info) (st : Download) (held racing : List PieceWork) : Type 0 where
  pub together : st.in_endgame ≡ st.endgame.active
  pub once : (j : ℕ) → occurrences j st.completed ≤ 1
  pub before :
      st.endgame.active ≡ false
      → (racing ≡ [])
        × (st.endgame.pieces ≡ [])
        × (st.endgame.completed ≡ [])
        × ((j : ℕ)
            → j < num_pieces info
            → count j st.work + count j held + occurrences j st.completed ≡ 1)
  pub after :
      st.endgame.active ≡ true
      → IsValid st.endgame
        × ((j : ℕ) → contains st.endgame.completed j ≡ true → contains st.completed j ≡ true)
        × ((j : ℕ)
            → j < num_pieces info
            → count j st.endgame.pieces + occurrences j st.completed ≡ 1)

abbrev pub OnGo : (Download → Type 0) → Signal × Download → Type 0
OnGo P (go_on, st) = P st
OnGo P (return_with o, st) = Unit {0}

pub OnGo-if :
    (P : Download → Type 0) (b : Bool) (x y : Signal × Download)
    → (b ≡ true → OnGo P x)
    → (b ≡ false → OnGo P y)
    → OnGo P (if b then x else y)
OnGo-if P true x y hx hy = hx refl
OnGo-if P false x y hx hy = hy refl

-- The tracker that the endgame starts with has every piece that is missing, once.
abbrev Missing : List ℕ → ℕ → EndgameTracker → Type 0
Missing completed n e =
    (e.completed ≡ [])
    × ((j : ℕ) → count j e.pieces ≡ (if ltb j n && not (contains completed j) then 1 else 0))

add_new :
    (info : Info) (e : EndgameTracker) (n : ℕ)
    → e.completed ≡ []
    → add_piece (work_of info n) e ≡ record e { pieces = e.pieces ++ work_of info n ∷ [] }
unfolding add_piece contains
add_new info e n h = rw h refl

pub count-nil : (j : ℕ) → count j [] ≡ 0
unfolding count
count-nil j = refl

pub count-cons :
    (j : ℕ) (pw : PieceWork) (ps : List PieceWork) → count j (pw ∷ ps) ≡ is_index j pw + count j ps
unfolding count
count-cons j pw ps = refl

count-work_of : (info : Info) (j n : ℕ) → count j (work_of info n ∷ []) ≡ (if n == j then 1 else 0)
unfolding count work_of
count-work_of info j n = omega arith

pub count-middle :
    (j : ℕ) (xs : List PieceWork) (pw : PieceWork) (ys : List PieceWork)
    → count j (xs ++ pw ∷ ys) ≡ is_index j pw + count j (xs ++ ys)
count-middle j xs pw ys =
    omega (arith, count-append j xs (pw ∷ ys), count-append j xs ys, count-cons j pw ys)

one_more :
    (j n a b : ℕ) (c : Bool)
    → (j ≡ n → c ≡ false)
    → a ≡ (if ltb j n && not c then 1 else 0)
    → b ≡ (if n == j then 1 else 0)
    → a + b ≡ (if ltb j (suc n) && not c then 1 else 0)
one_more j n a b c h ha hb = ground arith

abbrev one_if : Bool → ℕ
one_if b = if b then 1 else 0

no_more :
    (j n : ℕ) (c : Bool)
    → (j ≡ n → c ≡ true)
    → one_if (ltb j n && not c) ≡ one_if (ltb j (suc n) && not c)
no_more j n c h = ground arith

add_missing-Missing :
    (info : Info) (completed : List ℕ) (n : ℕ) (e : EndgameTracker)
    → e.completed ≡ []
    → e.pieces ≡ []
    → Missing completed n (add_missing info completed n e)
unfolding add_missing
add_missing-Missing info completed zero e hc hp =
    (hc, λ j. ap (count j) hp ∙ ground (arith, count-nil j))
add_missing-Missing info completed (suc n) e hc hp =
    let (none_yet, counts) = add_missing-Missing info completed n e hc hp in
    elim (Bool-cases (contains completed n)) [
      | inl old ↦ rw old (
        none_yet,
        λ j. counts j ∙ no_more j n (contains completed j) (λ e. ap (contains completed) e ∙ old),
      )
      | inr new ↦
          rw (new, add_new info (add_missing info completed n e) n none_yet)
            (
              none_yet,
              λ j.
                  count-append j (add_missing info completed n e).pieces (work_of info n ∷ [])
                  ∙ one_more j n (count j (add_missing info completed n e).pieces)
                      (count j (work_of info n ∷ [])) (contains completed j)
                      (λ e. ap (contains completed) e ∙ new) (counts j) (count-work_of info j n),
            )
    ]

-- When the endgame starts, its tracker holds exactly the pieces that are missing.
transition-IsConserved :
    (info : Info) (st : Download) (held racing : List PieceWork)
    → IsConserved info st held racing
    → st.endgame.active ≡ false
    → IsConserved info (transition_to_endgame info st) held racing
unfolding transition_to_endgame activate
transition-IsConserved info st held racing h inactive =
    let (_, no_pieces, none_yet, _) = h.before inactive in
    let (empty, counts) =
      add_missing-Missing info st.completed (num_pieces info) st.endgame none_yet no_pieces in
    let e = add_missing info st.completed (num_pieces info) st.endgame in
    record {
      together = refl;
      once = h.once;
      before = λ a. absurd (differ a);
      after = λ a. (
        λ j. (
          small (ltb j (num_pieces info) && not (contains st.completed j)) (counts j),
          λ there. absurd (nothing j e.completed empty there),
        ),
        λ j there. absurd (nothing j e.completed empty there),
        λ j lt.
            missing j (contains st.completed j) (counts j) lt (occurrences-missing j st.completed)
              (occurrences-there j st.completed) (h.once j),
      );
    }
  where
    differ : true ≡ false → ⊥
    differ e = cc

    small : (b : Bool) {a : ℕ} → a ≡ (if b then 1 else 0) → a ≤ 1
    small b h = ground arith

    nothing : (j : ℕ) (js : List ℕ) → js ≡ [] → contains js j ≡ true → ⊥
    nothing j js e h = unfold contains in ground (arith, e, h)

    missing :
        (j : ℕ) (c : Bool) {a n o : ℕ}
        → a ≡ (if ltb j n && not c then 1 else 0)
        → j < n
        → (c ≡ false → o ≡ 0)
        → (c ≡ true → 0 < o)
        → o ≤ 1
        → a + o ≡ 1
    missing j c ha lt h0 h1 h2 = ground arith

abbrev pub Stays : Info → List PieceWork → List PieceWork → Download → Type 0
Stays info held racing st = IsConserved info st held racing

pub after_write-IsConserved :
    (info : Info) (st : Download) (held racing : List PieceWork)
    → IsConserved info st held racing
    → OnGo (Stays info held racing) (after_write info st)
unfolding after_write
after_write-IsConserved info st held racing h =
    let n = num_pieces info in
    OnGo-if (Stays info held racing) (leb n st.done) _ _ (λ _. tt)
      λ _.
        OnGo-if (Stays info held racing)
          (leb (n - st.done) endgame_threshold && not st.endgame.active) _ _
          (λ start.
            transition-IsConserved info st held racing h
              (inactive (leb (n - st.done) endgame_threshold) st.endgame.active start))
          (λ _. h)
  where
    inactive : (a b : Bool) → (a && not b) ≡ true → b ≡ false
    inactive a b h = ground arith
