-- ===== src/Torrent/Swarm/Marked.antt =====
-- What a result changes: its piece is completed, and nowhere else any more.
use amish.Base.{
  ℕ, suc, ◌+◌, ◌≤◌, ◌<◌, ◌≡◌, refl, sym, ap, ◌∙◌, subst, Bool, true, false, ◌||◌, some, List, [],
  ◌∷◌, Bytes, ◌==◌, ==→eq, if◌then◌else◌, arith, Bool-cases, inl, inr, Result, ok, err, panic,
}
use amish.Metainfo.{Info}
use amish.Torrent.Endgame.{PieceWork, EndgameTracker, contains, complete}
use amish.Torrent.Endgame.Counts.{count}
use amish.Torrent.Endgame.Laws.{IsValid, complete_lem, complete-IsValid}
use amish.Torrent.Writer
use amish.Torrent.Writer.{System, Writer, write_piece}
use amish.Torrent.Coordinator.{Download, mark, written, accept}
use amish.Torrent.Coordinator.Counting.{occurrences, occurrences-missing, occurrences-there}
use amish.Torrent.Swarm.Conserved.{IsConserved, OnGo, Stays, after_write-IsConserved}

occurrences-cons :
    (j i : ℕ) (is : List ℕ) → occurrences j (i ∷ is) ≡ (if i == j then 1 else 0) + occurrences j is
unfolding occurrences
occurrences-cons j i is = refl

contains-cons : (i j : ℕ) (js : List ℕ) → contains (i ∷ js) j ≡ (i == j || contains js j)
contains-cons i j js = unfold contains in refl

complete_active : (i : ℕ) (e : EndgameTracker) → (complete i e).1.active ≡ e.active
unfolding complete
complete_active i e = elim (Bool-cases (contains e.completed i)) [
  | inl old ↦ rw old refl
  | inr new ↦ rw new refl
]

marked_before :
    (i j a b c d o : ℕ)
    → a + b + o ≡ 1
    → b ≡ (if i == j then 1 else 0) + c
    → d ≡ (if i == j then 1 else 0) + o
    → a + c + d ≡ 1
marked_before i j a b c d o ha hb hd = ground arith

marked_after :
    (i j a b d o : ℕ)
    → a + o ≡ 1
    → b ≡ (if i == j then 0 else a)
    → (i == j ≡ true → o ≡ 0)
    → d ≡ (if i == j then 1 else 0) + o
    → b + d ≡ 1
marked_after i j a b d o ha hb ho hd = ground arith

marked_once :
    (i j d o : ℕ) → o ≤ 1 → (i == j ≡ true → o ≡ 0) → d ≡ (if i == j then 1 else 0) + o → d ≤ 1
marked_once i j d o ho hz hd = ground arith

marked_known :
    (i j : ℕ) (a b c d : Bool)
    → a ≡ (i == j || b)
    → c ≡ (i == j || d)
    → (b ≡ true → d ≡ true)
    → a ≡ true
    → c ≡ true
marked_known i j a b c d ha hc hb h = ground arith

late :
    (i j a b c o : ℕ)
    → a + b + o ≡ 1
    → b ≡ (if i == j then 1 else 0) + c
    → (i == j ≡ true → 0 < o)
    → a + c + o ≡ 1
late i j a b c o ha hb ho = ground arith

-- What a worker gives away with a result, as long as the endgame is off.
abbrev pub Gives : ℕ → Download → List PieceWork → List PieceWork → List PieceWork → Type 0
Gives i st held held' racing' =
    st.endgame.active ≡ false
    → (racing' ≡ []) × ((j : ℕ) → count j held ≡ (if i == j then 1 else 0) + count j held')

module _ (info : Info) (i : ℕ) (st : Download) (held held' racing racing' : List PieceWork)
    (h : IsConserved info st held racing) (gives : Gives i st held held' racing') where
  -- The tracker after a new result.
  record IsMarked (e : EndgameTracker) : Type 0 where
    same : e.active ≡ st.endgame.active
    off : st.endgame.active ≡ false → e ≡ st.endgame
    on : st.endgame.active ≡ true → e ≡ (complete i st.endgame).1

  mark-IsMarked : IsMarked (if st.endgame.active then (complete i st.endgame).1 else st.endgame)
  mark-IsMarked = elim (Bool-cases st.endgame.active) [
    | inl a ↦ record {
      same =
          ap (λ b. (if b then (complete i st.endgame).1 else st.endgame).active) a
          ∙ complete_active i st.endgame;
      off = λ b. absurd (differ a b);
      on = λ _. ap (λ b. if b then (complete i st.endgame).1 else st.endgame) a;
    }
    | inr a ↦ record {
      same = ap (λ b. (if b then (complete i st.endgame).1 else st.endgame).active) a;
      off = λ _. ap (λ b. if b then (complete i st.endgame).1 else st.endgame) a;
      on = λ b. absurd (differ b a);
    }
  ]
    where
      differ : st.endgame.active ≡ true → st.endgame.active ≡ false → ⊥
      differ a b = cc

  marked-IsConserved :
      (e : EndgameTracker) (w : Writer) (done : ℕ)
      → contains st.completed i ≡ false
      → IsMarked e
      → IsConserved info
          (record st { completed = i ∷ st.completed; endgame = e; writer = w; done = done })
          held'
          racing'
  marked-IsConserved e w done new m =
      let absent = λ (j : ℕ) (same : i == j ≡ true).
        ap (λ k. occurrences k st.completed) (sym (==→eq i j same))
        ∙ occurrences-missing i st.completed new in
      record {
        together = h.together ∙ sym m.same;
        once = λ j. marked_once i j _ _ (h.once j) (absent j) (occurrences-cons j i st.completed);
        before = λ a.
            let off = sym m.same ∙ a in
            let (_, no_pieces, none_yet, counts) = h.before off in
            (
              (gives off).0,
              ap (λ e. e.pieces) (m.off off) ∙ no_pieces,
              ap (λ e. e.completed) (m.off off) ∙ none_yet,
              λ j lt.
                  marked_before i j (count j st.work) (count j held) (count j held') _
                    (occurrences j st.completed) (counts j lt) ((gives off).1 j)
                    (occurrences-cons j i st.completed),
            );
        after = λ a.
            let on = sym m.same ∙ a in
            let (valid, known, counts) = h.after on in
            let step = (complete_lem i st.endgame valid).1 in
            (
              subst IsValid (sym (m.on on)) (complete-IsValid i st.endgame valid),
              λ j.
                  marked_known i j (contains e.completed j) (contains st.endgame.completed j)
                    (contains (i ∷ st.completed) j) (contains st.completed j)
                    (ap (λ e. contains e.completed j) (m.on on) ∙ (step j).0)
                    (contains-cons i j st.completed) (known j),
              λ j lt.
                  marked_after i j (count j st.endgame.pieces) _ _ (occurrences j st.completed)
                    (counts j lt) (ap (λ e. count j e.pieces) (m.on on) ∙ (step j).1) (absent j)
                    (occurrences-cons j i st.completed),
            );
      }

  written-IsConserved :
      (x : Result Writer.Error (Unit {0}) × Writer)
      → contains st.completed i ≡ false
      → OnGo (Stays info held' racing') (written info (mark i st) x)
  written-IsConserved (ok u, w) new =
      after_write-IsConserved info _ held' racing'
        (marked-IsConserved _ w (suc st.done) new mark-IsMarked)
  written-IsConserved (err e, w) new = tt
  written-IsConserved (panic, w) new = tt

  -- A result that comes too late changes nothing; before the endgame there is none.
  late-IsConserved : contains st.completed i ≡ true → IsConserved info st held' racing'
  late-IsConserved old = record {
    together = h.together;
    once = h.once;
    before = λ off.
        let (_, no_pieces, none_yet, counts) = h.before off in
        (
          (gives off).0,
          no_pieces,
          none_yet,
          λ j lt.
              late i j (count j st.work) (count j held) (count j held') (occurrences j st.completed)
                (counts j lt) ((gives off).1 j) (present j),
        );
    after = h.after;
  }
    where
      present : (j : ℕ) → i == j ≡ true → 0 < occurrences j st.completed
      present j same =
          occurrences-there j st.completed (ap (contains st.completed) (sym (==→eq i j same)) ∙ old)

  pub accept-IsConserved :
      (sys : System) (b : Bytes) → OnGo (Stays info held' racing') (accept sys info i (some b) st)
  accept-IsConserved sys b = elim (Bool-cases (contains st.completed i)) [
    | inl old ↦ rw old (late-IsConserved old)
    | inr new ↦ rw new (written-IsConserved (write_piece sys i b st.writer) new)
  ]
