-- ===== src/Torrent/Coordinator/Laws.antt =====
-- What the coordinator has achieved when it succeeds, and what holds all the time.
use amish.Base.{
  ==→eq, ℕ, suc, ◌-◌, ◌≤◌, ◌<◌, ◌≡◌, refl, sym, ap, subst, ◌∙◌, Bool, true, false, ◌&&◌, not,
  Option, none, some, List, [], ◌∷◌, Bytes, leb, ltb, ◌==◌, if◌then◌else◌, length, arith, All,
  Bool-cases, inl, inr, Result, ok, err, panic, leb→le,
}
use amish.Metainfo.{Info, num_pieces}
use amish.Torrent.Endgame.{contains, endgame_threshold}
use amish.Torrent.Writer
use amish.Torrent.Writer.{System, Writer, write_piece}
use amish.Torrent.Coordinator.{
  Event, arrive, take_work, put_back, pick, Download, Outcome, succeeded, Signal, go_on,
  return_with, transition_to_endgame, after_write, written, mark, accept, handle_result, step,
  collect, begin, download_pieces,
}
use amish.Torrent.Coordinator.Counting.{
  occurrences, occurrences-missing, occurrences-there, pigeonhole,
}

module _ (info : Info) where
  -- Every piece that is completed is counted once, and is one of the torrent's.
  pub record IsCollected (st : Download) : Type 0 where
    pub counted : st.done ≡ length st.completed
    pub distinct : (j : ℕ) → occurrences j st.completed ≤ 1
    pub bounded : All (λ i. i < num_pieces info) st.completed

  -- A worker is given pieces of the torrent only.
  abbrev pub IsIndexed : Event → Type 0
  IsIndexed (arrive r) = r.index < num_pieces info
  IsIndexed _ = Unit {0}

  abbrev IsEnd : Outcome → Download → Type 0
  IsEnd succeeded st = IsCollected st × (num_pieces info ≤ st.done)
  IsEnd _ st = Unit {0}

  abbrev IsStep : Signal × Download → Type 0
  IsStep (go_on, st) = IsCollected st
  IsStep (return_with o, st) = IsEnd o st

  IsCollected-of_eq :
      (st st' : Download)
      → st'.done ≡ st.done
      → st'.completed ≡ st.completed
      → IsCollected st
      → IsCollected st'
  IsCollected-of_eq st st' d c h = record {
    counted = d ∙ h.counted ∙ ap length (sym c);
    distinct = λ j. subst (λ is. occurrences j is ≤ 1) (sym c) (h.distinct j);
    bounded = subst (λ is. All (λ i. i < num_pieces info) is) (sym c) h.bounded;
  }

  IsStep-if :
      (b : Bool) (x y : Signal × Download) → IsStep x → IsStep y → IsStep (if b then x else y)
  IsStep-if true x y hx hy = hx
  IsStep-if false x y hx hy = hy

  after_write-IsStep : (st : Download) → IsCollected st → IsStep (after_write info st)
  unfolding after_write transition_to_endgame
  after_write-IsStep st h = elim (Bool-cases (leb (num_pieces info) st.done)) [
    | inl all ↦ rw all (IsCollected-of_eq st _ refl refl h, leb→le (num_pieces info) st.done all)
    | inr some_left ↦ rw some_left (
        IsStep-if (leb (num_pieces info - st.done) endgame_threshold && not st.endgame.active) _ _
          (IsCollected-of_eq st _ refl refl h) h)
  ]

  occurrences-le :
      (index j : ℕ) (is : List ℕ)
      → contains is index ≡ false
      → occurrences j is ≤ 1
      → occurrences j (index ∷ is) ≤ 1
  unfolding occurrences
  occurrences-le index j is new h = elim (Bool-cases (index == j)) [
    | inl same ↦
        ground
          (arith, occurrences-missing index is new, ap (λ k. occurrences k is) (==→eq index j same))
    | inr other ↦ ground arith
  ]

  written-IsStep :
      (index : ℕ) (st : Download) (x : Result Writer.Error (Unit {0}) × Writer)
      → IsCollected st
      → index < num_pieces info
      → contains st.completed index ≡ false
      → IsStep (written info (mark index st) x)
  written-IsStep index st (ok u, w) h lt new = after_write-IsStep _ (record {
    counted = ap suc h.counted;
    distinct = λ j. occurrences-le index j st.completed new (h.distinct j);
    bounded = (lt, h.bounded);
  })
  written-IsStep index st (err e, w) h lt new = tt
  written-IsStep index st (panic, w) h lt new = tt

module _ (sys : System) (info : Info) where
  accept-IsStep :
      (index : ℕ) (piece : Option Bytes) (st : Download)
      → IsCollected info st
      → index < num_pieces info
      → IsStep info (accept sys info index piece st)
  accept-IsStep index none st h lt = h
  accept-IsStep index (some piece) st h lt = elim (Bool-cases (contains st.completed index)) [
    | inl old ↦ rw old h
    | inr new ↦
        rw new (written-IsStep info index st (write_piece sys index piece st.writer) h lt new)
  ]

  step-IsStep :
      (e : Event) (st : Download)
      → IsCollected info st
      → IsIndexed info e
      → IsStep info (step sys info e st)
  unfolding step handle_result
  step-IsStep (arrive r) st h i = accept-IsStep r.index r.piece st h i
  step-IsStep take_work st h i = IsCollected-of_eq info st _ refl refl h
  step-IsStep (put_back pw) st h i = IsCollected-of_eq info st _ refl refl h
  step-IsStep (pick has_piece) st h i = IsCollected-of_eq info st _ refl refl h

  abbrev IsResult : Outcome × Download → Type 0
  IsResult (o, st) = IsEnd info o st

  collect-IsResult :
      (es : List Event) (st : Download)
      → IsCollected info st
      → All (IsIndexed info) es
      → IsResult (collect sys info es st)
  unfolding collect
  collect-IsResult [] st h i = elim (Bool-cases (ltb st.done (num_pieces info))) [
    | inl few ↦ rw few tt
    | inr all ↦ rw all (h, ground arith)
  ]
  collect-IsResult (e ∷ es) st h (i, is) =
      next (step sys info e st) (collect sys info es (step sys info e st).1) (step-IsStep e st h i)
        (λ go. collect-IsResult es (step sys info e st).1 go is)
    where
      next :
          (x : Signal × Download) (rest : Outcome × Download)
          → IsStep info x
          → (IsCollected info x.1 → IsResult rest)
          → IsResult (elim x.0 [ go_on ↦ rest | return_with o ↦ (o, x.1) ])
      next (go_on, st') rest h more = more h
      next (return_with o, st') rest h more = h

  begin-IsCollected : (w : Writer) → IsCollected info (begin info w)
  begin-IsCollected w = record {
    counted = refl;
    distinct = λ j. unfold occurrences in omega arith;
    bounded = tt;
  }

  -- Whatever the workers do, and in whatever order their results arrive: if the download succeeds,
  -- every piece of the torrent is completed, none of them twice.
  pub download_pieces_sound :
      (es : List Event) (w : Writer) (st : Download) (j : ℕ)
      → All (IsIndexed info) es
      → download_pieces sys info es w ≡ (succeeded, st)
      → j < num_pieces info
      → (contains st.completed j ≡ true) × (occurrences j st.completed ≡ 1)
  unfolding download_pieces
  download_pieces_sound es w st j indexed e lt =
      let (h, all) : IsEnd info succeeded st =
        subst IsResult e (collect-IsResult es (begin info w) (begin-IsCollected w) indexed) in
      let there =
        pigeonhole (num_pieces info) j st.completed h.bounded h.distinct
          (omega (arith, all, h.counted)) lt in
      (there, omega (arith, h.distinct j, occurrences-there j st.completed there))
