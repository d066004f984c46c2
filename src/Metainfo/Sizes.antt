-- ===== src/Metainfo/Sizes.antt =====
-- The sizes of the pieces: each is the piece length, but for what the last one has left, and they
-- add up to the size of the torrent.
use amish.Base.{
  ℕ, zero, suc, ◌+◌, ◌*◌, ◌-◌, ◌^◌, ◌≤◌, ◌<◌, ◌≡◌, ap, ◌∙◌, List, [], ◌∷◌, if◌then◌else◌, min,
  arith,
}
use amish.Base.Int.{pos, pos_part, lt_int, wrap, ◌+ℤ◌, wrap-add-pos, wrap-sub-pos, wrap-mul-pos}
use amish.Metainfo.{File, Info, sum_files, total_length, piece_size}

abbrev pub sum : List ℕ → ℕ
sum [] = 0
sum (n ∷ ns) = n + sum ns

-- The files have these sizes, none of them negative.
abbrev pub HasSizes : List File → List ℕ → Type 0
HasSizes [] [] = Unit {0}
HasSizes (f ∷ fs) (n ∷ ns) = (f.size ≡ pos n) × HasSizes fs ns
HasSizes _ _ = ⊥

sum_files-sum :
    (fs : List File) (ns : List ℕ) (total : ℕ)
    → HasSizes fs ns
    → total + sum ns < 2 ^ 63
    → sum_files (pos total) fs ≡ pos (total + sum ns)
unfolding sum_files
sum_files-sum [] [] total e h = ap pos (omega arith)
sum_files-sum [] (n ∷ ns) total e h = absurd e
sum_files-sum (f ∷ fs) [] total e h = absurd e
sum_files-sum (f ∷ fs) (n ∷ ns) total (e, es) h =
    ap (λ m. sum_files (wrap (pos total +ℤ m)) fs) e
    ∙ ap (λ m. sum_files m fs) (wrap-add-pos total n (omega arith))
    ∙ sum_files-sum fs ns (total + n) es (omega arith)
    ∙ ap pos (omega arith)

-- A torrent of several files is as long as they are together, if that fits an int64.
pub total_length-sum :
    (info : Info) (ns : List ℕ)
    → info.size ≡ pos 0
    → HasSizes info.files ns
    → sum ns < 2 ^ 63
    → total_length info ≡ pos (sum ns)
unfolding total_length
total_length-sum info ns z e h =
    ap (λ m. if lt_int (pos 0) m then m else sum_files (pos 0) info.files) z
    ∙ sum_files-sum info.files ns 0 e (omega arith)
    ∙ ap pos (omega arith)

pub total_length_single :
    (info : Info) (n : ℕ) → info.size ≡ pos n → 0 < n → total_length info ≡ pos n
unfolding total_length
total_length_single info n e h = ground arith

-- A piece that starts within the torrent has the piece length, or what is left of the torrent.
pub piece_size-min :
    (info : Info) (total p index : ℕ)
    → total_length info ≡ pos total
    → info.piece_length ≡ pos p
    → total < 2 ^ 63
    → index * p ≤ total
    → piece_size info index ≡ pos (min p (total - index * p))
unfolding piece_size
piece_size-min info total p index et ep fits h =
    rw (ep, et, wrap-mul-pos index p (omega arith), wrap-sub-pos total (index * p) h fits)
      (ground arith)

-- The sizes of the first `n` pieces, added up.
unfoldable pub sizes_below : Info → ℕ → ℕ
sizes_below info zero = 0
sizes_below info (suc n) = sizes_below info n + pos_part (piece_size info n)

-- The pieces before one that starts within the torrent are whole.
pub sizes_below-mul :
    (info : Info) (total p n : ℕ)
    → total_length info ≡ pos total
    → info.piece_length ≡ pos p
    → total < 2 ^ 63
    → n * p ≤ total
    → sizes_below info n ≡ n * p
unfolding sizes_below
sizes_below-mul info total p zero et ep fits h = omega arith
sizes_below-mul info total p (suc n) et ep fits h =
    let before : n * p + p ≤ total = grind arith in
    rw (piece_size-min info total p n et ep fits (omega arith))
      (grind (arith, sizes_below-mul info total p n et ep fits (omega arith)))

-- The sizes of all pieces add up to the size of the torrent, and none of them is negative: the last
-- piece is the one that reaches the end.
pub sizes_below_total :
    (info : Info) (total p n : ℕ)
    → total_length info ≡ pos total
    → info.piece_length ≡ pos p
    → total < 2 ^ 63
    → n * p < total
    → total ≤ suc n * p
    → sizes_below info (suc n) ≡ total
unfolding sizes_below
sizes_below_total info total p n et ep fits lo hi =
    let last : total ≤ n * p + p = grind arith in
    rw
      (
        piece_size-min info total p n et ep fits (omega arith),
        sizes_below-mul info total p n et ep fits (omega arith),
      )
      (omega arith)
