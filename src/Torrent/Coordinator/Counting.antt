-- ===== src/Torrent/Coordinator/Counting.antt =====
-- Indices in a list: how often each of them stands there.
use amish.Base.{
  ==→eq, ℕ, zero, suc, ◌+◌, ◌≤◌, ◌<◌, ◌≡◌, refl, ap, true, false, List, [], ◌∷◌, ltb, ◌==◌,
  if◌then◌else◌, length, arith, All, Bool-cases, inl, inr,
}
use amish.Torrent.Endgame.{contains}

-- How often an index stands in a list.
unfoldable pub occurrences : ℕ → List ℕ → ℕ
occurrences j [] = 0
occurrences j (i ∷ is) = (if i == j then 1 else 0) + occurrences j is

-- The occurrences of all indices below a bound.
unfoldable tally : ℕ → List ℕ → ℕ
tally zero is = 0
tally (suc n) is = tally n is + occurrences n is

tally-nil : (n : ℕ) → tally n [] ≡ 0
unfolding tally occurrences
tally-nil zero = refl
tally-nil (suc n) = omega (arith, tally-nil n)

tally-cons : (n i : ℕ) (is : List ℕ) → tally n (i ∷ is) ≡ (if ltb i n then 1 else 0) + tally n is
unfolding tally occurrences
tally-cons zero i is = ground arith
tally-cons (suc n) i is = ground (arith, tally-cons n i is)

tally-length : (n : ℕ) (is : List ℕ) → All (λ i. i < n) is → tally n is ≡ length is
tally-length n [] h = tally-nil n
tally-length n (i ∷ is) (lt, h) = ground (arith, tally-cons n i is, tally-length n is h, lt)

tally-le : (n : ℕ) (is : List ℕ) → ((j : ℕ) → occurrences j is ≤ 1) → tally n is ≤ n
unfolding tally
tally-le zero is h = omega arith
tally-le (suc n) is h = omega (arith, tally-le n is h, h n)

tally-missing :
    (n j : ℕ) (is : List ℕ)
    → ((k : ℕ) → occurrences k is ≤ 1)
    → occurrences j is ≡ 0
    → j < n
    → tally n is < n
unfolding tally
tally-missing zero j is h e lt = absurd (omega arith)
tally-missing (suc n) j is h e lt = elim (Bool-cases (j == n)) [
  | inl same ↦ ground (arith, tally-le n is h, ap (λ k. occurrences k is) (==→eq j n same))
  | inr other ↦ ground (arith, tally-missing n j is h e, h n)
]

pub occurrences-missing : (j : ℕ) (is : List ℕ) → contains is j ≡ false → occurrences j is ≡ 0
unfolding contains occurrences
occurrences-missing j [] h = refl
occurrences-missing j (i ∷ is) h = ground (arith, occurrences-missing j is)

pub occurrences-there : (j : ℕ) (is : List ℕ) → contains is j ≡ true → 0 < occurrences j is
unfolding contains occurrences
occurrences-there j [] h = ground arith
occurrences-there j (i ∷ is) h = ground (arith, occurrences-there j is)

-- Different indices below `n`, at least `n` of them, are all of them.
pub pigeonhole :
    (n j : ℕ) (is : List ℕ)
    → All (λ i. i < n) is
    → ((k : ℕ) → occurrences k is ≤ 1)
    → n ≤ length is
    → j < n
    → contains is j ≡ true
pigeonhole n j is bounded distinct many lt = elim (Bool-cases (contains is j)) [
  | inl there ↦ there
  | inr missing ↦ absurd (
      omega (
        arith,
        tally-length n is bounded,
        tally-missing n j is distinct (occurrences-missing j is missing) lt,
        many,
      ))
]

tally-le_length : (n : ℕ) (is : List ℕ) → tally n is ≤ length is
tally-le_length n [] = omega (arith, tally-nil n)
tally-le_length n (i ∷ is) = ground (arith, tally-cons n i is, tally-le_length n is)

tally-ge : (n : ℕ) (is : List ℕ) → ((j : ℕ) → j < n → contains is j ≡ true) → n ≤ tally n is
unfolding tally
tally-ge zero is h = omega arith
tally-ge (suc n) is h =
    omega
      (arith, tally-ge n is (λ j lt. h j (omega arith)), occurrences-there n is (h n (omega arith)))

-- A list that holds every index below `n` is as long.
pub covers-length : (n : ℕ) (is : List ℕ) → ((j : ℕ) → j < n → contains is j ≡ true) → n ≤ length is
covers-length n is h = omega (arith, tally-ge n is h, tally-le_length n is)
