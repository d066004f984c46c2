-- ===== src/Base/Int.antt =====
-- Signed integers over the native numbers, and Go's int64 (also its int, on a 64-bit platform).
use amish.Base.{
  ℕ, suc, ◌+◌, ◌-◌, ◌*◌, ◌%◌, ◌^◌, ◌≤◌, ◌<◌, ◌≡◌, ap, ◌∙◌, Bool, arith, ltb, leb, ◌==◌,
  if◌then◌else◌,
}

-- `negsuc n` is -(n + 1).
pub data ℤ : Type 0 where
  pos : ℕ → ℤ
  negsuc : ℕ → ℤ

abbrev pub pos_part : ℤ → ℕ
pos_part (pos n) = n
pos_part (negsuc n) = 0

abbrev pub neg_part : ℤ → ℕ
neg_part (pos n) = 0
neg_part (negsuc n) = suc n

-- a - b, as an integer.
abbrev pub sub_ℕ : ℕ → ℕ → ℤ
sub_ℕ a b = if leb b a then pos (a - b) else negsuc (b - a - 1)

infixl 65 ◌+ℤ◌ ◌-ℤ◌
infixl 70 ◌*ℤ◌
infix 50 ◌≤ℤ◌
unfoldable pub ◌+ℤ◌ : ℤ → ℤ → ℤ
a +ℤ b = sub_ℕ (pos_part a + pos_part b) (neg_part a + neg_part b)

unfoldable pub ◌-ℤ◌ : ℤ → ℤ → ℤ
a -ℤ b = sub_ℕ (pos_part a + neg_part b) (neg_part a + pos_part b)

unfoldable pub ◌*ℤ◌ : ℤ → ℤ → ℤ
a *ℤ b =
    sub_ℕ (pos_part a * pos_part b + neg_part a * neg_part b)
      (pos_part a * neg_part b + neg_part a * pos_part b)

abbrev pub ◌≤ℤ◌ : ℤ → ℤ → Type 0
a ≤ℤ b = pos_part a + neg_part b ≤ pos_part b + neg_part a

-- `a <= b`, `a < b` and `a == b` of the source.
abbrev pub le_int : ℤ → ℤ → Bool
le_int a b = leb (pos_part a + neg_part b) (pos_part b + neg_part a)

abbrev pub lt_int : ℤ → ℤ → Bool
lt_int a b = ltb (pos_part a + neg_part b) (pos_part b + neg_part a)

abbrev pub eq_int : ℤ → ℤ → Bool
eq_int a b = (pos_part a + neg_part b) == (pos_part b + neg_part a)

-- The integers that an int64 holds: -2^63 up to 2^63 - 1.
abbrev pub IsInt64 : ℤ → Type 0
IsInt64 z = (pos_part z < 2 ^ 63) × (neg_part z ≤ 2 ^ 63)

-- The 64-bit pattern of an integer, and the int64 of a pattern.
abbrev pub to_word : ℤ → ℕ
to_word z = (pos_part z + 2 ^ 64 - neg_part z % 2 ^ 64) % 2 ^ 64

abbrev pub of_word : ℕ → ℤ
of_word w = if ltb w (2 ^ 63) then pos w else negsuc (2 ^ 64 - w - 1)

-- What int64 arithmetic keeps of an exact result.
unfoldable pub wrap : ℤ → ℤ
wrap z = of_word (to_word z)

pub wrap-pos : (n : ℕ) → n < 2 ^ 63 → wrap (pos n) ≡ pos n
unfolding wrap
wrap-pos n h = ground arith

pub wrap-IsInt64 : (z : ℤ) → IsInt64 (wrap z)
unfolding wrap
wrap-IsInt64 z = ground arith

pub wrap-eq_of_IsInt64 : (z : ℤ) → IsInt64 z → wrap z ≡ z
unfolding wrap
wrap-eq_of_IsInt64 (pos n) h = ground arith
wrap-eq_of_IsInt64 (negsuc n) h = ground arith

-- The arithmetic of numbers that are not negative, where it does not overflow.
pub add-pos : (a b : ℕ) → pos a +ℤ pos b ≡ pos (a + b)
unfolding ◌+ℤ◌
add-pos a b = ground arith

pub sub-pos : (a b : ℕ) → b ≤ a → pos a -ℤ pos b ≡ pos (a - b)
unfolding ◌-ℤ◌
sub-pos a b h = ground arith

pub mul-pos : (a b : ℕ) → pos a *ℤ pos b ≡ pos (a * b)
unfolding ◌*ℤ◌
mul-pos a b = ground arith

pub wrap-add-pos : (a b : ℕ) → a + b < 2 ^ 63 → wrap (pos a +ℤ pos b) ≡ pos (a + b)
wrap-add-pos a b h = ap wrap (add-pos a b) ∙ wrap-pos (a + b) h

pub wrap-sub-pos : (a b : ℕ) → b ≤ a → a < 2 ^ 63 → wrap (pos a -ℤ pos b) ≡ pos (a - b)
wrap-sub-pos a b h lt = ap wrap (sub-pos a b h) ∙ wrap-pos (a - b) (omega arith)

pub wrap-mul-pos : (a b : ℕ) → a * b < 2 ^ 63 → wrap (pos a *ℤ pos b) ≡ pos (a * b)
wrap-mul-pos a b h = ap wrap (mul-pos a b) ∙ wrap-pos (a * b) h
