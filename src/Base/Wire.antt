-- ===== src/Base/Wire.antt =====
-- encoding/binary's BigEndian, over byte strings: `put_*` gives the bytes of a word, `uint*` reads
-- the first bytes of a slice.
use amish.Base.{
  ℕ, ◌+◌, ◌*◌, ◌/◌, ◌%◌, ◌^◌, ◌<◌, ◌≡◌, [], ◌∷◌, ◌++◌, Bytes, take, drop, length, ap, ap₂, ◌∙◌,
  append_assoc, take-append_past, drop-append_past, arith, All, IsByte,
}

abbrev pub put_u16 : ℕ → Bytes
put_u16 n = n / 2 ^ 8 % 256 ∷ n % 256 ∷ []

abbrev pub put_u32 : ℕ → Bytes
put_u32 n = n / 2 ^ 24 % 256 ∷ n / 2 ^ 16 % 256 ∷ n / 2 ^ 8 % 256 ∷ n % 256 ∷ []

abbrev pub put_u64 : ℕ → Bytes
put_u64 n = put_u32 (n / 2 ^ 32) ++ put_u32 n

abbrev pub uint16 : Bytes → ℕ
uint16 (a ∷ b ∷ _) = a * 256 + b
uint16 _ = 0

abbrev pub uint32 : Bytes → ℕ
uint32 (a ∷ b ∷ c ∷ d ∷ _) = ((a * 256 + b) * 256 + c) * 256 + d
uint32 _ = 0

abbrev pub uint64 : Bytes → ℕ
uint64 s = uint32 s * 2 ^ 32 + uint32 (drop 4 s)

pub uint64-put_u64 : (n : ℕ) (rest : Bytes) → n < 2 ^ 64 → uint64 (put_u64 n ++ rest) ≡ n
uint64-put_u64 n rest h = omega arith

-- `copy(buf[offset:], b)` and the `Put*` functions, for bytes that end within the buffer.
abbrev pub put_at : Bytes → ℕ → Bytes → Bytes
put_at buf offset b = take offset buf ++ (b ++ drop (offset + length b) buf)

-- A write behind a prefix.
pub put_at-append :
    (xs ys : Bytes) (n k : ℕ) (b : Bytes)
    → length xs ≡ n
    → put_at (xs ++ ys) (n + k) b ≡ xs ++ put_at ys k b
put_at-append xs ys n k b e =
    ap₂ (λ s t. s ++ (b ++ t)) (take-append_past n k xs ys e)
      (ap (λ m. drop m (xs ++ ys)) (omega arith) ∙ drop-append_past n (k + length b) xs ys e)
    ∙ append_assoc xs (take k ys) (b ++ drop (k + length b) ys)

pub uint16-put_u16 : (n : ℕ) (rest : Bytes) → n < 2 ^ 16 → uint16 (put_u16 n ++ rest) ≡ n
uint16-put_u16 n rest h = omega arith

pub uint32-put_u32 : (n : ℕ) (rest : Bytes) → n < 2 ^ 32 → uint32 (put_u32 n ++ rest) ≡ n
uint32-put_u32 n rest h = omega arith

pub uint32-lt : (s : Bytes) → All IsByte s → uint32 s < 2 ^ 32
uint32-lt [] h = omega arith
uint32-lt (a ∷ []) h = omega arith
uint32-lt (a ∷ b ∷ []) h = omega arith
uint32-lt (a ∷ b ∷ c ∷ []) h = omega arith
uint32-lt (a ∷ b ∷ c ∷ d ∷ rest) (ha, (hb, (hc, (hd, _)))) = omega arith

-- Four bytes are the word that they hold.
pub put_u32-uint32 :
    (a b c d : ℕ)
    → a < 256
    → b < 256
    → c < 256
    → d < 256
    → put_u32 (((a * 256 + b) * 256 + c) * 256 + d) ≡ a ∷ b ∷ c ∷ d ∷ []
put_u32-uint32 a b c d ha hb hc hd =
    ap₄ (λ x y z w. x ∷ y ∷ z ∷ w ∷ []) (omega arith) (omega arith) (omega arith) (omega arith)
  where
    ap₄ :
        (f : ℕ → ℕ → ℕ → ℕ → Bytes) {x y z w x' y' z' w' : ℕ}
        → x ≡ x'
        → y ≡ y'
        → z ≡ z'
        → w ≡ w'
        → f x y z w ≡ f x' y' z' w'
    ap₄ f p q r t = cc
