-- ===== src/Peer/Message/Sound.antt =====
-- What `ReadMessage` accepts: the writes of messages, and nothing else.
use amish.Base.{
  ℕ, ◌+◌, ◌-◌, ◌^◌, ◌≡◌, ◌≤◌, ◌<◌, ◌≢◌, refl, ap, ◌∙◌, Option, none, [], ◌∷◌, ◌++◌, Bytes, ltb,
  ◌==◌, length, Result, ok, err, ◌>>=◌, arith, lengths, length-take, inl, inr, ◌⊎◌, All,
  take-append-drop, ◌↔◌, IsByte, sym, ltb→lt, Ensures, holds, fails, panics, Ensures-weaken, subst,
  Ensures-if, Ensures->>=, Ensures-ok, Ensures-err, ==_iff,
}
use native.Mathlib.Nat.{mod-eq_of_lt}
use amish.Base.Wire.{put_u32, uint32, put_u32-uint32}
use amish.Peer.Message.{
  Error, Message, message_too_large, unexpected_eof, max_message_len, read_full, read_body,
  read_message, write_message, message_of,
}
use amish.Peer.Message.RoundTrip.{Fits, read_message-write_message}

-- Short input is the one failure of `io.ReadFull`.
read_full-Ensures :
    (n : ℕ) (r : Bytes)
    → Ensures
        (λ (s, rest). (length s ≡ n) × (r ≡ s ++ rest))
        (λ e. (e ≡ unexpected_eof) × (length r < n))
        (read_full n r)
unfolding read_full
read_full-Ensures n r =
    Ensures-if (ltb (length r) n) (λ e. fails (refl, ltb→lt (length r) n e))
      λ e. holds (ground (arith, e, length-take n r), sym (take-append-drop n r))

-- A buffer of the length in the header is the write of its message.
message_of-Fits :
    (n : ℕ) (buf rest : Bytes)
    → length buf ≡ n
    → n ≢ 0
    → n ≤ max_message_len
    → Fits (message_of buf) × (put_u32 n ++ (buf ++ rest) ≡ write_message (message_of buf) ++ rest)
unfolding write_message
message_of-Fits n [] rest e z le = absurd (z (omega arith))
message_of-Fits n (b ∷ s) rest e z le = (
  omega arith,
  ap (λ k. put_u32 k ++ b ∷ (s ++ rest))
      (omega (arith, mod-eq_of_lt {n = 1 + length s} {m = 2 ^ 32} (omega arith))),
)

-- The errors of `ReadMessage`, by the length `n` in the header.
abbrev pub Refuses : ℕ → ℕ → Error → Type 0
Refuses n size e =
    ((e ≡ message_too_large) × (max_message_len < n))
    ⊎ ((e ≡ unexpected_eof) × (n ≤ max_message_len) × (size < n))

read_body-Ensures :
    (n : ℕ) (r : Bytes)
    → Ensures
        (λ (m, rest). Fits m × (put_u32 n ++ r ≡ write_message m ++ rest))
        (Refuses n (length r))
        (read_body n r)
unfolding read_body
read_body-Ensures n r =
    Ensures-if (n == 0) (λ z. holds (tt, no_bytes ((==_iff n 0).0 z)))
      λ z.
        Ensures-if (ltb max_message_len n) (λ big. fails (inl (refl, ltb→lt max_message_len n big)))
          λ fits. body (ground (arith, z)) (ground (arith, fits)) (read_full-Ensures n r)
  where
    no_bytes : n ≡ 0 → put_u32 n ++ r ≡ write_message none ++ r
    no_bytes z = unfold write_message in ap (λ k. put_u32 k ++ r) z

    body :
        n ≢ 0
        → n ≤ max_message_len
        → {m : Result Error (Bytes × Bytes)}
        → Ensures
            (λ (s, rest). (length s ≡ n) × (r ≡ s ++ rest))
            (λ e. (e ≡ unexpected_eof) × (length r < n))
            m
        → Ensures
            (λ (m, rest). Fits m × (put_u32 n ++ r ≡ write_message m ++ rest))
            (Refuses n (length r))
            (m >>= λ (buf, rest). ok (message_of buf, rest))
    body z le (holds {a} (size, whole)) =
        let (fit, bytes) = message_of-Fits n a.0 a.1 size z le in
        holds (fit, ap (λ t. put_u32 n ++ t) whole ∙ bytes)
    body z le (fails (e, short)) = fails (inr (e, le, short))
    body z le panics = panics

-- A header of four bytes is the word that it holds.
put_u32_header : (r : Bytes) → All IsByte r → length r ≡ 4 → put_u32 (uint32 r) ≡ r
put_u32_header (a ∷ b ∷ c ∷ d ∷ []) (ha, (hb, (hc, (hd, _)))) e = put_u32-uint32 a b c d ha hb hc hd
put_u32_header [] h e = absurd (omega arith)
put_u32_header (a ∷ []) h e = absurd (omega arith)
put_u32_header (a ∷ b ∷ []) h e = absurd (omega arith)
put_u32_header (a ∷ b ∷ c ∷ []) h e = absurd (omega arith)
put_u32_header (a ∷ b ∷ c ∷ d ∷ x ∷ r) h e = absurd (omega arith)

uint32-append : (s rest : Bytes) → length s ≡ 4 → uint32 (s ++ rest) ≡ uint32 s
uint32-append (a ∷ b ∷ c ∷ d ∷ s) rest e = refl
uint32-append [] rest e = absurd (omega arith)
uint32-append (a ∷ []) rest e = absurd (omega arith)
uint32-append (a ∷ b ∷ []) rest e = absurd (omega arith)
uint32-append (a ∷ b ∷ c ∷ []) rest e = absurd (omega arith)

All-prefix : (s rest : Bytes) → All IsByte (s ++ rest) → All IsByte s
All-prefix [] rest h = tt
All-prefix (c ∷ s) rest (hc, h) = (hc, All-prefix s rest h)

-- Every way in which `ReadMessage` fails.
abbrev pub Fails : Bytes → Error → Type 0
Fails r e =
    ((e ≡ unexpected_eof) × (length r < 4)) ⊎ ((4 ≤ length r) × Refuses (uint32 r) (length r - 4) e)

abbrev Accepts : Bytes → Option Message × Bytes → Type 0
Accepts r (m, rest) = Fits m × (r ≡ write_message m ++ rest)

Refuses-Fails :
    (hdr t r : Bytes) (e : Error)
    → length hdr ≡ 4
    → r ≡ hdr ++ t
    → Refuses (uint32 hdr) (length t) e
    → Fails r e
Refuses-Fails hdr t r e size whole h =
    inr (omega (lengths, ap length whole), subst (λ n. Refuses n (length r - 4) e) word bound)
  where
    word : uint32 hdr ≡ uint32 r
    word = sym (uint32-append hdr t size) ∙ ap uint32 (sym whole)

    bound : Refuses (uint32 hdr) (length r - 4) e
    bound = subst (λ n. Refuses (uint32 hdr) n e) (omega (lengths, ap length whole)) h

read_message-Ensures : (r : Bytes) → All IsByte r → Ensures (Accepts r) (Fails r) (read_message r)
unfolding read_message
read_message-Ensures r h =
    Ensures->>= {r = read_full 4 r} {f = λ (hdr, t). read_body (uint32 hdr) t}
      (Ensures-weaken (λ _ k. k) (λ _ k. inl k) (read_full-Ensures 4 r))
      λ (hdr, t) k.
        Ensures-weaken (λ (m, rest) b. (b.0, accepted hdr t k.0 k.1 b.1))
          (λ e. Refuses-Fails hdr t r e k.0 k.1) (read_body-Ensures (uint32 hdr) t)
  where
    accepted :
        (hdr t : Bytes) {w : Bytes}
        → length hdr ≡ 4
        → r ≡ hdr ++ t
        → put_u32 (uint32 hdr) ++ t ≡ w
        → r ≡ w
    accepted hdr t size whole e =
        whole
        ∙ ap (λ s. s ++ t) (sym (put_u32_header hdr (All-prefix hdr t (rw whole at h)) size))
        ∙ e

-- On an input of bytes, `ReadMessage` returns a message, or a keep-alive, exactly when the input starts with what
-- `WriteMessage` writes for it and it is not too large; the rest is what follows.
pub read_message-eq-ok_iff :
    (r : Bytes) (m : Option Message) (rest : Bytes)
    → All IsByte r
    → (read_message r ≡ ok (m, rest)) ↔ (Fits m × (r ≡ write_message m ++ rest))
read_message-eq-ok_iff r m rest h = (
  Ensures-ok (read_message-Ensures r h),
  λ (fit, e). rw e (read_message-write_message m rest fit),
)

-- On an input of bytes, `ReadMessage` fails only if fewer than four bytes are left, if the length in the header is above the limit
-- (whatever follows), or if fewer bytes than that length follow, each with its own error.
pub read_message-eq-err :
    (r : Bytes) (e : Error) → All IsByte r → read_message r ≡ err e → Fails r e
read_message-eq-err r e h = Ensures-err (read_message-Ensures r h)
