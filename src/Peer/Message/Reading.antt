-- ===== src/Peer/Message/Reading.antt =====
-- `ReadMessage` takes bytes off the reader: the measure of every loop over messages.
use amish.Base.{
  ℕ, ◌+◌, ◌≤◌, ◌<◌, ◌≡◌, Option, Bytes, ltb, ◌==◌, length, arith, length-drop, Ensures, holds,
  fails, Ensures-if, Ensures->>=, Ensures-weaken,
}
use amish.Base.Wire.{uint32}
use amish.Peer.Message
use amish.Peer.Message.{Message, read_full, read_body, read_message, max_message_len}

abbrev pub Any : Message.Error → Type 0
Any e = Unit {0}

-- What is left behind a message.
abbrev pub Shorter : Bytes → Option Message × Bytes → Type 0
Shorter r (m, rest) = length rest < length r

read_full-Ensures :
    (n : ℕ) (r : Bytes) → Ensures (λ (s, rest). length rest + n ≡ length r) Any (read_full n r)
unfolding read_full
read_full-Ensures n r =
    Ensures-if (ltb (length r) n) (λ _. fails tt) (λ h. holds (ground (arith, length-drop n r)))

read_body-Ensures :
    (n : ℕ) (r : Bytes) → Ensures (λ (m, rest). length rest ≤ length r) Any (read_body n r)
unfolding read_body
read_body-Ensures n r =
    Ensures-if (n == 0) (λ _. holds (omega arith))
      λ _.
        Ensures-if (ltb max_message_len n) (λ _. fails tt)
          λ _. Ensures->>= (read_full-Ensures n r) λ _ h. holds (omega (arith, h))

pub read_message-Ensures : (r : Bytes) → Ensures (Shorter r) Any (read_message r)
unfolding read_message
read_message-Ensures r = Ensures->>= (read_full-Ensures 4 r) λ (hdr, t) h.
    Ensures-weaken (λ _ le. omega (arith, le, h)) (λ _ _. tt) (read_body-Ensures (uint32 hdr) t)
