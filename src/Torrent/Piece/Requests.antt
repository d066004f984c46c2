-- ===== src/Torrent/Piece/Requests.antt =====
-- The requests of a download: one block after the other, and never too many at once.
use amish.Base.{
  ℕ, zero, suc, ◌+◌, ◌-◌, ◌*◌, ◌≤◌, ◌<◌, ◌≡◌, ◌≢◌, refl, ap₂, true, ◌&&◌, List, [], ◌∷◌, ◌++◌, ltb,
  ◌==◌, length, min, arith, Ensures, holds, fails, Ensures-if,
}
use amish.Peer.Message.{Message, block_size}
use amish.Torrent.Endgame.{PieceWork}
use amish.Torrent.Piece.{Error, out_of_fuel, Progress, max_backlog, request_of, send_requests}

-- The requests for the first blocks of a piece, in order; the last block may be shorter.
unfoldable pub planned : PieceWork → ℕ → ℕ → List Message
planned pw size zero = []
planned pw size (suc k) =
    planned pw size k
    ++ request_of pw (k * block_size) (min block_size (size - k * block_size)) ∷ []

-- The buffer has the size of the piece; the requests sent are the first ones of the plan, and at
-- most sixteen more than the blocks that came.
pub record IsProgress (pw : PieceWork) (size : ℕ) (st : Progress) : Type 0 where
  pub sized : length st.buf ≡ size
  pub in_order : st.sent ≡ planned pw size st.asked
  pub reached : st.requested ≡ min (st.asked * block_size) size
  pub limited : st.asked ≤ st.answered + max_backlog

-- An error that is not the model's own.
abbrev pub IsReal : Error → Type 0
IsReal e = e ≢ out_of_fuel

-- Requests leave what is still to come alone.
abbrev pub Requested : PieceWork → ℕ → Progress → Progress → Type 0
Requested pw size st st' = IsProgress pw size st' × (st'.incoming ≡ st.incoming)

abbrev ask : PieceWork → ℕ → Progress → Progress
ask pw size st =
    let block = min block_size (size - st.requested) in
    record st {
      requested = st.requested + block;
      asked = suc st.asked;
      sent = st.sent ++ request_of pw st.requested block ∷ [];
      room = st.room - 1;
    }

ask-IsProgress :
    (pw : PieceWork) (size : ℕ) (st : Progress)
    → IsProgress pw size st
    → st.asked < st.answered + max_backlog
    → st.requested < size
    → IsProgress pw size (ask pw size st)
ask-IsProgress pw size st h few left =
    let whole : st.requested ≡ st.asked * block_size = omega (arith, h.reached) in
    record {
      sized = h.sized;
      in_order =
          unfold planned in
          ap₂ (λ l n. l ++ request_of pw n (min block_size (size - n)) ∷ []) h.in_order whole;
      reached = omega (arith, h.reached);
      limited = omega arith;
    }

pub send_requests-Ensures :
    (pw : PieceWork) (size fuel : ℕ) (st : Progress)
    → IsProgress pw size st
    → Ensures (Requested pw size st) IsReal (send_requests pw size fuel st)
unfolding send_requests
send_requests-Ensures pw size zero st h = holds (h, refl)
send_requests-Ensures pw size (suc fuel) st h =
    Ensures-if (ltb st.asked (st.answered + max_backlog) && ltb st.requested size)
      (λ more.
        Ensures-if (st.room == 0) (λ _. fails (λ e. cc))
          (λ _.
            let (few, left) = both st.asked (st.answered + max_backlog) st.requested size more in
            send_requests-Ensures pw size fuel (ask pw size st)
              (ask-IsProgress pw size st h few left)))
      (λ _. holds (h, refl))
  where
    both : (a b c d : ℕ) → ltb a b && ltb c d ≡ true → (a < b) × (c < d)
    both a b c d h = ground arith
