-- ===== src/Base/Bits.antt =====
-- Facts about `bit_and` and `bit_or` over a byte, by evaluation of every case.
use amish.Base.{ℕ, zero, suc, ◌<◌, ◌≡◌, Bool, true, false, if◌then◌else◌, arith}

unfoldable pub holds_below : (ℕ → Bool) → ℕ → Bool
holds_below test zero = true
holds_below test (suc bound) =
    let smaller = holds_below test bound in if test bound then smaller else false

-- What evaluation found below a bound holds of each number there.
pub holds_below_at :
    (bound k : ℕ) (test : ℕ → Bool) → k < bound → holds_below test bound ≡ true → test k ≡ true
unfolding holds_below
holds_below_at zero k test below found = absurd (omega arith)
holds_below_at (suc bound) k test below found = ground (arith, holds_below_at bound k test)
