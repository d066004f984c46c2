-- ===== src/Base/Order.antt =====
-- `<` on the native numbers is well founded.
use mathlib.Core.WellFounded.{Acc, WellFounded}
use amish.Base.{ℕ, zero, suc, ◌<◌, arith}

below-Acc : (k n : ℕ) → n < k → Acc ◌<◌ n
below-Acc zero n h = absurd (omega arith)
below-Acc (suc k) n h = Acc.intro n λ m lt. below-Acc k m (omega arith)

unfoldable pub lt_wf : WellFounded ◌<◌
unfolding below-Acc
lt_wf = record { apply = λ n. below-Acc (suc n) n (omega arith) }
