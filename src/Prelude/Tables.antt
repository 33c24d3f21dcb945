-- ===== src/Prelude/Tables.antt =====
-- Checking a statement for every number below a bound by evaluation.
use Prim.Native.Nat.{ℕ, zero, suc, ◌<◌}
use mathlib.Core.Path.{◌≡◌}
use mathlib.Core.Bool.{Bool, true, ◌&&◌}
use native.Mathlib.Omega.{arith}

unfoldable pub holds_under : (ℕ → Bool) → ℕ → Bool
holds_under test zero = true
holds_under test (suc bound) = holds_under test bound && test bound

pub holds_under-elim :
    (k : ℕ) (test : ℕ → Bool) (bound : ℕ)
    → k < bound
    → holds_under test bound ≡ true
    → test k ≡ true
unfolding holds_under
holds_under-elim k test zero below all = absurd (omega arith)
holds_under-elim k test (suc bound) below all = ground (arith, holds_under-elim k test bound)
