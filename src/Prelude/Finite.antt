-- ===== src/Prelude/Finite.antt =====
-- Facts about small numbers, found out by running a test.
use Prim.Native.Nat.{ℕ, zero, suc, ◌<◌}
use mathlib.Core.Path.{◌≡◌}
use mathlib.Core.Bool.{Bool, true, ◌&&◌}
use native.Mathlib.Omega.{arith}

-- A test that holds below `n`, found out by running it.
unfoldable pub holds_below : (ℕ → Bool) → ℕ → Bool
holds_below test zero = true
holds_below test (suc n) = holds_below test n && test n

pub holds_below_lem :
    (test : ℕ → Bool) (n x : ℕ) → holds_below test n ≡ true → x < n → test x ≡ true
unfolding holds_below
holds_below_lem test zero x h lt = absurd (omega arith)
holds_below_lem test (suc n) x h lt = ground (arith, holds_below_lem test n x)
