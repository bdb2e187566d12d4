-- ===== src/Common/Tables.antt =====
-- Facts about small ranges, by evaluation.
use Prim.Native.Nat.{ℕ, zero, suc, ◌<◌}
use mathlib.Core.Path.{◌≡◌}
use mathlib.Core.Bool.{Bool, true, ◌&&◌}
use native.Mathlib.Omega.{arith}

unfoldable pub check_below : ℕ → (ℕ → Bool) → Bool
check_below zero test = true
check_below (suc n) test = test n && check_below n test

pub check_below_holds :
    (n : ℕ) (test : ℕ → Bool) (x : ℕ) → check_below n test ≡ true → x < n → test x ≡ true
unfolding check_below
check_below_holds zero test x h lt = absurd (omega arith)
check_below_holds (suc n) test x h lt = ground (arith, check_below_holds n test x)
