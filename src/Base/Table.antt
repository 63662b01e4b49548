-- ===== src/Base/Table.antt =====
-- Facts about small numbers, checked by evaluating every case.
use now_os.Base.Tests.{if◌then◌else◌}
use native.Mathlib.Omega.{arith}
use mathlib.Core.Bool.{Bool, true, false}
use mathlib.Core.Path.{◌≡◌}
use Prim.Native.Nat.{ℕ, zero, suc, ◌<◌}

-- Whether a test holds of each number under a bound.
unfoldable pub all_below : (bound : ℕ) → (test : ℕ → Bool) → Bool
all_below zero test = true
all_below (suc k) test = let rest = all_below k test in if test k then rest else false

pub all_below_sound :
    (bound : ℕ) (test : ℕ → Bool) (i : ℕ) → all_below bound test ≡ true → i < bound → test i ≡ true
unfolding all_below
all_below_sound zero test i e small = elim small [ ]
all_below_sound (suc k) test i e small =
    let earlier : all_below k test ≡ true → i < k → test i ≡ true = all_below_sound k test i in
    ground (earlier, arith)
