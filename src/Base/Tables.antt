-- ===== src/Base/Tables.antt =====
-- A test that holds of every number below a bound, by evaluation.
use Prim.Native.Nat.{ℕ, zero, suc, ◌<◌}
use mathlib.Core.Path.{◌≡◌}
use mathlib.Core.Bool.{Bool, true, ◌&&◌}
use native.Mathlib.Omega.{arith}

module _ (test : ℕ → Bool) where
  unfoldable pub is_table : ℕ → Bool
  is_table zero = true
  is_table (suc bound) = let rest = is_table bound in rest && test bound

  -- What the table was computed for holds of each number.
  pub look_up : {k : ℕ} (bound : ℕ) → is_table bound ≡ true → k < bound → test k ≡ true
  unfolding is_table
  look_up {k} zero found small = absurd (omega arith)
  look_up {k} (suc bound) found small = ground (arith, look_up {k = k} bound)
