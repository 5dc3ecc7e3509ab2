-- ===== src/Base/Float.antt =====
-- What the daemon does with a `double`, as an interface: the laws it relies on are hypotheses of the
-- theorems that need them.
use Prim.Native.Nat.{ℕ}
use mathlib.Core.Bool.{Bool}
use xbat_ginkgo.Base.Int.{ℤ}

pub record Double {ℓ} (W : Type ℓ) : Type ℓ where
  pub of_ℕ : ℕ → W
  pub of_ℤ : ℤ → W
  pub add : W → W → W
  pub sub : W → W → W
  pub mul : W → W → W
  pub div : W → W → W
  pub eq : W → W → Bool
  pub is_nan : W → Bool
