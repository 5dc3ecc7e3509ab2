-- ===== src/Tests/Whole.antt =====
-- Whole numbers in place of `double`, for the runs.
use xbat_ginkgo.Base.{ℕ, ◌+◌, ◌-◌, ◌*◌, ◌/◌, false, ◌==◌}
use xbat_ginkgo.Base.Float.{Double}
use xbat_ginkgo.Base.Int.{ℤ, pos, negsuc}

abbrev pub of_pos : ℤ → ℕ
of_pos (pos n) = n
of_pos (negsuc n) = 0

instance abbrev pub whole : Double ℕ
whole = record {
  of_ℕ = λ n. n;
  of_ℤ = of_pos;
  add = ◌+◌;
  sub = ◌-◌;
  mul = ◌*◌;
  div = ◌/◌;
  eq = ◌==◌;
  is_nan = λ n. false;
}
