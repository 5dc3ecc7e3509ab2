-- ===== src/Interconnect/Rates.antt =====
-- What is pushed for two readings.
use xbat_ginkgo.Base.{ℕ, ◌/◌, ◌≡◌, refl, inl, inr, List, [], ◌∷◌, Bytes, All, Option-cases, subst}
use xbat_ginkgo.Base.Float.{Double}
use xbat_ginkgo.Base.Maps.{Map, lookup, bytes_key}
use xbat_ginkgo.Base.Outcome.{done, done_inj}
use xbat_ginkgo.Interconnect.{Reading, MetricMeta, rates, differences, calculate_usage}
use xbat_ginkgo.Queue.{Entry, IsAt}

rates-IsAt :
    (W : Type 0) ⦃d : Double W⦄ (metric_info : Map Bytes MetricMeta) (interval_s ts : ℕ)
    (difference : Reading)
    → All {A = Entry W} (IsAt ts) (rates metric_info interval_s ts difference)
unfolding rates
rates-IsAt W metric_info interval_s ts [] = tt
rates-IsAt W metric_info interval_s ts ((key, value) ∷ difference) =
    elim (Option-cases (lookup key metric_info)) [
      | inl e ↦ rw (e, rates, All) (rates-IsAt W metric_info interval_s ts difference)
      | inr (meta, e) ↦ rw (e, rates, All) (refl, rates-IsAt W metric_info interval_s ts difference)
    ]

module _ {W : Type 0} ⦃d : Double W⦄ where
  pub calculate_usage-IsAt :
      (metric_info : Map Bytes MetricMeta) (interval ts : ℕ) (previous current : Reading)
      (es : List (Entry W))
      → calculate_usage metric_info interval ts previous current ≡ done es
      → All (IsAt ts) es
  unfolding calculate_usage
  calculate_usage-IsAt metric_info interval ts previous current es h =
      subst (All (IsAt ts)) (done_inj h)
        (rates-IsAt W metric_info (interval / 1000) ts (differences previous current []))
