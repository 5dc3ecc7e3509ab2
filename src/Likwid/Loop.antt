-- ===== src/Likwid/Loop.antt =====
-- CLikwidPerfctr::measure.
use xbat_ginkgo.Base.{ℕ, List, [], ◌∷◌, Option, some, Bytes, if◌then◌else◌, ◌>>=◌, true}
use xbat_ginkgo.Base.Float.{Double}
use xbat_ginkgo.Base.Int.{pos}
use xbat_ginkgo.Base.Outcome.{Outcome, done, fails, faults}
use xbat_ginkgo.Collector.{Collector, synchronize_measurement, interval_cleanup}
use xbat_ginkgo.Likwid.{
  Metrics, Prepared, MetricDetails, Answers, parse_metrics, prepare_measurements,
}
use xbat_ginkgo.Likwid.Sets.{Cycle, Measured, measure_sets}
use xbat_ginkgo.Measure.{Round, Ending, running, returned, threw, follow, again}
use xbat_ginkgo.Queue.{Entry}
use xbat_ginkgo.Topology.{CpuTopology}

module _ {ℓ} {W : Type ℓ} ⦃d : Double W⦄ where
  -- What the loop does with the result of `measureSets`, and the rounds behind it.
  unfoldable pub after_sets :
      (ℕ → Collector → Option (List (Entry W) × Ending))
      → Collector
      → ℕ
      → Outcome (Measured W)
      → Option (List (Entry W) × Ending)
  after_sets rest c heartbeat (done (es, overhead)) =
      follow (rest overhead) (es, again (interval_cleanup c true heartbeat))
  after_sets rest c heartbeat fails = some ([], returned (pos 1))
  after_sets rest c heartbeat faults = some ([], threw)

  unfoldable pub likwid_loop :
      Prepared
      → CpuTopology
      → Metrics
      → ℕ
      → Collector
      → List (Round (Cycle W))
      → Option (List (Entry W) × Ending)
  unfolding after_sets measure_sets
  likwid_loop p topology metrics overhead c [] = some ([], running)
  likwid_loop p topology metrics overhead c (r ∷ rs) =
      if r.stop_head then some ([], returned (pos 0)) else (do
        (c', _) ← synchronize_measurement c r.flag r.now
        if r.stop_first
            then some ([], returned (pos 0))
            else after_sets (λ overhead' c''. likwid_loop p topology metrics overhead' c'' rs) c'
                r.heartbeat
                (measure_sets p topology metrics c'.interval_end c'.time_left overhead r.first))

  -- `cycleOverhead` is 1000 at first.
  unfoldable pub with_prepared :
      Outcome Metrics
      → Outcome Prepared
      → CpuTopology
      → Collector
      → List (Round (Cycle W))
      → Option (List (Entry W) × Ending)
  unfolding likwid_loop
  with_prepared (done metrics) (done p) topology c rs = likwid_loop p topology metrics 1000 c rs
  with_prepared (done metrics) fails topology c rs = some ([], returned (pos 1))
  with_prepared (done metrics) faults topology c rs = some ([], threw)
  with_prepared fails p topology c rs = some ([], threw)
  with_prepared faults p topology c rs = some ([], threw)

  unfoldable pub measure_likwid :
      Option (List (Bytes × List (Bytes × MetricDetails)))
      → Answers
      → CpuTopology
      → Collector
      → List (Round (Cycle W))
      → Option (List (Entry W) × Ending)
  unfolding parse_metrics prepare_measurements with_prepared
  measure_likwid file likwid topology c rs =
      with_prepared (parse_metrics file) (prepare_measurements likwid) topology c rs
