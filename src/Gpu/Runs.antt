-- ===== src/Gpu/Runs.antt =====
-- `measure` of CNvidiaGPU and CAMDGPU.
use xbat_ginkgo.Base.{ℕ, ◌≡◌, refl, ◌<◌, Bool, true, some, List, [], All}
use xbat_ginkgo.Base.Float.{Double}
use xbat_ginkgo.Base.Int.{ℤ, pos, negsuc}
use xbat_ginkgo.Base.Outcome.{Outcome, done, fails, faults}
use xbat_ginkgo.Collector.{Collector, interval_cleanup, sleep_milliseconds_and_check}
use xbat_ginkgo.Collector.Interval.{synchronize_measurement_lem}
use xbat_ginkgo.Collector.Sleep.{sleep_milliseconds_and_check_lem}
use xbat_ginkgo.Gpu.{gpu_turn}
use xbat_ginkgo.Gpu.Nvidia.{Device, measure_nvidia}
use xbat_ginkgo.Gpu.Amd.{Processor, measure_amd}
use xbat_ginkgo.Gpu.Reports.{IsReport-IsAt}
use xbat_ginkgo.Measure.{told, Round, returned, threw, again}
use xbat_ginkgo.Measure.Grid.{IsRun, IsTurn, stop_if, on_read_lem, All-IsStamped, measure-IsRun}
use xbat_ginkgo.Queue.{Entry, IsAt}
use xbat_ginkgo.Gpu.Nvidia
use xbat_ginkgo.Gpu.Amd
use xbat_ginkgo.Gpu.NvidiaReports
use xbat_ginkgo.Gpu.AmdReports

sleep-total : (flag : ℕ → Bool) (a : ℤ) → (t : ℕ) × (sleep_milliseconds_and_check flag a ≡ some t)
unfolding sleep_milliseconds_and_check
sleep-total flag (pos n) = let (t, e, _) = sleep_milliseconds_and_check_lem flag n in (t, e)
sleep-total flag (negsuc n) = (0, refl)

module _ {W : Type 0} where
  pub gpu_turn_lem :
      {Source : Type 0} (collect : ℕ → Source → Outcome (List (Entry W)))
      → ((ts : ℕ) (s : Source) (es : List (Entry W)) → collect ts s ≡ done es → All (IsAt ts) es)
      → (c : Collector) (r : Round Source) → 0 < c.interval
      → IsTurn c (gpu_turn collect c r)
  unfolding gpu_turn interval_cleanup
  gpu_turn_lem collect stamped c r positive =
      let (c', slept, e, sync) = synchronize_measurement_lem c r.flag r.now positive in
      let (t, e') = sleep-total r.sleep_flag c'.time_left in
      rw e (
        stop_if r.stop_first c [] _ tt (
          on_read_lem c (collect c'.interval_end r.first) _ (λ es u. rw e' (
            es,
            again (interval_cleanup c' true r.heartbeat),
            refl,
            All-IsStamped c _ sync.placed.on_grid es (stamped _ r.first es u),
            (sync.same_interval, sync.placed.on_grid),
          ))))

module _ {W : Type 0} ⦃d : Double W⦄ where
  -- With a positive interval, whatever NVML answers: `CNvidiaGPU::measure` returns at once or each
  -- of its rounds ends, by going on, by a result or by an exception, and every time stamp that is
  -- pushed lies a whole, positive number of intervals behind the start time.
  pub measure_nvidia_lem :
      {H : Type 0} (devices : Outcome (List H)) (c : Collector) (rs : List (Round (List Device)))
      → 0 < c.interval
      → IsRun {W = W} c (told rs) (measure_nvidia devices c rs)
  unfolding measure_nvidia
  measure_nvidia_lem (done hs) c rs positive =
      measure-IsRun (gpu_turn Nvidia.collect)
        (gpu_turn_lem Nvidia.collect
          (λ ts s es h. IsReport-IsAt _ ts es (NvidiaReports.collect-IsReport ts s es h)))
        c rs positive
  measure_nvidia_lem fails c rs positive = ([], returned (pos 1), refl, tt, (λ _ h. cc))
  measure_nvidia_lem faults c rs positive = ([], threw, refl, tt, (λ _ h. cc))

  -- With a positive interval, whatever AMD SMI answers: `CAMDGPU::measure` returns at once or each
  -- of its rounds ends, by going on, by a result or by an exception, and every time stamp that is
  -- pushed lies a whole, positive number of intervals behind the start time.
  pub measure_amd_lem :
      {H : Type 0} (processors : Outcome (List (List H))) (c : Collector)
      (rs : List (Round (List (List Processor))))
      → 0 < c.interval
      → IsRun {W = W} c (told rs) (measure_amd processors c rs)
  unfolding measure_amd
  measure_amd_lem (done hs) c rs positive =
      measure-IsRun (gpu_turn Amd.collect)
        (gpu_turn_lem Amd.collect
          (λ ts s es h. IsReport-IsAt _ ts es (AmdReports.collect_lem ts s es h)))
        c rs positive
  measure_amd_lem fails c rs positive = ([], returned (pos 1), refl, tt, (λ _ h. cc))
  measure_amd_lem faults c rs positive = ([], threw, refl, tt, (λ _ h. cc))
