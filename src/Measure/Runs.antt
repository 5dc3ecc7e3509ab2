-- ===== src/Measure/Runs.antt =====
-- `measure` of the collectors for the CPU, the networks and the memory.
use xbat_ginkgo.Base.{refl, ◌<◌, List, Option, Bytes}
use xbat_ginkgo.Base.Float.{Double}
use xbat_ginkgo.Collector.{Collector}
use xbat_ginkgo.Cpu.{Threads}
use xbat_ginkgo.Cpu.Usage.{calculate_usage_lem}
use xbat_ginkgo.Interconnect.{
  Adapters, MetricMeta, ethernet_metrics, infiniband_metrics, read_infiniband,
}
use xbat_ginkgo.Interconnect.Rates.{calculate_usage-IsAt}
use xbat_ginkgo.Measure.{Round, Ending, delta_turn, snapshot_turn, shift_end, measure, told}
use xbat_ginkgo.Measure.Grid.{IsRun, measure-delta_turn, measure-snapshot_turn}
use xbat_ginkgo.Memory.Usage.{read_proc_lem}
use xbat_ginkgo.Queue.{Entry}
use xbat_ginkgo.Cpu
use xbat_ginkgo.Interconnect
use xbat_ginkgo.Memory

module _ {W : Type 0} ⦃d : Double W⦄ where
  pub measure_cpu :
      Threads → Collector → List (Round (Option Bytes)) → Option (List (Entry W) × Ending)
  measure_cpu topology c rs = measure (delta_turn Cpu.read_proc (Cpu.calculate_usage topology)) c rs

  pub measure_ethernet : Collector → List (Round (Option Bytes)) → Option (List (Entry W) × Ending)
  measure_ethernet c rs =
      measure
        (delta_turn Interconnect.read_proc
          (Interconnect.calculate_usage ethernet_metrics c.interval))
        c rs

  pub measure_infiniband :
      Collector → List (Round (Option Adapters)) → Option (List (Entry W) × Ending)
  measure_infiniband c rs =
      measure
        (delta_turn read_infiniband (Interconnect.calculate_usage infiniband_metrics c.interval)) c
        rs

  pub measure_memory : Collector → List (Round (Option Bytes)) → Option (List (Entry W) × Ending)
  measure_memory c rs = measure (snapshot_turn Memory.read_proc shift_end) c rs

  -- With a positive interval, whatever the rounds find: every round of `CCpuStat::measure` ends,
  -- by going on, by a result or by an exception, and every time stamp that is pushed lies a whole,
  -- positive number of intervals behind the start time.
  pub measure_cpu_lem :
      (topology : Threads) (c : Collector) (rs : List (Round (Option Bytes)))
      → 0 < c.interval
      → IsRun c (told rs) (measure_cpu topology c rs)
  unfolding measure_cpu
  measure_cpu_lem topology c rs positive =
      measure-delta_turn Cpu.read_proc (Cpu.calculate_usage topology) c rs
        (λ ts p q es h. (calculate_usage_lem topology ts p q es h).1) positive

  -- With a positive interval, whatever the rounds find: every round of
  -- `CInterconnectEthernet::measure` ends, by going on, by a result or by an exception, and every
  -- time stamp that is pushed lies a whole, positive number of intervals behind the start time.
  pub measure_ethernet_lem :
      (c : Collector) (rs : List (Round (Option Bytes)))
      → 0 < c.interval
      → IsRun c (told rs) (measure_ethernet c rs)
  unfolding measure_ethernet
  measure_ethernet_lem c rs positive =
      measure-delta_turn Interconnect.read_proc
        (Interconnect.calculate_usage ethernet_metrics c.interval) c rs
        (λ ts p q es h. calculate_usage-IsAt ethernet_metrics c.interval ts p q es h) positive

  -- With a positive interval, whatever the rounds find: every round of
  -- `CInterconnectInfiniband::measure` ends, by going on, by a result or by an exception, and
  -- every time stamp that is pushed lies a whole, positive number of intervals behind the start
  -- time.
  pub measure_infiniband_lem :
      (c : Collector) (rs : List (Round (Option Adapters)))
      → 0 < c.interval
      → IsRun c (told rs) (measure_infiniband c rs)
  unfolding measure_infiniband
  measure_infiniband_lem c rs positive =
      measure-delta_turn read_infiniband
        (Interconnect.calculate_usage infiniband_metrics c.interval) c rs
        (λ ts p q es h. calculate_usage-IsAt infiniband_metrics c.interval ts p q es h) positive

  -- With a positive interval, whatever the rounds find: every round of `CMemUsage::measure` ends,
  -- by going on, by a result or by an exception, and every time stamp that is pushed lies a whole,
  -- positive number of intervals behind the start time, although the loop moves the end of the
  -- interval on by itself.
  pub measure_memory_lem :
      (c : Collector) (rs : List (Round (Option Bytes)))
      → 0 < c.interval
      → IsRun c (told rs) (measure_memory c rs)
  unfolding measure_memory shift_end
  measure_memory_lem c rs positive =
      measure-snapshot_turn Memory.read_proc shift_end c rs (λ c. (refl, refl))
        (λ ts s es h. (read_proc_lem ts s es h).1) positive
