-- ===== src/Tasks/Grid.antt =====
-- What holds of the loops of all collectors.
use xbat_ginkgo.Base.{◌≡◌, ◌≢◌, ◌<◌, true, List, some, All}
use xbat_ginkgo.Base.Float.{Double}
use xbat_ginkgo.Collector.{Collector}
use xbat_ginkgo.Disk.Runs.{measure_io_lem}
use xbat_ginkgo.Gpu.Runs.{measure_nvidia_lem, measure_amd_lem}
use xbat_ginkgo.Likwid.Stamps.{measure_likwid_lem}
use xbat_ginkgo.Measure.{Ending, running}
use xbat_ginkgo.Measure.Grid.{IsRun, IsStamped}
use xbat_ginkgo.Measure.Runs.{
  measure_cpu_lem, measure_ethernet_lem, measure_infiniband_lem, measure_memory_lem,
}
use xbat_ginkgo.Power.Runs.{measure_energy_lem, measure_fpga_lem}
use xbat_ginkgo.Queue.{Entry}
use xbat_ginkgo.Tasks.{
  Task, cpu, ethernet, infiniband, memory, energy, disk, fpga, nvidia, likwid, amd, told_task,
  measure_task,
}

module _ {W H : Type 0} ⦃d : Double W⦄ where
  task-IsRun :
      (c : Collector) (t : Task W H) → 0 < c.interval → IsRun c (told_task t) (measure_task c t)
  unfolding measure_task
  task-IsRun c (cpu topology rs) positive = measure_cpu_lem topology c rs positive
  task-IsRun c (ethernet rs) positive = measure_ethernet_lem c rs positive
  task-IsRun c (infiniband rs) positive = measure_infiniband_lem c rs positive
  task-IsRun c (memory rs) positive = measure_memory_lem c rs positive
  task-IsRun c (energy rs) positive = measure_energy_lem _ c rs positive
  task-IsRun c (disk rs) positive = measure_io_lem c rs positive
  task-IsRun c (fpga text rs) positive = measure_fpga_lem text c rs positive
  task-IsRun c (nvidia devices rs) positive = measure_nvidia_lem devices c rs positive
  task-IsRun c (likwid file answers topology rs) positive =
      measure_likwid_lem file answers topology c rs positive
  task-IsRun c (amd processors rs) positive = measure_amd_lem processors c rs positive

  -- With a positive interval, for every collector, whatever its rounds find: `measure` returns or each of its rounds ends, by
  -- going on, by a result or by an exception, and every time stamp that is pushed lies a whole,
  -- positive number of intervals behind the start time.
  pub measure_task_lem :
      (c : Collector) (t : Task W H)
      → 0 < c.interval
      → (es : List (Entry W)) × (e : Ending) × (measure_task c t ≡ some (es, e))
        × All (IsStamped c) es
  measure_task_lem c t positive =
      let (es, e, eq, at, _) = task-IsRun c t positive in (es, e, eq, at)

  -- With a positive interval, every collector that is told to stop does: if one of its rounds
  -- finds `terminate` set at the head of the loop, `measure` has ended by a result or by an
  -- exception when the rounds are over.
  pub measure_task_stops :
      (c : Collector) (t : Task W H)
      → 0 < c.interval
      → told_task t ≡ true
      → (es : List (Entry W)) × (e : Ending) × (measure_task c t ≡ some (es, e)) × (e ≢ running)
  measure_task_stops c t positive stopped =
      let (es, e, eq, _, ended) = task-IsRun c t positive in (es, e, eq, ended stopped)
