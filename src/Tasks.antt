-- ===== src/Tasks.antt =====
-- The collectors as one type: `createThreadAndMeasure` of src/xbatd/src/CDataCollectionBase.cpp calls
-- the `measure` of the collector's own class.
pub mod Grid
use xbat_ginkgo.Base.{◌≡◌, Bool, false, List, Option, Bytes}
use xbat_ginkgo.Base.Float.{Double}
use xbat_ginkgo.Base.Outcome.{Outcome}
use xbat_ginkgo.Collector.{Collector}
use xbat_ginkgo.Cpu.{Threads}
use xbat_ginkgo.Disk.{Report}
use xbat_ginkgo.Disk.Runs.{measure_io}
use xbat_ginkgo.Gpu.Amd.{Processor, measure_amd}
use xbat_ginkgo.Gpu.Nvidia.{Device, measure_nvidia}
use xbat_ginkgo.Interconnect.{Adapters}
use xbat_ginkgo.Likwid.{MetricDetails, Answers}
use xbat_ginkgo.Likwid.Loop.{measure_likwid}
use xbat_ginkgo.Likwid.Sets.{Cycle}
use xbat_ginkgo.Measure.{Round, Ending, told}
use xbat_ginkgo.Measure.Runs.{measure_cpu, measure_ethernet, measure_infiniband, measure_memory}
use xbat_ginkgo.Power.{DeviceFile}
use xbat_ginkgo.Power.Runs.{measure_energy, measure_fpga}
use xbat_ginkgo.Queue.{Entry}
use xbat_ginkgo.Topology.{CpuTopology}

-- A class with what its constructor or its `prepare` gets, and what its rounds find. `H` stands for
-- the handles of the GPU libraries.
pub data Task (W H : Type 0) : Type 0 where
  cpu : Threads → List (Round (Option Bytes)) → Task W H
  ethernet : List (Round (Option Bytes)) → Task W H
  infiniband : List (Round (Option Adapters)) → Task W H
  memory : List (Round (Option Bytes)) → Task W H
  energy : List (Round (Bytes × Bytes)) → Task W H
  disk : List (Round (Report W)) → Task W H
  fpga : Bytes → List (Round (Bytes → DeviceFile)) → Task W H
  nvidia : Outcome (List H) → List (Round (List Device)) → Task W H
  likwid :
      Option (List (Bytes × List (Bytes × MetricDetails)))
      → Answers
      → CpuTopology
      → List (Round (Cycle W))
      → Task W H
  amd : Outcome (List (List H)) → List (Round (List (List Processor))) → Task W H

module _ {W H : Type 0} where
  -- Whether the collector finds `terminate` set at the head of its loop.
  abbrev pub told_task : Task W H → Bool
  told_task (cpu topology rs) = told rs
  told_task (ethernet rs) = told rs
  told_task (infiniband rs) = told rs
  told_task (memory rs) = told rs
  told_task (energy rs) = told rs
  told_task (disk rs) = told rs
  told_task (fpga text rs) = told rs
  told_task (nvidia devices rs) = told rs
  told_task (likwid file answers topology rs) = told rs
  told_task (amd processors rs) = told rs

  module _ ⦃d : Double W⦄ where
    pub measure_task : Collector → Task W H → Option (List (Entry W) × Ending)
    measure_task c (cpu topology rs) = measure_cpu topology c rs
    measure_task c (ethernet rs) = measure_ethernet c rs
    measure_task c (infiniband rs) = measure_infiniband c rs
    measure_task c (memory rs) = measure_memory c rs
    measure_task c (energy rs) = measure_energy false c rs
    measure_task c (disk rs) = measure_io c rs
    measure_task c (fpga text rs) = measure_fpga text c rs
    measure_task c (nvidia devices rs) = measure_nvidia devices c rs
    measure_task c (likwid file answers topology rs) = measure_likwid file answers topology c rs
    measure_task c (amd processors rs) = measure_amd processors c rs
