-- ===== src/Tests/TaskTests.antt =====
-- The collectors' loops, the GPU collectors and the topology: the theorems applied.
use xbat_ginkgo.Base.{ℕ, ◌≡◌, ◌≢◌, ◌↔◌, refl, true, List, [], ◌∷◌, none, some, All, arith}
use xbat_ginkgo.Base.Int.{pos}
use xbat_ginkgo.Base.Outcome.{done, fails}
use xbat_ginkgo.Gpu.Reports.{IsReport}
use xbat_ginkgo.Gpu.Silence.{IsSilent, collect_fails_iff}
use xbat_ginkgo.Gpu.{push_all}
use xbat_ginkgo.Gpu.Nvidia.{Device}
use xbat_ginkgo.Gpu.Amd.{Processor, Vram}
use xbat_ginkgo.Measure.{Round, Ending, running}
use xbat_ginkgo.Measure.Grid.{IsStamped}
use xbat_ginkgo.Queue.{Entry}
use xbat_ginkgo.Tasks.{Task, cpu, nvidia, measure_task}
use xbat_ginkgo.Tasks.Grid.{measure_task_lem, measure_task_stops}
use xbat_ginkgo.Tests.CollectorTests.{idle}
use xbat_ginkgo.Tests.CpuTests.{one_thread}
use xbat_ginkgo.Tests.MeasureTests.{round_of, stat_rounds}
use xbat_ginkgo.Tests.Whole.{whole}
use xbat_ginkgo.Gpu.Nvidia
use xbat_ginkgo.Gpu.Amd
use xbat_ginkgo.Gpu.NvidiaReports

abbrev cpu_task : Task ℕ ℕ
cpu_task = cpu one_thread stat_rounds

measure_task_lem_example :
    (es : List (Entry ℕ)) × (e : Ending) × (measure_task idle cpu_task ≡ some (es, e))
    × All (IsStamped idle) es
measure_task_lem_example = measure_task_lem idle cpu_task (omega arith)

-- A GPU that is split, and answers only for its memory.
abbrev split_gpu : Device
split_gpu = record {
  mig_enabled = true;
  fb = some (record { free = 30; used = 10; total = 40 });
  bar1 = none;
  util = some (5, 6);
  pstate = none;
  power_enabled = none;
  power = some 100;
  limit = none;
  clock = λ _. none;
  encoder = none;
  decoder = none;
}

abbrev stopped_round : Round (List Device)
stopped_round = record (round_of (split_gpu ∷ []) []) { stop_head = true }

abbrev gpu_task : Task ℕ ℕ
gpu_task = nvidia (done (0 ∷ [])) (round_of (split_gpu ∷ []) [] ∷ stopped_round ∷ [])

measure_task_stops_example :
    (es : List (Entry ℕ)) × (e : Ending) × (measure_task idle gpu_task ≡ some (es, e))
    × (e ≢ running)
measure_task_stops_example = measure_task_stops idle gpu_task (omega arith) refl

collect_fails_iff_example :
    (Nvidia.collect {W = ℕ} 7 (split_gpu ∷ []) ≡ fails) ↔ All IsSilent (split_gpu ∷ [])
collect_fails_iff_example = collect_fails_iff 7 (split_gpu ∷ [])

abbrev gpu_entries : List (Entry ℕ)
gpu_entries = elim (Nvidia.collect {W = ℕ} 7 (split_gpu ∷ [])) [ done es ↦ es | _ ↦ [] ]

collect-IsReport_example : All (IsReport 1 7) gpu_entries
unfolding Nvidia.collect push_all
collect-IsReport_example = NvidiaReports.collect-IsReport 7 (split_gpu ∷ []) gpu_entries refl

abbrev processor : Processor
processor = record {
  temperature = some (pos 40);
  activity = none;
  average_socket_power = some 90;
  clock = λ _. none;
  vram = some (record { vram_total = 64; vram_used = 16 });
}

abbrev amd_entries : List (Entry ℕ)
amd_entries = elim (Amd.collect {W = ℕ} 7 ((processor ∷ []) ∷ [])) [ done es ↦ es | _ ↦ [] ]
