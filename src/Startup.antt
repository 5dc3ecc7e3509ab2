-- ===== src/Startup.antt =====
-- `ThreadHelper::init` of src/xbatd/src/threadhelper.cpp: the start time that all nodes of a job
-- share, and the collectors. What scontrol prints, `Helper::parseTime` and the clock are parameters.
pub mod Time
pub mod Init
use xbat_ginkgo.Base.{
  ℕ, ◌+◌, ◌-◌, ◌*◌, ◌%◌, ◌^◌, Bool, true, false, List, [], ◌∷◌, ◌++◌, map, Option, none, some,
  Bytes, codes, ltb, if◌then◌else◌, ◌>>=◌,
}
use xbat_ginkgo.Collector.{Collector, construct, start_measurement}

-- `int interval = uint * 1000`, widened to uint64_t: the product wraps, and a negative int is extended
-- by its sign.
unfoldable pub interval_ms : ℕ → ℕ
interval_ms seconds =
    let product = seconds * 1000 % 2 ^ 32 in
    if ltb product (2 ^ 31) then product else 2 ^ 64 - 2 ^ 32 + product

-- The module names in the order of `classList`.
abbrev pub class_names : Bool → List Bytes
class_names enable_likwid =
    (if enable_likwid then codes "LIKWID" ∷ [] else [])
    ++ codes "CPU"
      ∷ codes "Ethernet"
      ∷ codes "Infiniband"
      ∷ codes "Disk"
      ∷ codes "IPMI"
      ∷ codes "Memory"
      ∷ codes "XilinxFPGA"
      ∷ codes "nvidiaGPU"
      ∷ codes "amdGPU"
      ∷ []

pub start_all : List Collector → Option (List Collector)
start_all [] = some []
start_all (c ∷ cs) = do c' ← start_measurement c; cs' ← start_all cs; some (c' ∷ cs')

-- The collectors are started when all are constructed; `heartbeat` is the clock in seconds. (`CMemUsage`
-- also gives `intervalEnd` a first value, which `synchronizeMeasurement` overwrites.)
pub init_classes : Bool → ℕ → ℕ → ℕ → Option (List Collector)
unfolding interval_ms start_all
init_classes enable_likwid seconds start heartbeat =
    start_all (
      map (λ name. construct name start (interval_ms seconds) heartbeat)
        (class_names enable_likwid))
