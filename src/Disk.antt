-- ===== src/Disk.antt =====
-- src/xbatd/src/CIOStat.{hpp,cpp}: the usage of block devices, from the report of iostat. The report is
-- a parameter of each round, as the JSON library reads it.
pub mod Runs
use Prim.Native.String.{String}
use xbat_ginkgo.Base.{
  ℕ, ◌*◌, Bool, true, false, List, [], ◌∷◌, ◌++◌, Option, none, some, Bytes, codes, if◌then◌else◌,
  ◌>>=◌,
}
use xbat_ginkgo.Base.Float.{Double}
use xbat_ginkgo.Base.Int.{pos}
use xbat_ginkgo.Base.Maps.{Map, lookup, bytes_key, bytes_eq}
use xbat_ginkgo.Base.Outcome.{Outcome, done, fails, faults}
use xbat_ginkgo.Collector.{Collector, synchronize_measurement, interval_cleanup}
use xbat_ginkgo.Interconnect.{MetricMeta}
use xbat_ginkgo.Measure.{Round, Turn, again, ends, returned, on_read}
use xbat_ginkgo.Queue.{Entry, double}
use xbat_ginkgo.Text.{occurs}

abbrev pub disk_metric : String → String → ℕ → Bytes × MetricMeta
disk_metric key label scale =
    (codes key, record { label = codes "disk_" ++ codes label; scale = scale })

abbrev pub disk_metrics : Map Bytes MetricMeta
disk_metrics =
    disk_metric "r/s" "r_req_s" 1
    ∷ disk_metric "w/s" "w_req_s" 1
    ∷ disk_metric "d/s" "d_req_s" 1
    ∷ disk_metric "f/s" "f_req_s" 1
    ∷ disk_metric "rkB/s" "r_bw" 1024
    ∷ disk_metric "rmB/s" "r_bw" (1024 * 1024)
    ∷ disk_metric "wkB/s" "w_bw" 1024
    ∷ disk_metric "wmB/s" "w_bw" (1024 * 1024)
    ∷ disk_metric "areq_sz" "areq_sz" 1024
    ∷ disk_metric "rareq_sz" "rareq_sz" 1024
    ∷ disk_metric "wareq_sz" "wareq_sz" 1024
    ∷ disk_metric "dareq_sz" "dareq_sz" 1024
    ∷ disk_metric "await" "await" 1
    ∷ disk_metric "r_await" "r_await" 1
    ∷ disk_metric "w_await" "w_await" 1
    ∷ disk_metric "rqm," "rqm" 1
    ∷ disk_metric "rrqm," "rrqm" 1
    ∷ disk_metric "wrqm" "wrqm" 1
    ∷ disk_metric "drqm" "drqm" 1
    ∷ disk_metric "util" "util" 1
    ∷ []

-- An element of `disk`: its name, and its other items as numbers.
pub record Disk {ℓ} (W : Type ℓ) : Type ℓ where
  pub device : Bytes
  pub items : List (Bytes × W)

-- The command fails; its text is no JSON or lacks what is read from it without a test; there is no
-- host; or the disks of the first host.
pub data Report {ℓ} (W : Type ℓ) : Type ℓ where
  no_command : Report W
  no_json : Report W
  no_hosts : Report W
  disks : List (Disk W) → Report W

module _ {ℓ} {W : Type ℓ} ⦃d : Double W⦄ where
  abbrev pub disk_entry : ℕ → Bytes → MetricMeta → W → Entry W
  disk_entry ts device meta value = double (record {
    measurement = meta.label;
    tags = (codes "device", device) ∷ (codes "level", codes "device") ∷ [];
    value = d.mul value (d.of_ℕ meta.scale);
    ts = ts;
  })

  -- The items of one disk; "disk_device" is none of the metrics.
  pub disk_entries : ℕ → Bytes → List (Bytes × W) → List (Entry W)
  disk_entries ts device [] = []
  disk_entries ts device ((key, value) ∷ items) =
      let rest = disk_entries ts device items in
      elim (lookup key disk_metrics) [
        | none ↦ rest
        | some meta ↦ disk_entry ts device meta value ∷ rest
      ]

  pub all_entries : ℕ → List (Disk W) → List (Entry W)
  unfolding disk_entries
  all_entries ts [] = []
  all_entries ts (disk ∷ rest) =
      if occurs false (codes "loop") disk.device
      then all_entries ts rest
      else disk_entries ts disk.device disk.items ++ all_entries ts rest

  unfoldable pub parse_io_stat : ℕ → Report W → Outcome (List (Entry W))
  unfolding all_entries
  parse_io_stat ts no_command = fails
  parse_io_stat ts no_json = faults
  parse_io_stat ts no_hosts = fails
  parse_io_stat ts (disks list) = done (all_entries ts list)

  -- iostat takes the time that is left, so there is no sleep.
  pub io_turn : Collector → Round (Report W) → Option (Turn W)
  unfolding parse_io_stat
  io_turn c r = do
    (c', _) ← synchronize_measurement c r.flag r.now
    if r.stop_first
        then some ([], ends (returned (pos 0)))
        else on_read (parse_io_stat c'.interval_end r.first)
            (λ es. some (es, again (interval_cleanup c' true r.heartbeat)))
