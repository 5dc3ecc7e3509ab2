-- ===== src/Disk/Runs.antt =====
-- What CIOStat pushes, and its loop.
use xbat_ginkgo.Base.{
  ℕ, ◌<◌, ◌≡◌, refl, inl, inr, Bool, true, false, List, [], ◌∷◌, Option, some, Bytes, codes, All,
  All-append, if◌then◌else◌, Option-cases, subst,
}
use xbat_ginkgo.Base.Float.{Double}
use xbat_ginkgo.Base.Maps.{lookup, bytes_key}
use xbat_ginkgo.Base.Outcome.{done, done_inj}
use xbat_ginkgo.Collector.{Collector, interval_cleanup}
use xbat_ginkgo.Collector.Interval.{synchronize_measurement_lem}
use xbat_ginkgo.Disk.{
  Disk, Report, no_command, no_json, no_hosts, disks, disk_metrics, disk_entry, disk_entries,
  all_entries, parse_io_stat, io_turn,
}
use xbat_ginkgo.Interconnect.{MetricMeta}
use xbat_ginkgo.Measure.{Round, Ending, again, measure, told}
use xbat_ginkgo.Measure.Grid.{IsRun, IsTurn, All-IsStamped, stop_if, on_read_lem, measure-IsRun}
use xbat_ginkgo.Queue.{Entry, IsAt}
use xbat_ginkgo.Text.{occurs}

-- An item of a disk of the report that is no loop device, under the label and scale of its key.
abbrev pub IsDiskEntry : {W : Type 0} ⦃d : Double W⦄ → ℕ → Entry W → Type 0
IsDiskEntry {W} ts e =
    (device : Bytes) × (key : Bytes) × (meta : MetricMeta) × (value : W) × (occurs false
        (codes "loop") device
      ≡ false)
    × (lookup key disk_metrics ≡ some meta)
    × (e ≡ disk_entry ts device meta value)

All-if :
    {A : Type 0} (P : A → Type 0) (b : Bool) (xs ys : List A)
    → (b ≡ true → All P xs)
    → (b ≡ false → All P ys)
    → All P (if b then xs else ys)
All-if P true xs ys h h' = h refl
All-if P false xs ys h h' = h' refl

module _ {W : Type 0} ⦃d : Double W⦄ where
  disk_entries_lem :
      (ts : ℕ) (device : Bytes) (items : List (Bytes × W))
      → occurs false (codes "loop") device ≡ false
      → All (IsDiskEntry ts) (disk_entries ts device items)
  unfolding disk_entries
  disk_entries_lem ts device [] real = tt
  disk_entries_lem ts device ((key, value) ∷ items) real =
      elim (Option-cases (lookup key disk_metrics)) [
        | inl e ↦ rw (e, disk_entries, All) (disk_entries_lem ts device items real)
        | inr (meta, e) ↦
            rw (e, disk_entries, All)
              ((device, key, meta, value, real, e, refl), disk_entries_lem ts device items real)
      ]

  all_entries_lem : (ts : ℕ) (list : List (Disk W)) → All (IsDiskEntry ts) (all_entries ts list)
  unfolding all_entries
  all_entries_lem ts [] = tt
  all_entries_lem ts (disk ∷ rest) =
      All-if (IsDiskEntry ts) (occurs false (codes "loop") disk.device) _ _
        (λ _. all_entries_lem ts rest)
        (λ e.
          All-append (IsDiskEntry ts) (disk_entries ts disk.device disk.items) _
            (disk_entries_lem ts disk.device disk.items e) (all_entries_lem ts rest))

  -- Every data point that a report of iostat yields is stamped with the end of the interval, stands
  -- for a device whose name does not contain "loop", and has the label and the scale of a known key.
  pub parse_io_stat_lem :
      (ts : ℕ) (report : Report W) (es : List (Entry W))
      → parse_io_stat ts report ≡ done es
      → All (IsDiskEntry ts) es
  unfolding parse_io_stat
  parse_io_stat_lem ts no_command es h = cc
  parse_io_stat_lem ts no_json es h = cc
  parse_io_stat_lem ts no_hosts es h = cc
  parse_io_stat_lem ts (disks list) es h =
      subst (All (IsDiskEntry ts)) (done_inj h) (all_entries_lem ts list)

  IsDiskEntry-IsAt : (ts : ℕ) (es : List (Entry W)) → All (IsDiskEntry ts) es → All (IsAt ts) es
  IsDiskEntry-IsAt ts [] h = tt
  IsDiskEntry-IsAt ts (e ∷ es) ((device, key, meta, value, real, known, same), rest) =
      (rw same refl, IsDiskEntry-IsAt ts es rest)

  io_turn_lem : (c : Collector) (r : Round (Report W)) → 0 < c.interval → IsTurn c (io_turn c r)
  unfolding io_turn interval_cleanup
  io_turn_lem c r positive =
      let (c', slept, e, sync) = synchronize_measurement_lem c r.flag r.now positive in
      rw e (
        stop_if r.stop_first c [] _ tt (
          on_read_lem c (parse_io_stat c'.interval_end r.first) _ (λ es u.
            let at = IsDiskEntry-IsAt _ es (parse_io_stat_lem c'.interval_end r.first es u) in
            (
              es,
              again (interval_cleanup c' true r.heartbeat),
              refl,
              All-IsStamped c _ sync.placed.on_grid es at,
              (sync.same_interval, sync.placed.on_grid),
            ))))

  pub measure_io : Collector → List (Round (Report W)) → Option (List (Entry W) × Ending)
  measure_io c rs = measure io_turn c rs

  -- With a positive interval, whatever the rounds find: every round of `CIOStat::measure` ends, by
  -- going on, by a result or by an exception, and every time stamp that is pushed lies a whole,
  -- positive number of intervals behind the start time.
  pub measure_io_lem :
      (c : Collector) (rs : List (Round (Report W)))
      → 0 < c.interval
      → IsRun c (told rs) (measure_io c rs)
  unfolding measure_io
  measure_io_lem c rs positive = measure-IsRun io_turn io_turn_lem c rs positive
