-- ===== src/Likwid/Stamps.antt =====
-- The time stamps of the LIKWID collector.
use xbat_ginkgo.Base.{
  ℕ, zero, suc, ◌+◌, ◌-◌, ◌<◌, ◌≡◌, refl, Bool, true, false, not, ◌&&◌, List, [], ◌∷◌, map, Option,
  none, some, Bytes, codes, All, All-append, if◌then◌else◌, ◌==◌, length,
}
use xbat_ginkgo.Base.Float.{Double}
use xbat_ginkgo.Base.Int.{ℤ, pos, ltb_ℤ, pos_part}
use xbat_ginkgo.Base.Maps.{Map, bytes_eq, bytes_key}
use xbat_ginkgo.Base.Outcome.{
  Outcome, done, fails, faults, Ensures, Ensures-bind, Ensures-done, Ensures-if,
}
use xbat_ginkgo.Collector.{Collector, interval_cleanup}
use xbat_ginkgo.Likwid.{
  Metrics, MetricMeta, Prepared, Answers, MetricDetails, parse_metrics, prepare_measurements,
}
use xbat_ginkgo.Likwid.Results.{
  is_left_out, cpu_loop, metric_name, metric_points, meta_of, metrics_loop, is_channel_set,
  set_points, sets_loop, channel_gids,
}
use xbat_ginkgo.Collector.Interval.{synchronize_measurement_lem}
use xbat_ginkgo.Likwid.Loop.{after_sets, likwid_loop, with_prepared, measure_likwid}
use xbat_ginkgo.Likwid.Sets.{
  Cycle, Measured, Counted, stopped, counted, count_sets, set_time_of, zip_sets, collect_sets,
  measure_sets,
}
use xbat_ginkgo.Measure.{Round, Ending, running, returned, threw, told}
use xbat_ginkgo.Measure.Grid.{IsRun, IsOnGrid, All-IsStamped, head_if, follow_lem}
use xbat_ginkgo.Queue.{Ilp, Entry, double, IsAt}
use xbat_ginkgo.Topology.{CpuTopology}

module _ {W : Type 0} ⦃d : Double W⦄ where
  abbrev AreAt : ℕ → List (Ilp W) → Type 0
  AreAt ts xs = All (λ (x : Ilp W). x.ts ≡ ts) xs

  cpu_loop-AreAt :
      (topology : CpuTopology) (value : ℕ → W) (meta : MetricMeta) (level : Bytes) (ts n l : ℕ)
      → Ensures (AreAt ts) (cpu_loop topology value meta level ts n l)
  unfolding cpu_loop
  cpu_loop-AreAt topology value meta level ts zero l = tt
  cpu_loop-AreAt topology value meta level ts (suc n) l =
      let rest = cpu_loop-AreAt topology value meta level ts n (l + 1) in
      Ensures-if (AreAt ts) (bytes_eq level (codes "socket") && topology.cores_per_socket == 0) _ _
        (λ _. tt)
        (λ _.
          Ensures-if (AreAt ts) (is_left_out topology level l) _ _ (λ _. rest)
            (λ _.
              Ensures-if (AreAt ts) (bytes_eq level (codes "node") && not (l == 0)) _ _ (λ _. tt)
                (λ _.
                  Ensures-bind (AreAt ts) (cpu_loop topology value meta level ts n (l + 1)) _
                    (λ points e. (refl, Ensures-done (AreAt ts) _ rest e)))))

  metric_points-AreAt :
      (topology : CpuTopology) (meta : Option MetricMeta) (value : ℕ → W) (ts cpus : ℕ)
      → Ensures (AreAt ts) (metric_points topology meta value ts cpus)
  unfolding metric_points
  metric_points-AreAt topology none value ts cpus = tt
  metric_points-AreAt topology (some meta) value ts cpus =
      cpu_loop-AreAt topology value meta _ ts cpus 0

  metrics_loop-AreAt :
      (topology : CpuTopology) (mapping : Option (Map Bytes MetricMeta)) (value : ℕ → ℕ → W)
      (ts cpus : ℕ) (names : List Bytes) (k : ℕ)
      → Ensures (AreAt ts) (metrics_loop topology mapping value ts cpus names k)
  unfolding metrics_loop
  metrics_loop-AreAt topology mapping value ts cpus [] k = tt
  metrics_loop-AreAt topology mapping value ts cpus (raw ∷ names) k =
      Ensures-bind (AreAt ts) (metric_name raw) _ (λ name _.
        Ensures-bind (AreAt ts) (metric_points topology (meta_of mapping name) (value k) ts cpus) _
          (λ points e.
            Ensures-bind (AreAt ts) (metrics_loop topology mapping value ts cpus names (k + 1)) _
              (λ more e'.
                All-append (λ (x : Ilp W). x.ts ≡ ts) points more
                  (Ensures-done (AreAt ts) _ (metric_points-AreAt topology _ (value k) ts cpus) e)
                  (Ensures-done (AreAt ts) _
                    (metrics_loop-AreAt topology mapping value ts cpus names (k + 1)) e'))))

  set_points-AreAt :
      (topology : CpuTopology) (metrics : Metrics) (names : ℕ → List Bytes) (value : ℕ → ℕ → ℕ → W)
      (ts cpus : ℕ) (channels : List ℕ) (gid : ℕ) (set : Bytes)
      → Ensures (AreAt ts) (set_points topology metrics names value ts cpus channels gid set)
  unfolding set_points
  set_points-AreAt topology metrics names value ts cpus channels gid set =
      Ensures-if (AreAt ts) (is_channel_set set) _ _
        (λ _.
          Ensures-if (AreAt ts) (bytes_eq set (codes "MEM1")) _ _
            (λ _. metrics_loop-AreAt topology _ _ ts cpus (names gid) 0) (λ _. tt))
        (λ _. metrics_loop-AreAt topology _ _ ts cpus (names gid) 0)

  sets_loop-AreAt :
      (topology : CpuTopology) (metrics : Metrics) (names : ℕ → List Bytes) (value : ℕ → ℕ → ℕ → W)
      (ts cpus : ℕ) (channels : List ℕ) (sets : List (ℕ × Bytes))
      → Ensures (AreAt ts) (sets_loop topology metrics names value ts cpus channels sets)
  unfolding sets_loop
  sets_loop-AreAt topology metrics names value ts cpus channels [] = tt
  sets_loop-AreAt topology metrics names value ts cpus channels ((gid, set) ∷ sets) =
      Ensures-bind (AreAt ts) (set_points topology metrics names value ts cpus channels gid set) _
        (λ points e.
          Ensures-bind (AreAt ts) (sets_loop topology metrics names value ts cpus channels sets) _
            (λ more e'.
              All-append (λ (x : Ilp W). x.ts ≡ ts) points more
                (Ensures-done (AreAt ts) _
                  (set_points-AreAt topology metrics names value ts cpus channels gid set) e)
                (Ensures-done (AreAt ts) _
                  (sets_loop-AreAt topology metrics names value ts cpus channels sets) e')))

  map-IsAt : (ts : ℕ) (xs : List (Ilp W)) → AreAt ts xs → All (IsAt ts) (map double xs)
  map-IsAt ts [] at = tt
  map-IsAt ts (x ∷ xs) (e, at) = (e, map-IsAt ts xs at)

  -- What `measureSets` pushes is stamped with the end of the interval.
  abbrev IsMeasured : ℕ → Measured W → Type 0
  IsMeasured ts (es, overhead) = All (IsAt ts) es

  collect_sets-IsMeasured :
      (p : Prepared) (topology : CpuTopology) (metrics : Metrics) (ts overhead : ℕ)
      (cycle : Cycle W) (c : Counted)
      → Ensures (IsMeasured ts) (collect_sets p topology metrics ts overhead cycle c)
  unfolding collect_sets
  collect_sets-IsMeasured p topology metrics ts overhead cycle stopped = tt
  collect_sets-IsMeasured p topology metrics ts overhead cycle (counted overheads slept) =
      let sets = zip_sets p.gids p.set_list in
      let loop =
        sets_loop-AreAt topology metrics cycle.metric_names cycle.last_metric ts (length p.cpus)
          (channel_gids sets) sets in
      Ensures-bind (IsMeasured ts)
        (sets_loop topology metrics cycle.metric_names cycle.last_metric ts (length p.cpus)
          (channel_gids sets) sets)
        _ (λ points e. map-IsAt ts points (Ensures-done (AreAt ts) _ loop e))

  measure_sets-IsMeasured :
      (p : Prepared) (topology : CpuTopology) (metrics : Metrics) (ts : ℕ) (time_left : ℤ)
      (overhead : ℕ) (cycle : Cycle W)
      → Ensures (IsMeasured ts) (measure_sets p topology metrics ts time_left overhead cycle)
  unfolding measure_sets
  measure_sets-IsMeasured p topology metrics ts time_left overhead cycle =
      Ensures-if (IsMeasured ts) (ltb_ℤ time_left (pos overhead)) _ _ (λ _. tt)
        (λ _.
          Ensures-bind (IsMeasured ts) (set_time_of (pos_part time_left - overhead) (length p.gids))
            _
            (λ set_time _.
              Ensures-bind (IsMeasured ts) (count_sets set_time cycle.run_of p.gids 0 0) _
                (λ c _. collect_sets-IsMeasured p topology metrics ts overhead cycle c)))

  stop_run :
      (b ended : Bool) (c : Collector) (rest : Option (List (Entry W) × Ending))
      → IsRun c ended rest
      → IsRun c ended (if b then some ([], returned (pos 0)) else rest)
  stop_run true ended c rest h = ([], returned (pos 0), refl, tt, (λ _ h. cc))
  stop_run false ended c rest h = h

  after_sets_lem :
      (rest : ℕ → Collector → Option (List (Entry W) × Ending)) (c c' : Collector) (ended : Bool)
      (heartbeat : ℕ) (o : Outcome (Measured W))
      → 0 < c.interval
      → c'.interval ≡ c.interval
      → IsOnGrid c.interval_start c.interval c'.interval_end
      → ((overhead : ℕ) (next : Collector)
          → 0 < next.interval
          → IsRun next ended (rest overhead next))
      → Ensures (IsMeasured c'.interval_end) o
      → IsRun c ended (after_sets rest c' heartbeat o)
  unfolding after_sets interval_cleanup
  after_sets_lem rest c c' ended heartbeat (done (es, overhead)) positive same on right at =
      follow_lem c ended (rest overhead) positive (right overhead) es _ (All-IsStamped c _ on es at)
        (same, on)
  after_sets_lem rest c c' ended heartbeat fails positive same on right at =
      ([], returned (pos 1), refl, tt, (λ _ h. cc))
  after_sets_lem rest c c' ended heartbeat faults positive same on right at =
      ([], threw, refl, tt, (λ _ h. cc))

  likwid_loop_lem :
      (p : Prepared) (topology : CpuTopology) (metrics : Metrics) (overhead : ℕ) (c : Collector)
      (rs : List (Round (Cycle W)))
      → 0 < c.interval
      → IsRun c (told rs) (likwid_loop p topology metrics overhead c rs)
  unfolding likwid_loop
  likwid_loop_lem p topology metrics overhead c [] positive = ([], running, refl, tt, (λ h. cc))
  likwid_loop_lem p topology metrics overhead c (r ∷ rs) positive =
      let (c', slept, e, sync) = synchronize_measurement_lem c r.flag r.now positive in
      head_if r.stop_head (told rs) c _ (
        rw e (
          stop_run r.stop_first (told rs) c _ (
            after_sets_lem _ c c' (told rs) r.heartbeat _ positive sync.same_interval
              sync.placed.on_grid
              (λ overhead' next positive'.
                likwid_loop_lem p topology metrics overhead' next rs positive')
              (measure_sets-IsMeasured p topology metrics c'.interval_end c'.time_left overhead
                r.first))))

  with_prepared_lem :
      (m : Outcome Metrics) (p : Outcome Prepared) (topology : CpuTopology) (c : Collector)
      (rs : List (Round (Cycle W)))
      → 0 < c.interval
      → IsRun c (told rs) (with_prepared m p topology c rs)
  unfolding with_prepared
  with_prepared_lem (done metrics) (done p) topology c rs positive =
      likwid_loop_lem p topology metrics 1000 c rs positive
  with_prepared_lem (done metrics) fails topology c rs positive =
      ([], returned (pos 1), refl, tt, (λ _ h. cc))
  with_prepared_lem (done metrics) faults topology c rs positive =
      ([], threw, refl, tt, (λ _ h. cc))
  with_prepared_lem fails p topology c rs positive = ([], threw, refl, tt, (λ _ h. cc))
  with_prepared_lem faults p topology c rs positive = ([], threw, refl, tt, (λ _ h. cc))

  -- With a positive interval, whatever likwid answers and the rounds find: each round of
  -- `CLikwidPerfctr::measure` ends, and every time stamp that is pushed lies on the grid.
  pub measure_likwid_lem :
      (file : Option (List (Bytes × List (Bytes × MetricDetails)))) (likwid : Answers)
      (topology : CpuTopology) (c : Collector) (rs : List (Round (Cycle W)))
      → 0 < c.interval
      → IsRun c (told rs) (measure_likwid file likwid topology c rs)
  unfolding measure_likwid
  measure_likwid_lem file likwid topology c rs positive =
      with_prepared_lem (parse_metrics file) (prepare_measurements likwid) topology c rs positive
