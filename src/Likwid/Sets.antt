-- ===== src/Likwid/Sets.antt =====
-- The rest of CLikwidPerfctr::measureSets: the time for each set, the counters, and the overhead.
use xbat_ginkgo.Base.{
  ℕ, zero, suc, ◌+◌, ◌-◌, ◌*◌, ◌/◌, ◌%◌, ◌^◌, Bool, not, List, [], ◌∷◌, map, length, Bytes,
  if◌then◌else◌,
}
use xbat_ginkgo.Base.Float.{Double}
use xbat_ginkgo.Base.Int.{ℤ, pos, ltb_ℤ, pos_part}
use xbat_ginkgo.Base.Outcome.{Outcome, done, fails, faults, or_fault, ◌>>=◌}
use xbat_ginkgo.Collector.{sleep_milliseconds_and_check}
use xbat_ginkgo.Likwid.{Metrics, Prepared}
use xbat_ginkgo.Likwid.Results.{channel_gids, sets_loop}
use xbat_ginkgo.Queue.{Entry, double}
use xbat_ginkgo.Topology.{CpuTopology}

-- What the loop over the sets finds for one of them: the flag at its head, whether likwid sets up,
-- starts and stops the counters, the flag during the sleep, and the two overheads in microseconds.
pub record SetRun : Type 0 where
  pub terminate : Bool
  pub setup_ok : Bool
  pub start_ok : Bool
  pub overhead_before : ℕ
  pub sleep_flag : ℕ → Bool
  pub stop_ok : Bool
  pub overhead_after : ℕ

-- The values of one call: the runs of the sets, likwid's metrics, and the overhead of the end.
pub record Cycle {ℓ} (W : Type ℓ) : Type ℓ where
  pub run_of : ℕ → SetRun
  pub metric_names : ℕ → List Bytes
  pub last_metric : ℕ → ℕ → ℕ → W
  pub overhead_end : ℕ

-- How the loop over the counters ends: told to stop, or with the overheads added up and the time
-- slept.
pub data Counted : Type 0 where
  stopped : Counted
  counted : ℕ → ℕ → Counted

unfoldable pub count_sets : ℕ → (ℕ → SetRun) → List ℕ → ℕ → ℕ → Outcome Counted
count_sets set_time run_of [] overheads slept = done (counted overheads slept)
count_sets set_time run_of (gid ∷ gids) overheads slept =
    let r = run_of gid in
    if r.terminate
    then done stopped
    else if not r.setup_ok
    then fails
    else if not r.start_ok
    then fails
    else (do
      t ← or_fault (sleep_milliseconds_and_check r.sleep_flag (pos set_time))
      if not r.stop_ok
          then fails
          else count_sets set_time run_of gids (overheads + r.overhead_before + r.overhead_after)
              (slept + t))

-- `floor(predictedAvailableInterval / gids.size())`; the division by zero is before the test for it.
unfoldable pub set_time_of : ℕ → ℕ → Outcome ℕ
set_time_of available zero = faults
set_time_of available (suc n) = done (available / suc n)

-- `(cycleOverhead + 3 * (overhead / 1000)) / 4` in uint64_t.
unfoldable pub next_overhead : ℕ → ℕ → ℕ
next_overhead cycle_overhead overhead =
    (cycle_overhead + 3 * (overhead / 1000) % 2 ^ 64) % 2 ^ 64 / 4

abbrev pub zip_sets : List ℕ → List Bytes → List (ℕ × Bytes)
zip_sets [] sets = []
zip_sets (gid ∷ gids) [] = []
zip_sets (gid ∷ gids) (set ∷ sets) = (gid, set) ∷ zip_sets gids sets

-- What `measureSets` pushes, and the new `cycleOverhead`.
abbrev pub Measured {ℓ} : Type ℓ → Type ℓ
Measured W = List (Entry W) × ℕ

module _ {ℓ} {W : Type ℓ} ⦃d : Double W⦄ where
  unfoldable pub collect_sets :
      Prepared → CpuTopology → Metrics → ℕ → ℕ → Cycle W → Counted → Outcome (Measured W)
  unfolding sets_loop next_overhead channel_gids
  collect_sets p topology metrics ts cycle_overhead cycle stopped = done ([], cycle_overhead)
  collect_sets p topology metrics ts cycle_overhead cycle (counted overheads slept) = do
    let sets = zip_sets p.gids p.set_list
    points ←
        sets_loop topology metrics cycle.metric_names cycle.last_metric ts (length p.cpus)
          (channel_gids sets) sets
    done (map double points, next_overhead cycle_overhead (overheads + cycle.overhead_end))

  -- `ts` is the end of the interval, and `time_left` its rest in milliseconds.
  unfoldable pub measure_sets :
      Prepared → CpuTopology → Metrics → ℕ → ℤ → ℕ → Cycle W → Outcome (Measured W)
  unfolding set_time_of count_sets collect_sets
  measure_sets p topology metrics ts time_left cycle_overhead cycle =
      if ltb_ℤ time_left (pos cycle_overhead) then fails else (do
        set_time ← set_time_of (pos_part time_left - cycle_overhead) (length p.gids)
        c ← count_sets set_time cycle.run_of p.gids 0 0
        collect_sets p topology metrics ts cycle_overhead cycle c)
