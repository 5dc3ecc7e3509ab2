-- ===== src/Measure.antt =====
-- The loops of `measure` in the collectors of src/xbatd/src. `CCpuStat`, `CInterconnectEthernet` and
-- `CInterconnectInfiniband` read twice in an interval and push what lies between (`delta_turn`);
-- `CMemUsage`, `CEnergyIpmi` and `CXilinx` push one reading (`snapshot_turn`).
pub mod Grid
pub mod Runs
use xbat_ginkgo.Base.{
  ℕ, ◌+◌, ◌*◌, ◌/◌, Bool, true, false, ◌||◌, List, [], ◌∷◌, ◌++◌, Option, none, some, if◌then◌else◌,
  ◌>>=◌,
}
use xbat_ginkgo.Base.Int.{ℤ, pos}
use xbat_ginkgo.Base.Outcome.{Outcome, done, fails, faults}
use xbat_ginkgo.Collector.{
  Collector, synchronize_measurement, sleep_until_interval_end, interval_cleanup,
}
use xbat_ginkgo.Queue.{Entry}

-- What one round finds: the flag `terminate` at the tests of the loop head, behind
-- `synchronizeMeasurement` and behind `sleepUntilIntervalEnd`, and at the tests within their sleeps;
-- the clock at the calls that read it; and what the two readings read from.
pub record Round {ℓ} (Source : Type ℓ) : Type ℓ where
  pub stop_head : Bool
  pub now : ℕ
  pub flag : ℕ → Bool
  pub stop_first : Bool
  pub first : Source
  pub sleep_now : ℕ
  pub sleep_flag : ℕ → Bool
  pub stop_second : Bool
  pub second : Source
  pub heartbeat : ℕ

pub data Ending : Type 0 where
  running : Ending
  returned : ℤ → Ending
  threw : Ending

pub data Next : Type 0 where
  again : Collector → Next
  ends : Ending → Next

-- What a round pushes, and what follows it.
abbrev pub Turn {ℓ} : Type ℓ → Type ℓ
Turn W = List (Entry W) × Next

module _ {ℓ κ} {W : Type ℓ} {A : Type κ} where
  -- `if (read(...) != 0) return 1;` and what follows. `none` is the end of a loop's fuel.
  unfoldable pub on_read : Outcome A → (A → Option (Turn W)) → Option (Turn W)
  on_read (done a) rest = rest a
  on_read fails rest = some ([], ends (returned (pos 1)))
  on_read faults rest = some ([], ends threw)

module _ {ℓ κ μ} {W : Type ℓ} {Source : Type κ} {R : Type μ} where
  pub delta_turn :
      (Source → Outcome R)
      → (ℕ → R → R → Outcome (List (Entry W)))
      → Collector
      → Round Source
      → Option (Turn W)
  unfolding on_read
  delta_turn read usage c r = do
    (c', _) ← synchronize_measurement c r.flag r.now
    if r.stop_first
        then some ([], ends (returned (pos 0)))
        else on_read (read r.first) (λ previous. do
          _ ← sleep_until_interval_end c' r.sleep_flag r.sleep_now
          if r.stop_second
              then some ([], ends (returned (pos 0)))
              else on_read (read r.second) (λ current.
                on_read (usage c'.interval_end previous current)
                  (λ es. some (es, again (interval_cleanup c' true r.heartbeat)))))

-- What a round pushes, and the rounds behind it.
pub follow {ℓ} :
    {W : Type ℓ}
    → (Collector → Option (List (Entry W) × Ending))
    → Turn W
    → Option (List (Entry W) × Ending)
follow rest (pushed, ends e) = some (pushed, e)
follow rest (pushed, again c) = do (more, e) ← rest c; some (pushed ++ more, e)

-- `intervalEnd = intervalEnd + std::chrono::seconds(interval / 1000)`
pub shift_end : Collector → Collector
shift_end c = record c { interval_end = c.interval_end + c.interval / 1000 * 1_000_000_000 }

-- Whether one of the rounds finds `terminate` set at the head of the loop.
abbrev pub told {ℓ} : {Source : Type ℓ} → List (Round Source) → Bool
told [] = false
told (r ∷ rs) = r.stop_head || told rs

module _ {ℓ κ} {W : Type ℓ} {Source : Type κ} where
  -- `read` pushes on its own; `finish` is what is done behind `intervalCleanup`.
  pub snapshot_turn :
      (ℕ → Source → Outcome (List (Entry W)))
      → (Collector → Collector)
      → Collector
      → Round Source
      → Option (Turn W)
  unfolding on_read
  snapshot_turn read finish c r = do
    (c', _) ← synchronize_measurement c r.flag r.now
    if r.stop_first
        then some ([], ends (returned (pos 0)))
        else on_read (read c'.interval_end r.first) (λ es. do
          _ ← sleep_until_interval_end c' r.sleep_flag r.sleep_now
          if r.stop_second
              then some (es, ends (returned (pos 0)))
              else some (es, again (finish (interval_cleanup c' true r.heartbeat))))

  -- `while (!terminate)` over the given rounds.
  unfoldable pub measure :
      (Collector → Round Source → Option (Turn W))
      → Collector
      → List (Round Source)
      → Option (List (Entry W) × Ending)
  unfolding follow
  measure turn c [] = some ([], running)
  measure turn c (r ∷ rs) =
      if r.stop_head
      then some ([], returned (pos 0))
      else (do t ← turn c r; follow (λ c'. measure turn c' rs) t)
