-- ===== src/Power/Runs.antt =====
-- `measure` of CEnergyIpmi and CXilinx.
use xbat_ginkgo.Base.{
  ℕ, ◌<◌, ◌≡◌, refl, ap, ◌||◌, Bool, false, List, [], ◌∷◌, map, Option, some, Bytes, codes, All,
  subst, if◌then◌else◌, ◌>>=◌,
}
use xbat_ginkgo.Base.Float.{Double}
use xbat_ginkgo.Base.Int.{pos}
use xbat_ginkgo.Base.Outcome.{Outcome, done, fails, faults, or_fault, >>=-eq-done, done_inj}
use xbat_ginkgo.Collector.{Collector}
use xbat_ginkgo.Measure.{
  Round, Ending, running, returned, threw, snapshot_turn, follow, measure, told,
}
use xbat_ginkgo.Measure.Grid.{IsRun, head_if, follow_lem, snapshot_turn_lem, measure-snapshot_turn}
use xbat_ginkgo.Power.{
  DeviceFile, energy_entry, parse, parse_value, power_output, bridged_after, read_energy, prepare,
  read_fpga,
}
use xbat_ginkgo.Power.Fpga.{read_fpga-IsAt}
use xbat_ginkgo.Queue.{Entry, IsAt}
use xbat_ginkgo.Text.{split_str}

-- There is no test of `terminate` behind `synchronizeMeasurement`.
pub untested : {S : Type 0} → Round S → Round S
untested r = record r { stop_first = false }

told-untested : {S : Type 0} (rs : List (Round S)) → told (map untested rs) ≡ told rs
unfolding untested
told-untested [] = refl
told-untested (r ∷ rs) = ap (λ b. r.stop_head || b) (told-untested rs)

module _ {W : Type 0} where
  pub measure_energy :
      Bool → Collector → List (Round (Bytes × Bytes)) → Option (List (Entry W) × Ending)
  measure_energy bridged c [] = some ([], running)
  measure_energy bridged c (r ∷ rs) = if r.stop_head then some ([], returned (pos 0)) else (do
    t ← snapshot_turn (read_energy bridged) (λ c. c) c r
    follow (λ c'. measure_energy (bridged_after bridged r.first) c' rs) t)

  parse-IsAt :
      (ts : ℕ) (text : Bytes) (es : List (Entry W)) → parse ts text ≡ done es → All (IsAt ts) es
  unfolding parse
  parse-IsAt ts text es h =
      let (split, _, h₁) = >>=-eq-done (or_fault (split_str text (codes ":"))) _ h in
      let (value, _, h₂) = >>=-eq-done (parse_value split) _ h₁ in
      let at : All {A = Entry W} (IsAt ts) (energy_entry ts value ∷ []) = (refl, tt) in
      subst (All (IsAt ts)) (done_inj h₂) at

  read_energy-IsAt :
      (bridged : Bool) (ts : ℕ) (texts : Bytes × Bytes) (es : List (Entry W))
      → read_energy bridged ts texts ≡ done es
      → All (IsAt ts) es
  unfolding read_energy
  read_energy-IsAt bridged ts texts es h =
      let (r, _, h₁) = >>=-eq-done (power_output bridged texts) _ h in parse-IsAt ts _ es h₁

  -- With a positive interval, whatever the rounds find: every round of `CEnergyIpmi::measure`
  -- ends, with the plain and the bridged request, by going on, by a result or by an exception, and
  -- every time stamp that is pushed lies a whole, positive number of intervals behind the start
  -- time.
  pub measure_energy_lem :
      (bridged : Bool) (c : Collector) (rs : List (Round (Bytes × Bytes)))
      → 0 < c.interval
      → IsRun c (told rs) (measure_energy bridged c rs)
  unfolding measure_energy
  measure_energy_lem bridged c [] positive = ([], running, refl, tt, (λ h. cc))
  measure_energy_lem bridged c (r ∷ rs) positive =
      let (pushed, next, e, at, follows) =
        snapshot_turn_lem (read_energy bridged) (λ c. c) (λ c. (refl, refl))
          (read_energy-IsAt bridged) c r positive in
      head_if r.stop_head (told rs) c _ (
        rw e (
          follow_lem c (told rs) _ positive
            (λ c' positive'. measure_energy_lem (bridged_after bridged r.first) c' rs positive')
            pushed next at follows))

module _ {W : Type 0} ⦃d : Double W⦄ where
  -- `bdfs` is what `prepare` has found; a round gives the files of the devices.
  pub measure_devices :
      List Bytes → Collector → List (Round (Bytes → DeviceFile)) → Option (List (Entry W) × Ending)
  unfolding untested
  measure_devices bdfs c rs =
      measure (snapshot_turn (λ ts files. read_fpga ts (map (λ b. (b, files b)) bdfs)) (λ c. c)) c
        (map untested rs)

  -- The text of `lspci` comes first.
  pub measure_fpga :
      Bytes → Collector → List (Round (Bytes → DeviceFile)) → Option (List (Entry W) × Ending)
  unfolding measure_devices
  measure_fpga text c rs = elim (prepare text) [
    | done bdfs ↦ measure_devices bdfs c rs
    | fails ↦ some ([], returned (pos 1))
    | faults ↦ some ([], threw)
  ]

  prepared :
      (o : Outcome (List Bytes)) (c : Collector) (rs : List (Round (Bytes → DeviceFile)))
      → 0 < c.interval
      → IsRun {W = W} c (told (map untested rs)) (elim o [
        | done bdfs ↦ measure_devices bdfs c rs
        | fails ↦ some ([], returned (pos 1))
        | faults ↦ some ([], threw)
      ])
  unfolding measure_devices
  prepared (done bdfs) c rs positive =
      measure-snapshot_turn _ (λ c. c) c (map untested rs) (λ c. (refl, refl))
        (λ ts files es h. read_fpga-IsAt ts (map (λ b. (b, files b)) bdfs) es h) positive
  prepared fails c rs positive = ([], returned (pos 1), refl, tt, (λ _ h. cc))
  prepared faults c rs positive = ([], threw, refl, tt, (λ _ h. cc))

  -- With a positive interval, whatever `lspci` prints and the rounds find: `CXilinx::measure`
  -- returns at once or each of its rounds ends, by going on, by a result or by an exception, and
  -- every time stamp that is pushed lies a whole, positive number of intervals behind the start
  -- time.
  pub measure_fpga_lem :
      (text : Bytes) (c : Collector) (rs : List (Round (Bytes → DeviceFile)))
      → 0 < c.interval
      → IsRun {W = W} c (told rs) (measure_fpga text c rs)
  unfolding measure_fpga
  measure_fpga_lem text c rs positive =
      subst (λ b. IsRun c b (measure_fpga text c rs)) (told-untested rs)
        (prepared (prepare text) c rs positive)
