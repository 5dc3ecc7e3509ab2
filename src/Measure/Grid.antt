-- ===== src/Measure/Grid.antt =====
-- The time stamps that `measure` pushes, that its rounds end, and that it ends when it is told to.
use xbat_ginkgo.Base.{
  ℕ, suc, ◌+◌, ◌*◌, ◌<◌, ◌≡◌, ◌≢◌, refl, ◌∙◌, ◌||◌, inl, inr, Bool, true, false, List, [], ◌∷◌,
  ◌++◌, Option, some, arith, All, All-append, Bool-cases, if◌then◌else◌,
}
use xbat_ginkgo.Base.Int.{ℤ, pos, negsuc, ltb_ℤ}
use xbat_ginkgo.Base.Outcome.{Outcome, done, fails, faults}
use xbat_ginkgo.Collector.{
  Collector, ms, sleep_until_interval_end, interval_cleanup, milliseconds_until,
  sleep_milliseconds_and_check,
}
use xbat_ginkgo.Collector.Interval.{synchronize_measurement_lem}
use xbat_ginkgo.Collector.Sleep.{sleep_milliseconds_and_check_lem}
use xbat_ginkgo.Measure.{
  Round, Ending, running, returned, threw, Next, again, ends, Turn, on_read, delta_turn,
  snapshot_turn, follow, measure, told,
}
use xbat_ginkgo.Queue.{Entry, stamp, IsAt}

-- A whole, positive number of intervals behind `start`.
abbrev pub IsOnGrid : ℕ → ℕ → ℕ → Type 0
IsOnGrid start interval t = (k : ℕ) × (t ≡ start + suc k * interval * ms)

abbrev IsFollowedBy : Collector → Next → Type 0
IsFollowedBy c (ends e) = e ≢ running
IsFollowedBy c (again c') =
    (c'.interval ≡ c.interval) × IsOnGrid c.interval_start c.interval c'.interval_start

sleep_remaining :
    (flag : ℕ → Bool) (a : ℤ)
    → (t : ℕ) × ((if ltb_ℤ (pos 0) a then sleep_milliseconds_and_check flag a else some 0) ≡ some t)
unfolding sleep_milliseconds_and_check
sleep_remaining flag (pos n) =
    let (t, e, _) = sleep_milliseconds_and_check_lem flag n in
    elim (Bool-cases (ltb_ℤ (pos 0) (pos n))) [
      | inl left ↦ (t, rw (left, e) refl)
      | inr over ↦ (0, rw over refl)
    ]
sleep_remaining flag (negsuc n) = (0, ground arith)

sleep_until_lem :
    (c : Collector) (flag : ℕ → Bool) (now : ℕ)
    → (t : ℕ) × (sleep_until_interval_end c flag now ≡ some t)
unfolding sleep_until_interval_end
sleep_until_lem c flag now = sleep_remaining flag (milliseconds_until c.interval_end now)

grid_sum :
    (start start' t k j i i' : ℕ)
    → i' ≡ i
    → start' ≡ start + suc k * i * ms
    → t ≡ start' + suc j * i' * ms
    → t ≡ start + suc (suc (k + j)) * i * ms
grid_sum start start' t k j i i' same on at = grind arith

-- What is done at the end of a round keeps the interval and its start.
abbrev pub Keeps : (Collector → Collector) → Type 0
Keeps finish =
    (c : Collector)
    → ((finish c).interval ≡ c.interval) × ((finish c).interval_start ≡ c.interval_start)

module _ {W : Type 0} where
  abbrev pub IsStamped : Collector → Entry W → Type 0
  IsStamped c e = IsOnGrid c.interval_start c.interval (stamp e)

  -- The round returns, stamps its entries on the grid and moves the start of the interval along it.
  abbrev pub IsTurn : Collector → Option (Turn W) → Type 0
  IsTurn c t =
      (es : List (Entry W)) × (next : Next) × (t ≡ some (es, next))
      × All (IsStamped c) es
      × IsFollowedBy c next

  pub on_read_lem :
      {A : Type 0} (c : Collector) (o : Outcome A) (rest : A → Option (Turn W))
      → ((a : A) → o ≡ done a → IsTurn c (rest a))
      → IsTurn c (on_read o rest)
  unfolding on_read
  on_read_lem c (done a) rest h = h a refl
  on_read_lem c fails rest h = ([], ends (returned (pos 1)), refl, tt, (λ h. cc))
  on_read_lem c faults rest h = ([], ends threw, refl, tt, (λ h. cc))

  pub stop_if :
      (b : Bool) (c : Collector) (es : List (Entry W)) (rest : Option (Turn W))
      → All (IsStamped c) es
      → IsTurn c rest
      → IsTurn c (if b then some (es, ends (returned (pos 0))) else rest)
  stop_if true c es rest at h = (es, ends (returned (pos 0)), refl, at, (λ h. cc))
  stop_if false c es rest at h = h

  pub All-IsStamped :
      (c : Collector) (ts : ℕ)
      → IsOnGrid c.interval_start c.interval ts
      → (es : List (Entry W)) → All (IsAt ts) es
      → All (IsStamped c) es
  All-IsStamped c ts on [] at = tt
  All-IsStamped c ts on (e ∷ es) (at, rest) = (rw at on, All-IsStamped c ts on es rest)

  delta_turn_lem :
      {Source R : Type 0} (read : Source → Outcome R) (usage : ℕ → R → R → Outcome (List (Entry W)))
      → ((ts : ℕ) (p q : R) (es : List (Entry W)) → usage ts p q ≡ done es → All (IsAt ts) es)
      → (c : Collector) (r : Round Source) → 0 < c.interval
      → IsTurn c (delta_turn read usage c r)
  unfolding delta_turn interval_cleanup
  delta_turn_lem read usage stamped c r positive =
      let (c', slept, e, sync) = synchronize_measurement_lem c r.flag r.now positive in
      let (t, e') = sleep_until_lem c' r.sleep_flag r.sleep_now in
      rw e (
        stop_if r.stop_first c [] _ tt (
          on_read_lem c (read r.first) _ (λ previous _. rw e' (
            stop_if r.stop_second c [] _ tt (
              on_read_lem c (read r.second) _ (λ current _.
                on_read_lem c (usage c'.interval_end previous current) _ (λ es u. (
                  es,
                  again (interval_cleanup c' true r.heartbeat),
                  refl,
                  All-IsStamped c _ sync.placed.on_grid es (stamped _ previous current es u),
                  (sync.same_interval, sync.placed.on_grid),
                ))))))))

  pub snapshot_turn_lem :
      {Source : Type 0} (read : ℕ → Source → Outcome (List (Entry W)))
      (finish : Collector → Collector)
      → Keeps finish
      → ((ts : ℕ) (s : Source) (es : List (Entry W)) → read ts s ≡ done es → All (IsAt ts) es)
      → (c : Collector) (r : Round Source) → 0 < c.interval
      → IsTurn c (snapshot_turn read finish c r)
  unfolding snapshot_turn interval_cleanup
  snapshot_turn_lem read finish keeps stamped c r positive =
      let (c', slept, e, sync) = synchronize_measurement_lem c r.flag r.now positive in
      let (t, e') = sleep_until_lem c' r.sleep_flag r.sleep_now in
      let (same, start) = keeps (interval_cleanup c' true r.heartbeat) in
      rw e (
        stop_if r.stop_first c [] _ tt (
          on_read_lem c (read c'.interval_end r.first) _ (λ es u.
            let at = All-IsStamped c _ sync.placed.on_grid es (stamped _ r.first es u) in
            rw e' (
              stop_if r.stop_second c es _ at (
                es,
                again _,
                refl,
                at,
                (same ∙ sync.same_interval, rw start sync.placed.on_grid),
              )))))

  grid_later :
      (c c' : Collector)
      → c'.interval ≡ c.interval
      → IsOnGrid c.interval_start c.interval c'.interval_start
      → (es : List (Entry W)) → All (IsStamped c') es
      → All (IsStamped c) es
  grid_later c c' same (k, on) [] at = tt
  grid_later c c' same (k, on) (e ∷ es) ((j, at), rest) =
      ((suc (k + j), grid_sum _ _ _ k j _ _ same on at), grid_later c c' same (k, on) es rest)

  -- A run returns, stamps its entries on the grid, and has ended if it was told to.
  abbrev pub IsRun : Collector → Bool → Option (List (Entry W) × Ending) → Type 0
  IsRun c stopped o =
      (es : List (Entry W)) × (e : Ending) × (o ≡ some (es, e))
      × All (IsStamped c) es
      × (stopped ≡ true → e ≢ running)

  pub head_if :
      (b stopped : Bool) (c : Collector) (rest : Option (List (Entry W) × Ending))
      → IsRun c stopped rest
      → IsRun c (b || stopped) (if b then some ([], returned (pos 0)) else rest)
  head_if true stopped c rest h = ([], returned (pos 0), refl, tt, (λ _ h. cc))
  head_if false stopped c rest h = h

  pub follow_lem :
      (c : Collector) (stopped : Bool) (rest : Collector → Option (List (Entry W) × Ending))
      → 0 < c.interval
      → ((c' : Collector) → 0 < c'.interval → IsRun c' stopped (rest c'))
      → (pushed : List (Entry W)) (next : Next) → All (IsStamped c) pushed
      → IsFollowedBy c next
      → IsRun c stopped (follow rest (pushed, next))
  unfolding follow
  follow_lem c stopped rest positive right pushed (ends e) at follows =
      (pushed, e, refl, at, (λ _. follows))
  follow_lem c stopped rest positive right pushed (again c') at (same, on) =
      let (more, e, eq, at', ended) = right c' (rw same positive) in
      (
        pushed ++ more,
        e,
        rw eq refl,
        All-append (IsStamped c) pushed more at (grid_later c c' same on more at'),
        ended,
      )

  pub measure-IsRun :
      {Source : Type 0} (turn : Collector → Round Source → Option (Turn W))
      → ((c : Collector) (r : Round Source) → 0 < c.interval → IsTurn c (turn c r))
      → (c : Collector) (rs : List (Round Source)) → 0 < c.interval
      → IsRun c (told rs) (measure turn c rs)
  unfolding measure
  measure-IsRun turn right c [] positive = ([], running, refl, tt, (λ h. cc))
  measure-IsRun turn right c (r ∷ rs) positive =
      let (pushed, next, e, at, follows) = right c r positive in
      head_if r.stop_head (told rs) c _ (
        rw e (
          follow_lem c (told rs) _ positive
            (λ c' positive'. measure-IsRun turn right c' rs positive') pushed next at follows))

  -- A collector with a positive interval that reads twice in an interval and stamps what it pushes
  -- with the interval's end: whatever the rounds find, `measure` neither blocks nor runs for ever
  -- within a round, every time stamp it pushes lies a whole, positive number of intervals after the
  -- start time of the job, and it has ended if a head of the loop found `terminate` set.
  pub measure-delta_turn :
      {Source R : Type 0} (read : Source → Outcome R) (usage : ℕ → R → R → Outcome (List (Entry W)))
      (c : Collector) (rs : List (Round Source))
      → ((ts : ℕ) (p q : R) (es : List (Entry W)) → usage ts p q ≡ done es → All (IsAt ts) es)
      → 0 < c.interval
      → IsRun c (told rs) (measure (delta_turn read usage) c rs)
  measure-delta_turn read usage c rs stamped positive =
      measure-IsRun (delta_turn read usage) (delta_turn_lem read usage stamped) c rs positive

  -- The same of a collector that pushes one reading in each interval, as `CMemUsage` does.
  pub measure-snapshot_turn :
      {Source : Type 0} (read : ℕ → Source → Outcome (List (Entry W)))
      (finish : Collector → Collector) (c : Collector) (rs : List (Round Source))
      → Keeps finish
      → ((ts : ℕ) (s : Source) (es : List (Entry W)) → read ts s ≡ done es → All (IsAt ts) es)
      → 0 < c.interval
      → IsRun c (told rs) (measure (snapshot_turn read finish) c rs)
  measure-snapshot_turn read finish c rs keeps stamped positive =
      measure-IsRun (snapshot_turn read finish) (snapshot_turn_lem read finish keeps stamped) c rs
        positive
