-- ===== src/Collector/Interval.antt =====
-- Where `synchronizeMeasurement` puts the measurement interval.
use native.Mathlib.Nat.{mod-lt, div-add-mod}
use xbat_ginkgo.Base.{
  ℕ, suc, ◌+◌, ◌-◌, ◌*◌, ◌/◌, ◌%◌, ◌≤◌, ◌<◌, ◌≡◌, refl, inl, inr, Bool, true, false, some, arith,
  Bool-cases,
}
use xbat_ginkgo.Base.Int.{ℤ, pos, negsuc, ltb_ℤ, abs, ◌≤ℤ◌, ◌+ℤ◌, ◌-ℤ◌}
use xbat_ginkgo.Collector.{
  ms, milliseconds_until, next_end, settle, Collector, synchronize_measurement,
  sleep_milliseconds_and_check,
}
use xbat_ginkgo.Collector.Sleep.{Sleeps, sleep_milliseconds_and_check_lem}

-- What the end of an interval promises, for an interval from `start` that is entered at `now`: it
-- lies a whole number of intervals after `start`, ahead of `now` (except that an interval of less
-- than 4 ms may end at once) and, if the interval has begun, at most two intervals ahead.
pub record IsNextEnd (interval start now end : ℕ) : Type 0 where
  pub on_grid : (k : ℕ) × (end ≡ start + suc k * interval * ms)
  pub ahead : 4 ≤ interval → now < end
  pub time_left : pos 0 ≤ℤ milliseconds_until end now
  pub soon : start ≤ now → end ≤ now + 2 * interval * ms

module _ (interval start now : ℕ) (positive : 0 < interval) where
  abbrev end₀ : ℕ
  end₀ = start + interval * ms

  abbrev catchup : ℕ
  catchup = abs (milliseconds_until end₀ now)

  whole_intervals : (m : ℕ) → m - m % interval + interval ≡ suc (m / interval) * interval
  whole_intervals m = grind (arith, div-add-mod m interval)

  mod-le : (m : ℕ) → m % interval ≤ m
  mod-le m = grind (arith, div-add-mod m interval)

  -- Less than a quarter of the interval is left, or it is over.
  caught_up :
      ltb_ℤ (milliseconds_until end₀ now) (pos (interval / 4)) ≡ true
      → IsNextEnd interval start now (end₀ + (catchup - catchup % interval + interval) * ms)
  caught_up little = record {
    on_grid = (suc (catchup / interval), grind (arith, whole_intervals catchup));
    ahead = λ _. ground (arith, mod-lt catchup positive, mod-le catchup);
    time_left = ground (arith, mod-lt catchup positive, mod-le catchup);
    soon = λ begun. ground (arith, mod-lt catchup positive, mod-le catchup);
  }

  in_time :
      ltb_ℤ (milliseconds_until end₀ now) (pos (interval / 4)) ≡ false
      → IsNextEnd interval start now end₀
  in_time enough = record {
    on_grid = (0, omega arith);
    ahead = λ long. ground arith;
    time_left = ground arith;
    soon = λ begun. omega arith;
  }

  next_end_lem : IsNextEnd interval start now (next_end interval start now)
  unfolding next_end
  next_end_lem = elim (Bool-cases (ltb_ℤ (milliseconds_until end₀ now) (pos (interval / 4)))) [
    | inl little ↦ rw (little, next_end) (caught_up little)
    | inr enough ↦ rw (enough, next_end) (in_time enough)
  ]

-- The rest of `synchronizeMeasurement`: a time left of more than an interval is slept away.
pub record IsSynchronized (c : Collector) (terminate : ℕ → Bool) (now : ℕ) (c' : Collector)
    (slept : ℕ) : Type 0 where
  pub same_interval : c'.interval ≡ c.interval
  pub placed : IsNextEnd c.interval c.interval_start now c'.interval_end
  pub left_low : pos 0 ≤ℤ c'.time_left
  pub left_high : c'.time_left ≤ℤ pos c.interval
  pub waits :
      ((i : ℕ) → terminate i ≡ false)
      → pos slept +ℤ c'.time_left ≡ milliseconds_until c'.interval_end now

minus_pos : (m n : ℕ) → n ≤ m → pos m -ℤ pos n ≡ pos (m - n)
minus_pos m n h = ground arith

zero_plus : (a : ℤ) → pos 0 +ℤ a ≡ a
zero_plus (pos n) = ground arith
zero_plus (negsuc n) = ground arith

plus_pos : (t m n : ℕ) → n ≤ m → t ≡ m - n → pos t +ℤ pos n ≡ pos m
plus_pos t m n h e = ground arith

slept_all :
    (terminate : ℕ → Bool) (n t : ℕ)
    → Sleeps terminate 0 n t
    → ((i : ℕ) → terminate i ≡ false)
    → t ≡ n
slept_all terminate n t s off = elim s.ended [
  | inl e ↦ e
  | inr (j, _, flag) ↦ cc (off (0 + j), flag)
]

-- Sleeping away what exceeds `n` milliseconds.
sleep_excess :
    (terminate : ℕ → Bool) (a : ℤ) (n : ℕ)
    → pos n ≤ℤ a
    → (t : ℕ) × (sleep_milliseconds_and_check terminate (a -ℤ pos n) ≡ some t)
      × (((i : ℕ) → terminate i ≡ false) → pos t +ℤ pos n ≡ a)
sleep_excess terminate (pos m) n h =
    let le : n ≤ m = omega arith in
    let (t, e, s) = sleep_milliseconds_and_check_lem terminate (m - n) in
    (t, rw (minus_pos m n le) e, λ off. plus_pos t m n le (slept_all terminate (m - n) t s off))
sleep_excess terminate (negsuc m) n h = absurd (omega arith)

settle_lem :
    (c : Collector) (terminate : ℕ → Bool) (end : ℕ) (left : ℤ)
    → pos 0 ≤ℤ left
    → (c' : Collector) × (slept : ℕ) × (settle c terminate end left ≡ some (c', slept))
      × (c'.interval ≡ c.interval)
      × (c'.interval_end ≡ end)
      × (pos 0 ≤ℤ c'.time_left)
      × (c'.time_left ≤ℤ pos c.interval)
      × (((i : ℕ) → terminate i ≡ false) → pos slept +ℤ c'.time_left ≡ left)
unfolding settle
settle_lem c terminate end left low = elim (Bool-cases (ltb_ℤ (pos c.interval) left)) [
  | inl early ↦
      let (t, e, all) = sleep_excess terminate left c.interval (ground arith) in
      (after (pos c.interval), t, rw (early, e), refl, refl, omega arith, omega arith, all)
  | inr due ↦ (after left, 0, rw due, refl, refl, low, ground arith, λ _. zero_plus left)
]
  where
    after : ℤ → Collector
    after left = record c {
      interval_end = end;
      time_left = left;
      interval_start = end + c.interval * ms;
    }

-- With a positive interval `synchronizeMeasurement` always returns and keeps `interval`. The new
-- end of the interval lies on the grid of the intervals and ahead of the clock as `IsNextEnd` says;
-- the time left is between 0 and one interval; and if the thread is not terminated, the time slept
-- and the time left add up to the time that was left until the end when the call read the clock.
pub synchronize_measurement_lem :
    (c : Collector) (terminate : ℕ → Bool) (now : ℕ)
    → 0 < c.interval
    → (c' : Collector) × (slept : ℕ) × (synchronize_measurement c terminate now ≡ some (c', slept))
      × IsSynchronized c terminate now c' slept
unfolding synchronize_measurement
synchronize_measurement_lem c terminate now positive =
    let placed = next_end_lem c.interval c.interval_start now positive in
    let (c', slept, e, same, at_end, low, high, waits) =
      settle_lem c terminate _ _ placed.time_left in
    (
      c',
      slept,
      e,
      record {
        same_interval = same;
        placed = rw at_end placed;
        left_low = low;
        left_high = high;
        waits = rw at_end waits;
      },
    )
