-- ===== src/Likwid/Budget.antt =====
-- The time that one call of measureSets takes, and the overhead that it predicts for the next.
use xbat_ginkgo.Base.{ℕ, ◌+◌, ◌*◌, ◌/◌, ◌^◌, ◌≤◌, ◌<◌, ◌≡◌, not, List, [], ◌∷◌, arith, length}
use native.Mathlib.Nat.{mul-div-le}
use xbat_ginkgo.Base.Outcome.{done, Ensures, Ensures-done, Ensures-if, done_inj}
use xbat_ginkgo.Collector.Sleep.{sleep_milliseconds_and_check_lem}
use xbat_ginkgo.Likwid.Sets.{
  SetRun, Counted, stopped, counted, count_sets, set_time_of, next_overhead,
}

-- If the overhead predicted before, in milliseconds, and the overhead measured, in microseconds,
-- are less than 2^61, then the new prediction lies between the former and the latter in
-- milliseconds.
pub next_overhead_lem :
    (cycle_overhead overhead : ℕ)
    → cycle_overhead < 2 ^ 61
    → overhead < 2 ^ 61
    → (cycle_overhead ≤ overhead / 1000
        → (cycle_overhead ≤ next_overhead cycle_overhead overhead)
          × (next_overhead cycle_overhead overhead ≤ overhead / 1000))
      × (overhead / 1000 ≤ cycle_overhead
          → (overhead / 1000 ≤ next_overhead cycle_overhead overhead)
            × (next_overhead cycle_overhead overhead ≤ cycle_overhead))
unfolding next_overhead
next_overhead_lem cycle_overhead overhead small small' = (
  (λ h. (omega (arith, small, small', h), omega (arith, small, small', h))),
  (λ h. (omega (arith, small, small', h), omega (arith, small, small', h))),
)

-- At most `limit` milliseconds slept.
abbrev IsWithin : ℕ → Counted → Type 0
IsWithin limit stopped = Unit
IsWithin limit (counted overheads slept) = slept ≤ limit

count_sets-IsWithin :
    (set_time : ℕ) (run_of : ℕ → SetRun) (gids : List ℕ) (overheads slept limit : ℕ)
    → slept + length gids * set_time ≤ limit
    → Ensures (IsWithin limit) (count_sets set_time run_of gids overheads slept)
unfolding count_sets
count_sets-IsWithin set_time run_of [] overheads slept limit h = omega (arith, h)
count_sets-IsWithin set_time run_of (gid ∷ gids) overheads slept limit h =
    let r = run_of gid in
    let (t, e, s) = sleep_milliseconds_and_check_lem r.sleep_flag set_time in
    Ensures-if (IsWithin limit) r.terminate _ _ (λ _. tt)
      (λ _.
        Ensures-if (IsWithin limit) (not r.setup_ok) _ _ (λ _. tt)
          (λ _.
            Ensures-if (IsWithin limit) (not r.start_ok) _ _ (λ _. tt)
              (λ _. rw e (
                Ensures-if (IsWithin limit) (not r.stop_ok) _ _ (λ _. tt)
                  (λ _.
                    count_sets-IsWithin set_time run_of gids _ (slept + t) limit
                      (grind (arith, s.within, h)))))))

-- If `measureSets` gets a time for each set and its loop runs all sets, then the sleeps of the
-- call last together at most as long as the time that is available to it beyond the predicted
-- overhead, and there is at least one set.
pub count_sets_lem :
    (available set_time overheads slept : ℕ) (run_of : ℕ → SetRun) (gids : List ℕ)
    → set_time_of available (length gids) ≡ done set_time
    → count_sets set_time run_of gids 0 0 ≡ done (counted overheads slept)
    → (slept ≤ available) × (0 < length gids)
unfolding set_time_of
count_sets_lem available set_time overheads slept run_of [] h h' = cc
count_sets_lem available set_time overheads slept run_of (gid ∷ gids) h h' =
    let product : length (gid ∷ gids) * set_time ≤ available =
      rw (← done_inj h) (mul-div-le available (length (gid ∷ gids))) in
    (
      Ensures-done (IsWithin available) _
          (count_sets-IsWithin set_time run_of (gid ∷ gids) 0 0 available (grind (arith, product)))
          h',
      omega arith,
    )
