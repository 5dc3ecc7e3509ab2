-- ===== src/Startup/Init.antt =====
-- What `init` sets up.
use xbat_ginkgo.Base.{
  ℕ, ◌*◌, ◌<◌, ◌^◌, ◌≡◌, refl, ap, Bool, true, false, List, [], ◌∷◌, map, some, Bytes, All, arith,
}
use xbat_ginkgo.Collector.{
  Collector, construct, start_measurement, get_thread_status, thread_running,
}
use xbat_ginkgo.Startup.{interval_ms, class_names, start_all, init_classes}

-- A started collector that measures in the given interval from the given start on.
abbrev pub IsStarted : ℕ → ℕ → Collector → Type 0
IsStarted start interval c =
    (c.joinable ≡ true)
    × (get_thread_status c ≡ thread_running)
    × (c.interval_start ≡ start)
    × (c.interval ≡ interval)

abbrev started : Bytes → ℕ → ℕ → ℕ → Collector
unfolding construct
started name start interval heartbeat = record (construct name start interval heartbeat) {
  joinable = true;
  was_forcefully_terminated = false;
}

start_all_lem :
    (start interval heartbeat : ℕ) (names : List Bytes)
    → (cs : List Collector) × (start_all
          (map (λ name. construct name start interval heartbeat) names)
        ≡ some cs)
      × (map (λ c. c.module_name) cs ≡ names)
      × All (IsStarted start interval) cs
unfolding start_all start_measurement construct get_thread_status
start_all_lem start interval heartbeat [] = ([], refl, refl, tt)
start_all_lem start interval heartbeat (name ∷ names) =
    let (cs, e, same, all) = start_all_lem start interval heartbeat names in
    (
      started name start interval heartbeat ∷ cs,
      rw e refl,
      ap (◌∷◌ name) same,
      ((refl, refl, refl, refl), all),
    )

interval_ms_exact : (seconds : ℕ) → seconds * 1000 < 2 ^ 31 → interval_ms seconds ≡ seconds * 1000
unfolding interval_ms
interval_ms_exact seconds small = ground arith

-- For an interval of less than 2^31 ms the set-up succeeds: there is one running collector for each
-- class in the order of the list, with LIKWID only if it is enabled, and all of them have the same
-- start time and the interval of the job in milliseconds.
pub init_classes_lem :
    (enable_likwid : Bool) (seconds start heartbeat : ℕ)
    → seconds * 1000 < 2 ^ 31
    → (cs : List Collector) × (init_classes enable_likwid seconds start heartbeat ≡ some cs)
      × (map (λ c. c.module_name) cs ≡ class_names enable_likwid)
      × All (IsStarted start (seconds * 1000)) cs
unfolding init_classes
init_classes_lem enable_likwid seconds start heartbeat small =
    rw (interval_ms_exact seconds small)
      (start_all_lem start (seconds * 1000) heartbeat (class_names enable_likwid))
