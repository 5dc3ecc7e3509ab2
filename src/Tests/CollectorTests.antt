-- ===== src/Tests/CollectorTests.antt =====
-- CDataCollectionBase.cpp, threadhelper.cpp and the watchdog of main.cpp: runs, and the theorems
-- applied.
use xbat_ginkgo.Base.{ℕ, ◌≡◌, refl, ◌≢◌, ◌⊎◌, Bool, true, false, none, some, codes, arith}
use xbat_ginkgo.Base.Int.{pos}
use xbat_ginkgo.Collector.{
  Collector, construct, stop_measurement, synchronize_measurement, sleep_milliseconds_and_check,
  get_thread_status, get_interval, get_last_heartbeat, force_stop, thread_forcefully_terminated,
}
use xbat_ginkgo.Collector.Sleep.{Sleeps, sleep_milliseconds_and_check_lem}
use xbat_ginkgo.Collector.Interval.{IsSynchronized, synchronize_measurement_lem}
use xbat_ginkgo.Watchdog.{timed_out, watchdog_entry}
use xbat_ginkgo.Watchdog.Hangs.{here, next, stops, never_restarted, second_stop_faults}

abbrev never : ℕ → Bool
never i = false

-- Started at 0 s, with an interval of 5 s and the heartbeat at 100 s.
abbrev pub idle : Collector
idle = record {
  module_name = codes "CPU";
  interval = 5000;
  interval_start = 0;
  interval_end = 0;
  time_left = pos 0;
  last_heartbeat = 100;
  has_terminated = false;
  was_forcefully_terminated = false;
  self_terminated = false;
  terminate = false;
  joinable = true;
  launch_locked = false;
  clean_up_locked = true;
}

sleep_runs : sleep_milliseconds_and_check never (pos 2500) ≡ some 2500
unfolding sleep_milliseconds_and_check
sleep_runs = refl

sleep_milliseconds_and_check_lem_example :
    (t : ℕ) × (sleep_milliseconds_and_check never (pos 2500) ≡ some t) × Sleeps never 0 2500 t
sleep_milliseconds_and_check_lem_example = sleep_milliseconds_and_check_lem never 2500

-- Entered 12 s after the start of the interval.
synchronize_measurement_lem_example :
    (c : Collector) × (slept : ℕ) × (synchronize_measurement idle never 12_000_000_000
      ≡ some (c, slept))
    × IsSynchronized idle never 12_000_000_000 c slept
synchronize_measurement_lem_example =
    synchronize_measurement_lem idle never 12_000_000_000 (omega arith)

abbrev fresh : Collector
fresh = stop_measurement (construct (codes "CPU") 0 5000 100)

never_restarted_example :
    (get_thread_status fresh ≢ thread_forcefully_terminated)
    × ((fresh ≡ fresh)
        ⊎ ((timed_out 101 fresh ≡ true) × (fresh ≡ record fresh { joinable = false })))
unfolding construct stop_measurement watchdog_entry get_thread_status get_interval
    get_last_heartbeat
never_restarted_example =
    never_restarted (codes "CPU") 0 5000 100 101 fresh fresh (next here (stops _)) refl

second_stop_faults_example : watchdog_entry 10_105 (record idle { joinable = false }) ≡ none
unfolding watchdog_entry get_thread_status get_interval get_last_heartbeat force_stop
second_stop_faults_example =
    second_stop_faults idle (record idle { joinable = false }) 10_102 10_105 refl refl refl
      (omega arith)
