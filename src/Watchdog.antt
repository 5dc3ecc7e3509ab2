-- ===== src/Watchdog.antt =====
-- The watchdog of src/xbatd/src/main.cpp, and src/xbatd/src/threadhelper.cpp but for its `init`.
-- `none` is the end of the process by an exception that nothing catches.
pub mod Threads
pub mod Hangs
use xbat_ginkgo.Base.{
  ℕ, suc, ◌*◌, ◌+◌, Bool, true, false, not, ◌&&◌, List, [], ◌∷◌, map, Option, some, ltb, ◌==◌,
  if◌then◌else◌, ◌>>=◌, length,
}
use xbat_ginkgo.Base.Int.{pos, sub_ℕ, ltb_ℤ}
use xbat_ginkgo.Collector.{
  Collector, get_thread_status, get_interval, get_last_heartbeat, force_stop, start_measurement,
  stop_measurement, thread_running, thread_forcefully_terminated,
}

-- `now` is the time in seconds.
abbrev pub timed_out : ℕ → Collector → Bool
timed_out now c = ltb_ℤ (pos (2 * get_interval c)) (sub_ℕ now (get_last_heartbeat c))

unfoldable pub watchdog_entry : ℕ → Collector → Option Collector
watchdog_entry now c =
    let status = get_thread_status c in
    if timed_out now c && status == thread_running
    then force_stop c
    else if status == thread_forcefully_terminated
    then start_measurement c
    else some c

-- One round over the list; all entries are held against one reading of the clock.
unfoldable pub watchdog_round : ℕ → List Collector → Option (List Collector)
unfolding watchdog_entry
watchdog_round now [] = some []
watchdog_round now (c ∷ cs) = do
  c' ← watchdog_entry now c
  cs' ← watchdog_round now cs
  some (c' ∷ cs')

-- ThreadHelper::stop
unfoldable pub stop : List Collector → List Collector
unfolding stop_measurement
stop cs = map stop_measurement cs

pub count_stopped : List Collector → ℕ → ℕ
count_stopped [] stopped = stopped
count_stopped (c ∷ cs) stopped =
    count_stopped cs (if get_thread_status c == thread_running then stopped else stopped + 1)

-- ThreadHelper::terminated
unfoldable pub terminated : List Collector → Bool
unfolding count_stopped
terminated cs = count_stopped cs 0 == length cs
