-- ===== src/Collector.antt =====
-- src/xbatd/src/CDataCollectionBase.{hpp,cpp}: the base class of the collectors. A time point is
-- the system clock's count of nanoseconds, and the clock's reading is an argument of each call.
pub mod Sleep
pub mod Interval
pub mod Thread
use mathlib.Core.Option
use xbat_ginkgo.Base.{
  ℕ, zero, suc, ◌+◌, ◌-◌, ◌*◌, ◌/◌, ◌%◌, Bool, true, false, not, ◌&&◌, Option, none, some, Bytes,
  ltb, if◌then◌else◌,
}
use xbat_ginkgo.Base.Int.{ℤ, pos, negsuc, sub_ℕ, ◌-ℤ◌, ltb_ℤ, abs, quot}

-- Nanoseconds in a millisecond.
abbrev pub ms : ℕ
ms = 1_000_000

abbrev pub sleep_interval_milliseconds : ℕ
sleep_interval_milliseconds = 1000

-- THREAD_RUNNING and so on, of helper.hpp.
abbrev pub thread_running : ℕ
thread_running = 0

abbrev pub thread_terminated : ℕ
thread_terminated = 1

abbrev pub thread_forcefully_terminated : ℕ
thread_forcefully_terminated = 2

abbrev pub thread_self_terminated : ℕ
thread_self_terminated = 3

-- `interval` and `time_left` count milliseconds, `last_heartbeat` seconds. `joinable` is the state
-- of `measurementThread`; the two mutexes are held or free.
pub record Collector : Type 0 where
  pub module_name : Bytes
  pub interval : ℕ
  pub interval_start : ℕ
  pub interval_end : ℕ
  pub time_left : ℤ
  pub last_heartbeat : ℕ
  pub has_terminated : Bool
  pub was_forcefully_terminated : Bool
  pub self_terminated : Bool
  pub terminate : Bool
  pub joinable : Bool
  pub launch_locked : Bool
  pub clean_up_locked : Bool

-- The constructor of the base class and the body of a derived class's, which frees `launchMutex`.
unfoldable pub construct : Bytes → ℕ → ℕ → ℕ → Collector
construct name start_time interval now = record {
  module_name = name;
  interval = interval;
  interval_start = start_time;
  interval_end = 0;
  time_left = pos 0;
  last_heartbeat = now;
  has_terminated = false;
  was_forcefully_terminated = false;
  self_terminated = false;
  terminate = false;
  joinable = false;
  launch_locked = false;
  clean_up_locked = true;
}

unfoldable pub get_thread_status : Collector → ℕ
get_thread_status c =
    if c.has_terminated
    then thread_terminated
    else if c.was_forcefully_terminated
    then thread_forcefully_terminated
    else if c.self_terminated
    then thread_self_terminated
    else thread_running

-- Assigning to a `std::thread` that is joinable ends the process: `none`.
unfoldable pub start_measurement : Collector → Option Collector
start_measurement c =
    if c.joinable
    then none
    else some (record c { joinable = true; was_forcefully_terminated = false })

-- What the thread does with the result of `measure`; `none` while `launchMutex` is held, where the
-- thread blocks.
unfoldable pub create_thread_and_measure : ℤ → Collector → Option Collector
create_thread_and_measure result c =
    if c.launch_locked
    then none
    else some (elim result [
      | pos zero ↦ record c { has_terminated = true; clean_up_locked = false }
      | pos (suc n) ↦ record c { self_terminated = true; clean_up_locked = false }
      | negsuc n ↦ record c { self_terminated = true; clean_up_locked = false }
    ])

unfoldable pub stop_measurement : Collector → Collector
stop_measurement c = record c { terminate = true }

-- `detach` of a thread that is not joinable throws, and nothing catches it: `none`. The statement
-- behind `return` is not reached.
unfoldable pub force_stop : Collector → Option Collector
force_stop c = if c.joinable then some (record c { joinable = false }) else none

-- The destructors: the derived class waits for `cleanUpMutex` (`none` while it is held), and the
-- base class joins the thread, which throws if that is not joinable (`none`).
unfoldable pub destroy : Collector → Option (Unit {0})
destroy c =
    if c.clean_up_locked
    then none
    else if c.was_forcefully_terminated
    then some tt
    else if c.joinable
    then some tt
    else none

unfoldable pub get_interval : Collector → ℕ
get_interval c = c.interval

unfoldable pub get_last_heartbeat : Collector → ℕ
get_last_heartbeat c = c.last_heartbeat

-- `terminate i` is the flag at the i-th test of the loop. The result is the time slept in all, in
-- milliseconds; `none` means that the fuel ran out.
pub sleep_loop : ℕ → (ℕ → Bool) → ℕ → ℕ → ℕ → Option ℕ
sleep_loop zero terminate i sleep_left slept = none
sleep_loop (suc fuel) terminate i sleep_left slept =
    let next =
      sleep_loop fuel terminate (i + 1) (sleep_left - sleep_interval_milliseconds)
        (slept + sleep_interval_milliseconds) in
    if ltb 0 sleep_left && not (terminate i)
    then (if ltb sleep_left sleep_interval_milliseconds then some (slept + sleep_left) else next)
    else some slept

unfoldable pub sleep_milliseconds_and_check : (ℕ → Bool) → ℤ → Option ℕ
unfolding sleep_loop
sleep_milliseconds_and_check terminate (pos n) =
    sleep_loop (n / sleep_interval_milliseconds + 1) terminate 0 n 0
sleep_milliseconds_and_check terminate (negsuc n) = some 0

-- `duration_cast<milliseconds>(end - now)`.
abbrev pub milliseconds_until : ℕ → ℕ → ℤ
milliseconds_until end now = quot (sub_ℕ end now) ms

unfoldable pub sleep_until_interval_end : Collector → (ℕ → Bool) → ℕ → Option ℕ
unfolding sleep_milliseconds_and_check
sleep_until_interval_end c terminate now =
    let remaining = milliseconds_until c.interval_end now in
    if ltb_ℤ (pos 0) remaining then sleep_milliseconds_and_check terminate remaining else some 0

-- The end of the interval to measure in, after catching up if too little of it is left.
pub next_end : ℕ → ℕ → ℕ → ℕ
next_end interval start now =
    let end = start + interval * ms in
    let remaining = milliseconds_until end now in
    let catchup = abs remaining in
    if ltb_ℤ remaining (pos (interval / 4))
    then end + (catchup - catchup % interval + interval) * ms
    else end

-- The last part of `synchronizeMeasurement`, from `if (timeLeft > interval)` on: the new state, and
-- the time slept.
unfoldable pub settle : Collector → (ℕ → Bool) → ℕ → ℤ → Option (Collector × ℕ)
settle c terminate end time_left =
    let late = ltb_ℤ (pos c.interval) time_left in
    let left = if late then pos c.interval else time_left in
    let sleep_left = time_left -ℤ pos c.interval in
    Option.map
      (λ slept. (
        record c { interval_end = end; time_left = left; interval_start = end + c.interval * ms },
        slept,
      ))
      (if late then sleep_milliseconds_and_check terminate sleep_left else some 0)

-- `catchup % interval` needs `interval` to be positive.
unfoldable pub synchronize_measurement : Collector → (ℕ → Bool) → ℕ → Option (Collector × ℕ)
synchronize_measurement c terminate now =
    let end = next_end c.interval c.interval_start now in
    settle c terminate end (milliseconds_until end now)

unfoldable pub interval_cleanup : Collector → Bool → ℕ → Collector
interval_cleanup c set_interval_end now =
    if set_interval_end
    then record c { interval_start = c.interval_end; last_heartbeat = now }
    else record c { last_heartbeat = now }
