-- ===== src/Watchdog/Hangs.antt =====
-- What becomes of a thread that hangs.
use xbat_ginkgo.Base.{
  ℕ, ◌+◌, ◌*◌, ◌≤◌, ◌<◌, ◌≡◌, refl, ◌≢◌, ◌⊎◌, ◌↔◌, Bool, true, false, none, some, Bytes, arith,
}
use xbat_ginkgo.Base.Int.{ℤ}
use xbat_ginkgo.Collector.{
  Collector, construct, start_measurement, create_thread_and_measure, stop_measurement, force_stop,
  settle, synchronize_measurement, interval_cleanup, get_thread_status, get_interval,
  get_last_heartbeat, thread_running, thread_forcefully_terminated,
}
use xbat_ginkgo.Watchdog.{timed_out, watchdog_entry}

-- What the threads of the program do to a collector after its construction.
pub data Step : Collector → Collector → Type 0 where
  starts : {c d : Collector} → start_measurement c ≡ some d → Step c d
  watches : {c d : Collector} (now : ℕ) → watchdog_entry now c ≡ some d → Step c d
  returns : {c d : Collector} (result : ℤ) → create_thread_and_measure result c ≡ some d → Step c d
  stops : (c : Collector) → Step c (stop_measurement c)
  synchronizes :
      {c d : Collector} (terminate : ℕ → Bool) (now slept : ℕ)
      → synchronize_measurement c terminate now ≡ some (d, slept)
      → Step c d
  cleans : (c : Collector) (set_end : Bool) (now : ℕ) → Step c (interval_cleanup c set_end now)

pub data Reach (c : Collector) : Collector → Type 0 where
  here : Reach c c
  next : {d e : Collector} → Reach c d → Step d e → Reach c e

abbrev NotForced : Collector → Type 0
NotForced c = c.was_forcefully_terminated ≡ false

settle-NotForced :
    (c : Collector) {d : Collector} (terminate : ℕ → Bool) (end : ℕ) (left : ℤ) (slept : ℕ)
    → settle c terminate end left ≡ some (d, slept)
    → NotForced c
    → NotForced d
unfolding settle
settle-NotForced c terminate end left slept e f = ground arith

Step-NotForced : {c d : Collector} → Step c d → NotForced c → NotForced d
unfolding start_measurement watchdog_entry create_thread_and_measure stop_measurement force_stop
    synchronize_measurement interval_cleanup
Step-NotForced (starts e) f = ground arith
Step-NotForced (watches now e) f = ground arith
Step-NotForced (returns result e) f = ground arith
Step-NotForced (stops c) f = f
Step-NotForced {c} (synchronizes terminate now slept e) f =
    settle-NotForced c terminate _ _ slept e f
Step-NotForced (cleans c set_end now) f = ground arith

Reach-NotForced : {c d : Collector} → NotForced c → Reach c d → NotForced d
Reach-NotForced f here = f
Reach-NotForced f (next r st) = Step-NotForced st (Reach-NotForced f r)

status-NotForced :
    (c : Collector) → NotForced c → get_thread_status c ≢ thread_forcefully_terminated
unfolding get_thread_status
status-NotForced c f = λ h. ground arith

-- Whatever the threads do to a collector after its construction, its status never becomes
-- "forcefully terminated"; so a round of the watchdog never restarts it: it leaves it as it is, or,
-- if it has timed out, detaches its thread.
pub never_restarted :
    (name : Bytes) (start_time interval born now : ℕ) (c d : Collector)
    → Reach (construct name start_time interval born) c
    → watchdog_entry now c ≡ some d
    → (get_thread_status c ≢ thread_forcefully_terminated)
      × ((d ≡ c) ⊎ ((timed_out now c ≡ true) × (d ≡ record c { joinable = false })))
unfolding construct watchdog_entry force_stop
never_restarted name start_time interval born now c d r e =
    let calm = status-NotForced c (Reach-NotForced refl r) in (calm, ground arith)

-- The watchdog stops a hung thread once. If the thread, still of status "running", has not moved
-- its heartbeat by a later round, that round ends the process: it detaches a thread that is no
-- longer joinable.
pub second_stop_faults :
    (c d : Collector) (now later : ℕ)
    → get_thread_status c ≡ thread_running
    → timed_out now c ≡ true
    → watchdog_entry now c ≡ some d
    → now ≤ later
    → watchdog_entry later d ≡ none
unfolding watchdog_entry force_stop get_thread_status get_interval get_last_heartbeat
second_stop_faults c d now later status late e h = ground arith

-- `getInterval` counts milliseconds and the heartbeat seconds: with an interval of `seconds`
-- seconds, a joinable running thread is detached exactly if its heartbeat is more than 2000 times
-- `seconds` seconds old.
pub timeout_iff :
    (c : Collector) (seconds now : ℕ)
    → c.interval ≡ seconds * 1000
    → c.joinable ≡ true
    → get_thread_status c ≡ thread_running
    → (watchdog_entry now c ≡ some (record c { joinable = false }))
      ↔ (2000 * seconds + c.last_heartbeat < now)
unfolding watchdog_entry force_stop get_interval get_last_heartbeat
timeout_iff c seconds now scale joinable running = ground arith
