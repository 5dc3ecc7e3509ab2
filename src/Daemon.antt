-- ===== src/Daemon.antt =====
-- measure, watchdog and sigHandler of src/xbatd/src/main.cpp, ThreadHelper::init of
-- src/xbatd/src/threadhelper.cpp and the destructor of statusInfo, as the threads of one job. An event
-- is one thread's next step; between two of its steps every other thread may move.
pub mod Threads
pub mod Phases
pub mod Ends
pub mod Shutdown
pub mod Detached
pub mod Settled
pub mod Race
pub mod Leaving
pub mod Ending
use mathlib.Core.Option
use xbat_ginkgo.Base.{
  ℕ, zero, suc, ◌+◌, Bool, true, false, List, [], ◌∷◌, ◌++◌, Option, none, some, Bytes, ltb, ◌==◌,
  if◌then◌else◌, length, get_elem?, set,
}
use xbat_ginkgo.Base.Int.{ℤ}
use xbat_ginkgo.Base.Outcome.{Outcome, done, fails, faults, or_fault, or_fail, ◌>>=◌}
use xbat_ginkgo.Collector.{
  Collector, construct, start_measurement, create_thread_and_measure, synchronize_measurement,
  interval_cleanup, get_thread_status, destroy, thread_running,
}
use xbat_ginkgo.Main.{sig_handler}
use xbat_ginkgo.Startup.{interval_ms, class_names}
use xbat_ginkgo.Watchdog.{watchdog_entry, stop, terminated}

-- Where `measure` stands: `init` has these classes left to construct, or starts the collectors; it
-- waits for the writer; it stops the collectors; it waits for the watchdog, or for the collectors;
-- it has destroyed so many of them; or it has returned.
pub data Phase : Type 0 where
  filling : List Bytes → Phase
  starting joining_writer stopping joining_watchdog waiting : Phase
  deleting : ℕ → Phase
  returned : Phase

-- Where the watchdog stands: before a round; in one, with the time, the end of `classList` and its place
-- there; asleep; or it has returned.
pub data Watch : Type 0 where
  at_head : Watch
  looking : ℕ → ℕ → ℕ → Watch
  asleep ended : Watch

-- `classes` is `classList`, which only grows, so its length tells whether it was changed; the first
-- `started` of them have been started.
pub record State : Type 0 where
  pub phase : Phase
  pub watch : Watch
  pub writer_ended : Bool
  pub canceled : Bool
  pub classes : List Collector
  pub started : ℕ

-- What `init` gives to the constructors.
pub record Job : Type 0 where
  pub enable_likwid : Bool
  pub start : ℕ
  pub seconds : ℕ

-- Both threads are there, and `init` is about to construct the collectors.
unfoldable pub begin : Job → State
begin job = record {
  phase = filling (class_names job.enable_likwid);
  watch = at_head;
  writer_ended = false;
  canceled = false;
  classes = [];
  started = 0;
}

-- `push_back` of a new collector, with the clock in seconds.
abbrev pub add_class : ℕ → Job → Bytes → State → List Collector
add_class now job name d = d.classes ++ construct name job.start (interval_ms job.seconds) now ∷ []

-- One more collector is started, or `init` is done.
unfoldable pub start_next : State → Outcome State
start_next d = elim (get_elem? d.classes d.started) [
  | none ↦ done (record d { phase = joining_writer })
  | some c ↦ (do
    c' ← or_fault (start_measurement c)
    done (record d { classes = set d.classes d.started c'; started = d.started + 1 }))
]

-- The destructor of statusInfo: the next collector, whose destructor waits for the end of its thread.
unfoldable pub delete_next : ℕ → State → Outcome State
delete_next k d = elim (get_elem? d.classes k) [
  | none ↦ done (record d { phase = returned })
  | some c ↦
      if c.clean_up_locked
      then fails
      else (do _ ← or_fault (destroy c); done (record d { phase = deleting (k + 1) }))
]

abbrev pub has_returned : Watch → Bool
has_returned ended = true
has_returned at_head = false
has_returned (looking now end i) = false
has_returned asleep = false

-- The next step of `measure`; `fails` where it has to wait.
unfoldable pub main_step : ℕ → Job → Phase → State → Outcome State
unfolding stop terminated
main_step now job (filling []) d = done (record d { phase = starting })
main_step now job (filling (name ∷ names)) d =
    done (record d { classes = add_class now job name d; phase = filling names })
main_step now job starting d = start_next d
main_step now job joining_writer d =
    if d.writer_ended then done (record d { phase = stopping }) else fails
main_step now job stopping d =
    done (record d { classes = stop d.classes; phase = joining_watchdog })
main_step now job joining_watchdog d =
    if has_returned d.watch then done (record d { phase = waiting }) else fails
main_step now job waiting d =
    if terminated d.classes then done (record d { phase = deleting 0 }) else done d
main_step now job (deleting k) d = delete_next k d
main_step now job returned d = fails

-- The watchdog goes on in its round: the round is over at the end that it took, or it looks at its next
-- entry. Where a `push_back` has invalidated its iterators since the start of the round, this is
-- undefined behaviour: `faults`.
unfoldable pub look : ℕ → ℕ → ℕ → State → Outcome State
look now end i d =
    if i == end
    then done (record d { watch = asleep })
    else if length d.classes == end
    then (elim (get_elem? d.classes i) [
      | none ↦ done (record d { watch = asleep })
      | some c ↦ (do
        c' ← or_fault (watchdog_entry now c)
        done (record d { classes = set d.classes i c'; watch = looking now end (i + 1) }))
    ])
    else faults

unfoldable pub watchdog_step : ℕ → Watch → State → Outcome State
watchdog_step now at_head d = done (record d { watch = looking now (length d.classes) 0 })
watchdog_step now (looking then_ end i) d = look then_ end i d
watchdog_step now asleep d = done (record d { watch = if d.canceled then ended else at_head })
watchdog_step now ended d = fails

-- A poll of the writer, whose data Writer and Queue have: an error of the database cancels and ends
-- it, and it ends when it finds the measurements canceled.
unfoldable pub writer_step : Bool → State → Outcome State
writer_step error d =
    if d.writer_ended
    then fails
    else if error
    then done (record d { writer_ended = true; canceled = true })
    else if d.canceled
    then done (record d { writer_ended = true })
    else done d

-- What the thread of a collector does to it.
pub data Act : Type 0 where
  synchronizes : (ℕ → Bool) → ℕ → Act
  cleans : Bool → ℕ → Act
  returns : ℤ → Act

unfoldable pub act : Act → Collector → Option Collector
act (synchronizes terminate now) c = Option.map (λ r. r.0) (synchronize_measurement c terminate now)
act (cleans set_end now) c = some (interval_cleanup c set_end now)
act (returns result) c = create_thread_and_measure result c

-- Only a thread that has been started and has not ended moves.
unfoldable pub collector_step : ℕ → Act → State → Outcome State
unfolding act
collector_step i a d = elim (get_elem? d.classes i) [
  | none ↦ fails
  | some c ↦
      if ltb i d.started
      then (if get_thread_status c == thread_running
          then (do c' ← or_fail (act a c); done (record d { classes = set d.classes i c' }))
          else fails)
      else fails
]

-- A second signal ends the process.
unfoldable pub signal_step : State → Outcome State
unfolding sig_handler
signal_step d = do c ← or_fault (sig_handler d.canceled); done (record d { canceled = c })

pub data Event : Type 0 where
  main_moves : ℕ → Event
  watchdog_moves : ℕ → Event
  writer_moves : Bool → Event
  collector_moves : ℕ → Act → Event
  signal : Event

unfoldable pub daemon_step : Job → Event → State → Outcome State
daemon_step job (main_moves now) d = main_step now job d.phase d
daemon_step job (watchdog_moves now) d = watchdog_step now d.watch d
daemon_step job (writer_moves error) d = writer_step error d
daemon_step job (collector_moves i a) d = collector_step i a d
daemon_step job signal d = signal_step d

-- A sequence of events; `fails` if one of them is of a thread that has to wait, and `faults` if the
-- process ends with an exception or has undefined behaviour.
unfoldable pub run : Job → List Event → State → Outcome State
unfolding daemon_step
run job [] d = done d
run job (e ∷ es) d = daemon_step job e d >>= run job es
