-- ===== src/Tests/JobTests.antt =====
-- The threads of a job at concrete schedules.
use xbat_ginkgo.Base.{
  Bytes, ap, sym, ◌∙◌, ◌≤◌, ℕ, zero, suc, ◌≡◌, refl, ◌≢◌, true, false, List, [], ◌∷◌, ◌++◌, codes,
  arith, length, get_elem?, All, some,
}
use xbat_ginkgo.Base.Int.{pos}
use xbat_ginkgo.Base.Outcome.{Outcome, done, fails, faults}
use xbat_ginkgo.Collector.{
  Collector, construct, start_measurement, create_thread_and_measure, get_thread_status, destroy,
  force_stop, get_interval, get_last_heartbeat, stop_measurement,
}
use xbat_ginkgo.Daemon.{
  Phase, stopping, joining_watchdog, waiting, deleting, State, Job, filling, starting,
  joining_writer, returned, Watch, at_head, looking, asleep, Event, main_moves, watchdog_moves,
  writer_moves, collector_moves, signal, returns, begin, run, daemon_step, main_step, watchdog_step,
  writer_step, collector_step, signal_step, start_next, delete_next, look, act,
}
use xbat_ginkgo.Daemon.Detached.{detached_never_returns}
use xbat_ginkgo.Daemon.Ending.{can_return}
use xbat_ginkgo.Daemon.Phases.{IsStopped, IsJoinable}
use xbat_ginkgo.Daemon.Race.{push_back_faults}
use xbat_ginkgo.Daemon.Settled.{settled_lem}
use xbat_ginkgo.Daemon.Shutdown.{returned_lem}
use xbat_ginkgo.Main.{sig_handler}
use xbat_ginkgo.Startup.{interval_ms}
use xbat_ginkgo.Watchdog.{watchdog_entry, stop, terminated}
use xbat_ginkgo.Watchdog.Threads.{HasEnded}

abbrev job : Job
job = record { enable_likwid = false; start = 0; seconds = 5 }

abbrev times : ℕ → Event → List Event
times zero e = []
times (suc n) e = e ∷ times n e

-- `init` from its first class to its end, at the time 1000.
abbrev set_up : List Event
set_up = times 20 (main_moves 1000)

abbrev all_return : ℕ → ℕ → List Event
all_return zero i = []
all_return (suc n) i = collector_moves i (returns (pos 0)) ∷ all_return n (suc i)

abbrev whole_job : List Event
whole_job =
    set_up
    ++ (times 11 (watchdog_moves 1001)
        ++ (signal
            ∷ writer_moves false
            ∷ main_moves 1002
            ∷ main_moves 1002
            ∷ watchdog_moves 1002
            ∷ main_moves 1002
            ∷ (all_return 9 0 ++ times 11 (main_moves 1003))))

abbrev state_of : Outcome State → State
state_of (done d) = d
state_of fails = begin job
state_of faults = begin job

abbrev final : State
unfolding run main_step watchdog_step writer_step collector_step signal_step start_next delete_next
    look act begin daemon_step construct start_measurement create_thread_and_measure
    get_thread_status destroy get_interval get_last_heartbeat stop_measurement sig_handler
    interval_ms watchdog_entry stop terminated
final = state_of (run job whole_job (begin job))

whole_job_runs : run job whole_job (begin job) ≡ done final
unfolding run main_step watchdog_step writer_step collector_step signal_step start_next delete_next
    look act begin daemon_step construct start_measurement create_thread_and_measure
    get_thread_status destroy get_interval get_last_heartbeat stop_measurement sig_handler
    interval_ms watchdog_entry stop terminated final
whole_job_runs = refl

final_phase : final.phase ≡ returned
unfolding final
final_phase = refl

returned_lem_example :
    (final.canceled ≡ true)
    × (final.writer_ended ≡ true)
    × (final.watch ≡ Watch.ended)
    × All IsStopped final.classes
    × All HasEnded final.classes
    × All IsJoinable final.classes
returned_lem_example = returned_lem job whole_job final whole_job_runs final_phase

-- A watchdog that looks at the first collector 19000 s after its heartbeat.
abbrev late_look : List Event
late_look = set_up ++ times 2 (watchdog_moves 20000)

abbrev cut_state : State
unfolding run main_step watchdog_step writer_step collector_step signal_step start_next delete_next
    look act begin daemon_step construct start_measurement create_thread_and_measure
    get_thread_status force_stop destroy get_interval get_last_heartbeat stop_measurement
    sig_handler interval_ms watchdog_entry stop terminated
cut_state = state_of (run job late_look (begin job))

late_look_runs : run job late_look (begin job) ≡ done cut_state
unfolding run main_step watchdog_step writer_step collector_step signal_step start_next delete_next
    look act begin daemon_step construct start_measurement create_thread_and_measure
    get_thread_status force_stop destroy get_interval get_last_heartbeat stop_measurement
    sig_handler interval_ms watchdog_entry stop terminated cut_state
late_look_runs = refl

abbrev cut_collector : Collector
unfolding run main_step watchdog_step writer_step collector_step signal_step start_next delete_next
    look act begin daemon_step construct start_measurement create_thread_and_measure
    get_thread_status force_stop destroy get_interval get_last_heartbeat stop_measurement
    sig_handler interval_ms watchdog_entry stop terminated
cut_collector = record (construct (codes "CPU") 0 5000 1000) { joinable = false }

cut_collector_at : get_elem? cut_state.classes 0 ≡ some cut_collector
unfolding run main_step watchdog_step writer_step collector_step signal_step start_next delete_next
    look act begin daemon_step construct start_measurement create_thread_and_measure
    get_thread_status force_stop destroy get_interval get_last_heartbeat stop_measurement
    sig_handler interval_ms watchdog_entry stop terminated cut_state cut_collector
cut_collector_at = refl

cut_started : cut_state.started ≡ 9
unfolding cut_state
cut_started = refl

signalled_runs : run job (signal ∷ []) cut_state ≡ done (record cut_state { canceled = true })
unfolding run main_step watchdog_step writer_step collector_step signal_step start_next delete_next
    look act begin daemon_step construct start_measurement create_thread_and_measure
    get_thread_status force_stop destroy get_interval get_last_heartbeat stop_measurement
    sig_handler interval_ms watchdog_entry stop terminated cut_state
signalled_runs = refl

cut_joinable : cut_collector.joinable ≡ false
unfolding cut_collector
cut_joinable = refl

detached_never_returns_example : (record cut_state { canceled = true }).phase ≢ returned
detached_never_returns_example =
    detached_never_returns job late_look (signal ∷ []) cut_state
      (record cut_state { canceled = true }) 0 cut_collector late_look_runs
      (omega (arith, cut_started)) cut_collector_at cut_joinable signalled_runs

abbrev later_names : List Bytes
later_names =
    codes "Disk"
    ∷ codes "IPMI"
    ∷ codes "Memory"
    ∷ codes "XilinxFPGA"
    ∷ codes "nvidiaGPU"
    ∷ codes "amdGPU"
    ∷ []

-- Two collectors are there when the watchdog begins a round.
abbrev first_round : List Event
first_round = times 2 (main_moves 1000) ++ (watchdog_moves 1000 ∷ [])

abbrev racing_state : State
unfolding run main_step watchdog_step writer_step collector_step signal_step start_next delete_next
    look act begin daemon_step construct start_measurement create_thread_and_measure
    get_thread_status destroy get_interval get_last_heartbeat stop_measurement sig_handler
    interval_ms watchdog_entry stop terminated
racing_state = state_of (run job first_round (begin job))

-- The writer polls, and `init` constructs the third collector.
abbrev meanwhile : List Event
meanwhile = writer_moves false ∷ main_moves 1000 ∷ []

abbrev pushed_state : State
unfolding run main_step watchdog_step writer_step collector_step signal_step start_next delete_next
    look act begin daemon_step construct start_measurement create_thread_and_measure
    get_thread_status destroy get_interval get_last_heartbeat stop_measurement sig_handler
    interval_ms watchdog_entry stop terminated racing_state
pushed_state = state_of (run job meanwhile racing_state)

pushed_runs : run job meanwhile racing_state ≡ done pushed_state
unfolding run main_step watchdog_step writer_step collector_step signal_step start_next delete_next
    look act begin daemon_step construct start_measurement create_thread_and_measure
    get_thread_status destroy get_interval get_last_heartbeat stop_measurement sig_handler
    interval_ms watchdog_entry stop terminated racing_state pushed_state
pushed_runs = refl

racing_phase : racing_state.phase ≡ filling (codes "Infiniband" ∷ later_names)
unfolding racing_state
racing_phase = refl

racing_watch : racing_state.watch ≡ looking 1000 2 0
unfolding racing_state
racing_watch = refl

racing_length : length racing_state.classes ≡ 2
unfolding racing_state
racing_length = refl

pushed_phase : pushed_state.phase ≡ filling later_names
unfolding pushed_state
pushed_phase = refl

abbrev left_of : Phase → ℕ
left_of (filling names) = length names
left_of starting = 0
left_of joining_writer = 0
left_of stopping = 0
left_of joining_watchdog = 0
left_of waiting = 0
left_of (deleting k) = 0
left_of returned = 0

push_back_faults_example : run job (meanwhile ++ watchdog_moves 1000 ∷ []) racing_state ≡ faults
push_back_faults_example =
    push_back_faults job racing_state pushed_state meanwhile (codes "Infiniband") later_names 1000 2
      0 1000 racing_phase racing_watch (omega arith) racing_length (tt, (tt, tt)) pushed_runs
      (λ e. omega (arith, ap left_of (sym pushed_phase ∙ e)))

abbrev full_state : State
unfolding run main_step watchdog_step writer_step collector_step signal_step start_next delete_next
    look act begin daemon_step construct start_measurement create_thread_and_measure
    get_thread_status force_stop destroy get_interval get_last_heartbeat stop_measurement
    sig_handler interval_ms watchdog_entry stop terminated
full_state = state_of (run job (times 10 (main_moves 1000)) (begin job))

abbrev round_state : State
unfolding run main_step watchdog_step writer_step collector_step signal_step start_next delete_next
    look act begin daemon_step construct start_measurement create_thread_and_measure
    get_thread_status force_stop destroy get_interval get_last_heartbeat stop_measurement
    sig_handler interval_ms watchdog_entry stop terminated
round_state = state_of (run job (watchdog_moves 1001 ∷ main_moves 1000 ∷ []) full_state)

round_runs : run job (watchdog_moves 1001 ∷ main_moves 1000 ∷ []) full_state ≡ done round_state
unfolding run main_step watchdog_step writer_step collector_step signal_step start_next delete_next
    look act begin daemon_step construct start_measurement create_thread_and_measure
    get_thread_status force_stop destroy get_interval get_last_heartbeat stop_measurement
    sig_handler interval_ms watchdog_entry stop terminated full_state round_state
round_runs = refl

full_phase : full_state.phase ≡ starting
unfolding full_state
full_phase = refl

full_watch : full_state.watch ≡ at_head
unfolding full_state
full_watch = refl

round_watch : round_state.watch ≡ looking 1001 9 0
unfolding round_state
round_watch = refl

settled_lem_example : length round_state.classes ≡ 9
settled_lem_example =
    settled_lem job full_state round_state (watchdog_moves 1001 ∷ main_moves 1000 ∷ []) 1001 9 0
      (rw full_phase tt) (rw full_watch tt) round_runs round_watch

-- The signal comes while the watchdog sleeps.
abbrev asleep_job : List Event
asleep_job = set_up ++ (times 11 (watchdog_moves 1001) ++ (signal ∷ []))

abbrev asleep_state : State
unfolding run main_step watchdog_step writer_step collector_step signal_step start_next delete_next
    look act begin daemon_step construct start_measurement create_thread_and_measure
    get_thread_status force_stop destroy get_interval get_last_heartbeat stop_measurement
    sig_handler interval_ms watchdog_entry stop terminated
asleep_state = state_of (run job asleep_job (begin job))

asleep_runs : run job asleep_job (begin job) ≡ done asleep_state
unfolding run main_step watchdog_step writer_step collector_step signal_step start_next delete_next
    look act begin daemon_step construct start_measurement create_thread_and_measure
    get_thread_status force_stop destroy get_interval get_last_heartbeat stop_measurement
    sig_handler interval_ms watchdog_entry stop terminated asleep_state
asleep_runs = refl

asleep_facts :
    (asleep_state.phase ≡ joining_writer)
    × (asleep_state.watch ≡ asleep)
    × (asleep_state.canceled ≡ true)
    × (length asleep_state.classes ≤ asleep_state.started)
    × All IsJoinable asleep_state.classes
unfolding asleep_state
asleep_facts = (
  refl,
  refl,
  refl,
  omega arith,
  (refl, (refl, (refl, (refl, (refl, (refl, (refl, (refl, (refl, tt))))))))),
)

can_return_example :
    (more : List Event) × (e : State) × (run job more asleep_state ≡ done e) × (e.phase ≡ returned)
can_return_example =
    can_return job asleep_job asleep_state asleep_runs asleep_facts.0 asleep_facts.1 asleep_facts.2
      asleep_facts.3 asleep_facts.4
