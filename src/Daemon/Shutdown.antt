-- ===== src/Daemon/Shutdown.antt =====
-- The order in which the threads of a job end.
use xbat_ginkgo.Base.{
  ℕ, ◌≡◌, refl, Bool, true, false, List, [], ◌∷◌, some, All, All-append, All-set, All-get_elem?,
  get_elem?, ◌==◌, ==_iff, ltb,
}
use xbat_ginkgo.Base.Outcome.{
  done, Ensures, Ensures-bind, Ensures-if, Ensures-done, Ensures-elim, Ensures-or_fault,
  Ensures-or_fail,
}
use xbat_ginkgo.Collector.{
  Collector, construct, get_thread_status, stop_measurement, thread_running,
}
use xbat_ginkgo.Daemon.Threads.{IsCalm, act-Keeps, All-stop}
use xbat_ginkgo.Daemon.{
  Phase, filling, starting, joining_writer, stopping, joining_watchdog, waiting, deleting, returned,
  Watch, at_head, looking, asleep, ended, State, Job, Act, Event, main_moves, watchdog_moves,
  writer_moves, collector_moves, signal, begin, has_returned, main_step, watchdog_step, writer_step,
  act, collector_step, signal_step, daemon_step, run,
}
use xbat_ginkgo.Main.{sig_handler}
use xbat_ginkgo.Watchdog.Threads.{HasEnded, terminated_iff}
use xbat_ginkgo.Watchdog.{stop, terminated}
use xbat_ginkgo.Daemon.Phases.{
  IsOrderly, IsStopped, IsJoinable, act-AtPhase, watch-AtPhase, writer-AtPhase,
}
use xbat_ginkgo.Daemon.Ends.{start_next-IsOrderly, delete_next-IsOrderly, look-IsOrderly}

pub begin-IsOrderly : (job : Job) → IsOrderly (begin job)
unfolding begin
begin-IsOrderly job = record { canceled = λ e. cc; calm = tt; at = tt }

watchdog_step-IsOrderly :
    (now : ℕ) (v : Watch) (d : State)
    → d.watch ≡ v
    → IsOrderly d
    → Ensures IsOrderly (watchdog_step now v d)
unfolding watchdog_step
watchdog_step-IsOrderly now at_head d e h = record {
  canceled = h.canceled;
  calm = h.calm;
  at = watch-AtPhase d.phase _ _ _ _ (λ e'. cc) h.at;
}
watchdog_step-IsOrderly now (looking then_ end i) d e h = look-IsOrderly then_ end i d e h
watchdog_step-IsOrderly now asleep d e h = record {
  canceled = h.canceled;
  calm = h.calm;
  at = watch-AtPhase d.phase _ _ _ _ (λ e'. cc) h.at;
}
watchdog_step-IsOrderly now ended d e h = tt

writer_step-IsOrderly :
    (error : Bool) (d : State) → IsOrderly d → Ensures IsOrderly (writer_step error d)
unfolding writer_step
writer_step-IsOrderly error d h =
    let over = writer-AtPhase d.phase d.writer_ended d.watch d.classes h.at in
    Ensures-if IsOrderly d.writer_ended _ _ (λ e. tt)
      λ e.
        Ensures-if IsOrderly error _ _
          (λ e'. record { canceled = λ e''. refl; calm = h.calm; at = over })
          λ e'.
            Ensures-if IsOrderly d.canceled _ _
              (λ c. record { canceled = λ e''. c; calm = h.calm; at = over }) (λ c. h)

collector_step-IsOrderly :
    (i : ℕ) (a : Act) (d : State) → IsOrderly d → Ensures IsOrderly (collector_step i a d)
unfolding collector_step
collector_step-IsOrderly i a d h =
    Ensures-elim IsOrderly (get_elem? d.classes i) _ _ (λ e. tt)
      λ c e.
        Ensures-if IsOrderly (ltb i d.started) _ _
          (λ lt.
            Ensures-if IsOrderly (get_thread_status c == thread_running) _ _
              (λ running. Ensures-or_fail IsOrderly (act a c) _ λ c' e'.
                let keep = act-Keeps a c e' in
                record {
                  canceled = h.canceled;
                  calm =
                      All-set IsCalm d.classes i c'
                        (keep.1 (All-get_elem? IsCalm d.classes i e h.calm)) h.calm;
                  at = act-AtPhase d.phase _ _ _ i c c' e ((==_iff _ _).0 running) keep h.at;
                })
              (λ over. tt))
          (λ ge. tt)

signalled_once : (b : Bool) {b' : Bool} → sig_handler b ≡ some b' → b' ≡ true
unfolding sig_handler
signalled_once true e = cc
signalled_once false e = cc

signal_step-IsOrderly : (d : State) → IsOrderly d → Ensures IsOrderly (signal_step d)
unfolding signal_step
signal_step-IsOrderly d h =
    Ensures-or_fault IsOrderly (sig_handler d.canceled) _
      λ b e. record { canceled = λ w. signalled_once d.canceled e; calm = h.calm; at = h.at }

stop-IsCalm : (cs : List Collector) → All IsCalm cs → All IsCalm (stop cs)
unfolding stop stop_measurement
stop-IsCalm [] h = tt
stop-IsCalm (c ∷ cs) h = (h.0, stop-IsCalm cs h.1)

has_returned-ended : (v : Watch) → has_returned v ≡ true → v ≡ ended
has_returned-ended ended e = refl
has_returned-ended at_head e = cc
has_returned-ended (looking now end i) e = cc
has_returned-ended asleep e = cc

main_step-IsOrderly :
    (now : ℕ) (job : Job) (p : Phase) (d : State)
    → d.phase ≡ p
    → IsOrderly d
    → Ensures IsOrderly (main_step now job p d)
unfolding main_step construct
main_step-IsOrderly now job (filling []) d e h = record {
  canceled = h.canceled;
  calm = h.calm;
  at = tt;
}
main_step-IsOrderly now job (filling (name ∷ names)) d e h = record {
  canceled = h.canceled;
  calm = All-append IsCalm d.classes _ h.calm ((refl, refl, refl), tt);
  at = tt;
}
main_step-IsOrderly now job starting d e h = start_next-IsOrderly d e h
main_step-IsOrderly now job joining_writer d e h =
    Ensures-if IsOrderly d.writer_ended _ _
      (λ over. record { canceled = h.canceled; calm = h.calm; at = over }) (λ busy. tt)
main_step-IsOrderly now job stopping d e h = record {
  canceled = h.canceled;
  calm = stop-IsCalm d.classes h.calm;
  at = (rw e at h.at, All-stop d.classes);
}
main_step-IsOrderly now job joining_watchdog d e h =
    let at = rw e at h.at in
    Ensures-if IsOrderly (has_returned d.watch) _ _
      (λ over. record {
        canceled = h.canceled;
        calm = h.calm;
        at = (at.0, at.1, has_returned-ended d.watch over);
      })
      (λ busy. tt)
main_step-IsOrderly now job waiting d e h =
    let at = rw e at h.at in
    Ensures-if IsOrderly (terminated d.classes) _ _
      (λ over. record {
        canceled = h.canceled;
        calm = h.calm;
        at = (at.0, at.1, at.2, (terminated_iff d.classes).0 over, tt);
      })
      (λ busy. h)
main_step-IsOrderly now job (deleting k) d e h = delete_next-IsOrderly k d e h
main_step-IsOrderly now job returned d e h = tt

pub daemon_step-IsOrderly :
    (job : Job) (e : Event) (d : State) → IsOrderly d → Ensures IsOrderly (daemon_step job e d)
unfolding daemon_step
daemon_step-IsOrderly job (main_moves now) d h = main_step-IsOrderly now job d.phase d refl h
daemon_step-IsOrderly job (watchdog_moves now) d h = watchdog_step-IsOrderly now d.watch d refl h
daemon_step-IsOrderly job (writer_moves error) d h = writer_step-IsOrderly error d h
daemon_step-IsOrderly job (collector_moves i a) d h = collector_step-IsOrderly i a d h
daemon_step-IsOrderly job signal d h = signal_step-IsOrderly d h

pub run-IsOrderly :
    (job : Job) (es : List Event) (d : State) → IsOrderly d → Ensures IsOrderly (run job es d)
unfolding run
run-IsOrderly job [] d h = h
run-IsOrderly job (e ∷ es) d h =
    Ensures-bind IsOrderly (daemon_step job e d) (run job es) λ d' e'.
      run-IsOrderly job es d' (Ensures-done IsOrderly _ (daemon_step-IsOrderly job e d h) e')

-- When `measure` returns, whatever the threads did: the measurements are canceled, the writer and the
-- watchdog have ended, every collector has been told to stop and has ended, and every one is joined:
-- the watchdog has detached none of them.
pub returned_lem :
    (job : Job) (es : List Event) (d : State)
    → run job es (begin job) ≡ done d
    → d.phase ≡ returned
    → (d.canceled ≡ true)
      × (d.writer_ended ≡ true)
      × (d.watch ≡ ended)
      × All IsStopped d.classes
      × All HasEnded d.classes
      × All IsJoinable d.classes
returned_lem job es d e p =
    let h = Ensures-done IsOrderly _ (run-IsOrderly job es (begin job) (begin-IsOrderly job)) e in
    let at = rw p at h.at in (h.canceled at.0, at.0, at.2, at.1, at.3, at.4)

-- Every collector of a reachable state is calm.
pub run-IsCalm :
    (job : Job) (es : List Event) (d : State)
    → run job es (begin job) ≡ done d
    → All IsCalm d.classes
run-IsCalm job es d e =
    (Ensures-done IsOrderly _ (run-IsOrderly job es (begin job) (begin-IsOrderly job)) e).calm
