-- ===== src/Daemon/Detached.antt =====
-- What becomes of `measure` when the watchdog has detached a thread.
use xbat_ginkgo.Base.{
  ◌∙◌, get_elem?-map, get_elem?-set_self, get_elem?-set_other, get_elem?-append, ◌<◌, sym, some_inj,
  ℕ, ◌≡◌, ◌≢◌, subst, Bool, false, List, [], ◌∷◌, some, arith, All, All-get_elem?, get_elem?, set,
  length, ◌==◌, ==_iff, ltb, Bool-cases, inl, inr,
}
use xbat_ginkgo.Base.Outcome.{
  done, Ensures, Ensures-bind, Ensures-if, Ensures-done, Ensures-elim, Ensures-or_fault,
  Ensures-or_fail,
}
use xbat_ginkgo.Collector.{
  Collector, start_measurement, get_thread_status, stop_measurement, destroy, thread_running,
}
use xbat_ginkgo.Daemon.Threads.{IsCalm, Keeps, IsDetached, act-Keeps, watchdog_entry-Keeps}
use xbat_ginkgo.Daemon.Shutdown.{begin-IsOrderly, daemon_step-IsOrderly, run-IsOrderly}
use xbat_ginkgo.Daemon.{
  Phase, filling, starting, joining_writer, stopping, joining_watchdog, waiting, deleting, returned,
  Watch, at_head, looking, asleep, ended, State, Job, Act, Event, main_moves, watchdog_moves,
  writer_moves, collector_moves, signal, begin, start_next, delete_next, has_returned, main_step,
  look, watchdog_step, writer_step, act, collector_step, signal_step, daemon_step, run,
}
use xbat_ginkgo.Main.{sig_handler}
use xbat_ginkgo.Watchdog.{watchdog_entry, stop, terminated}
use xbat_ginkgo.Daemon.Phases.{IsOrderly, IsJoinable}

-- The collector at `i` has been started, and its thread has been detached.
abbrev IsCut : ℕ → ℕ → List Collector → Type 0
IsCut i started cs = (i < started) × (c : Collector) × (get_elem? cs i ≡ some c) × IsDetached c

abbrev StaysCut : ℕ → State → Type 0
StaysCut i d = IsCut i d.started d.classes

set-IsCut :
    (i started : ℕ) (cs : List Collector) (j : ℕ) (c c' : Collector)
    → get_elem? cs j ≡ some c
    → Keeps c c'
    → IsCut i started cs
    → IsCut i started (set cs j c')
set-IsCut i started cs j c c' e keep (lt, b, eb, cut) = elim (Bool-cases (j == i)) [
  | inl same ↦
      let at : get_elem? cs i ≡ some c = rw (← (==_iff j i).0 same) e in
      let own : b ≡ c = some_inj (sym eb ∙ at) in
      (
        lt,
        c',
        rw (← (==_iff j i).0 same) (get_elem?-set_self cs j c' c e),
        keep.2 (subst IsDetached own cut),
      )
  | inr other ↦ (lt, b, get_elem?-set_other cs j i c' (λ p. cc (other, (==_iff j i).1 p)) ∙ eb, cut)
]

start_next-IsCut : (i : ℕ) (d : State) → StaysCut i d → Ensures (StaysCut i) (start_next d)
unfolding start_next
start_next-IsCut i d (lt, b, eb, cut) =
    Ensures-elim (StaysCut i) (get_elem? d.classes d.started) _ _ (λ e. (lt, b, eb, cut))
      λ c e. Ensures-or_fault (StaysCut i) (start_measurement c) _ λ c' e'.
        (omega arith, b, get_elem?-set_other d.classes d.started i c' (λ p. omega arith) ∙ eb, cut)

delete_next-IsCut : (i k : ℕ) (d : State) → StaysCut i d → Ensures (StaysCut i) (delete_next k d)
unfolding delete_next
delete_next-IsCut i k d h =
    Ensures-elim (StaysCut i) (get_elem? d.classes k) _ _ (λ e. h)
      λ c e.
        Ensures-if (StaysCut i) c.clean_up_locked _ _ (λ locked. tt)
          λ free. Ensures-or_fault (StaysCut i) (destroy c) _ λ u e'. h

stop-IsCut : (i started : ℕ) (cs : List Collector) → IsCut i started cs → IsCut i started (stop cs)
unfolding stop stop_measurement
stop-IsCut i started cs (lt, b, eb, cut) =
    (lt, stop_measurement b, get_elem?-map stop_measurement cs i b eb, cut)

main_step-IsCut :
    (i now : ℕ) (job : Job) (p : Phase) (d : State)
    → StaysCut i d
    → Ensures (StaysCut i) (main_step now job p d)
unfolding main_step
main_step-IsCut i now job (filling []) d h = h
main_step-IsCut i now job (filling (name ∷ names)) d (lt, b, eb, cut) =
    (lt, b, get_elem?-append d.classes _ i b eb, cut)
main_step-IsCut i now job starting d h = start_next-IsCut i d h
main_step-IsCut i now job joining_writer d h =
    Ensures-if (StaysCut i) d.writer_ended _ _ (λ e. h) (λ e. tt)
main_step-IsCut i now job stopping d h = stop-IsCut i d.started d.classes h
main_step-IsCut i now job joining_watchdog d h =
    Ensures-if (StaysCut i) (has_returned d.watch) _ _ (λ e. h) (λ e. tt)
main_step-IsCut i now job waiting d h =
    Ensures-if (StaysCut i) (terminated d.classes) _ _ (λ e. h) (λ e. h)
main_step-IsCut i now job (deleting k) d h = delete_next-IsCut i k d h
main_step-IsCut i now job returned d h = tt

look-IsCut :
    (i now end j : ℕ) (d : State)
    → All IsCalm d.classes
    → StaysCut i d
    → Ensures (StaysCut i) (look now end j d)
unfolding look
look-IsCut i now end j d calm h =
    Ensures-if (StaysCut i) (j == end) _ _ (λ over. h)
      (λ more.
        Ensures-if (StaysCut i) (length d.classes == end) _ _
          (λ same.
            Ensures-elim (StaysCut i) (get_elem? d.classes j) _ _ (λ e. h)
              λ c e. Ensures-or_fault (StaysCut i) (watchdog_entry now c) _ λ c' e'.
                set-IsCut i d.started d.classes j c c' e
                  (watchdog_entry-Keeps now c (All-get_elem? IsCalm d.classes j e calm) e') h)
          (λ grown. tt))

watchdog_step-IsCut :
    (i now : ℕ) (v : Watch) (d : State)
    → All IsCalm d.classes
    → StaysCut i d
    → Ensures (StaysCut i) (watchdog_step now v d)
unfolding watchdog_step
watchdog_step-IsCut i now at_head d calm h = h
watchdog_step-IsCut i now (looking then_ end j) d calm h = look-IsCut i then_ end j d calm h
watchdog_step-IsCut i now asleep d calm h = h
watchdog_step-IsCut i now ended d calm h = tt

writer_step-IsCut :
    (i : ℕ) (error : Bool) (d : State) → StaysCut i d → Ensures (StaysCut i) (writer_step error d)
unfolding writer_step
writer_step-IsCut i error d h =
    Ensures-if (StaysCut i) d.writer_ended _ _ (λ e. tt)
      λ e.
        Ensures-if (StaysCut i) error _ _ (λ e'. h)
          λ e'. Ensures-if (StaysCut i) d.canceled _ _ (λ c. h) (λ c. h)

collector_step-IsCut :
    (i j : ℕ) (a : Act) (d : State) → StaysCut i d → Ensures (StaysCut i) (collector_step j a d)
unfolding collector_step
collector_step-IsCut i j a d h =
    Ensures-elim (StaysCut i) (get_elem? d.classes j) _ _ (λ e. tt)
      λ c e.
        Ensures-if (StaysCut i) (ltb j d.started) _ _
          (λ lt.
            Ensures-if (StaysCut i) (get_thread_status c == thread_running) _ _
              (λ running.
                Ensures-or_fail (StaysCut i) (act a c) _
                  λ c' e'. set-IsCut i d.started d.classes j c c' e (act-Keeps a c e') h)
              (λ over. tt))
          (λ ge. tt)

signal_step-IsCut : (i : ℕ) (d : State) → StaysCut i d → Ensures (StaysCut i) (signal_step d)
unfolding signal_step
signal_step-IsCut i d h = Ensures-or_fault (StaysCut i) (sig_handler d.canceled) _ λ b e. h

daemon_step-IsCut :
    (i : ℕ) (job : Job) (e : Event) (d : State)
    → All IsCalm d.classes
    → StaysCut i d
    → Ensures (StaysCut i) (daemon_step job e d)
unfolding daemon_step
daemon_step-IsCut i job (main_moves now) d calm h = main_step-IsCut i now job d.phase d h
daemon_step-IsCut i job (watchdog_moves now) d calm h = watchdog_step-IsCut i now d.watch d calm h
daemon_step-IsCut i job (writer_moves error) d calm h = writer_step-IsCut i error d h
daemon_step-IsCut i job (collector_moves j a) d calm h = collector_step-IsCut i j a d h
daemon_step-IsCut i job signal d calm h = signal_step-IsCut i d h

-- A reachable state in which the collector at `i` is detached.
abbrev IsHanging : ℕ → State → Type 0
IsHanging i d = IsOrderly d × StaysCut i d

run-IsHanging :
    (i : ℕ) (job : Job) (es : List Event) (d : State)
    → IsHanging i d
    → Ensures (IsHanging i) (run job es d)
unfolding run
run-IsHanging i job [] d h = h
run-IsHanging i job (e ∷ es) d (orderly, cut) =
    Ensures-bind (IsHanging i) (daemon_step job e d) (run job es) λ d' e'.
      run-IsHanging i job es d' (
        Ensures-done IsOrderly _ (daemon_step-IsOrderly job e d orderly) e',
        Ensures-done (StaysCut i) _ (daemon_step-IsCut i job e d orderly.calm cut) e',
      )

returned-IsJoinable : (i : ℕ) (d : State) → IsHanging i d → d.phase ≢ returned
returned-IsJoinable i d (orderly, (lt, c, e, cut)) p =
    let at = rw p at orderly.at in
    let joinable = All-get_elem? IsJoinable d.classes i e at.4 in cc (joinable, cut.0)

-- Once the watchdog has detached the thread of a collector that was started, `measure` never returns,
-- whatever happens later: it waits for ever, or the process ends.
pub detached_never_returns :
    (job : Job) (es more : List Event) (d e : State) (i : ℕ) (c : Collector)
    → run job es (begin job) ≡ done d
    → i < d.started
    → get_elem? d.classes i ≡ some c
    → c.joinable ≡ false
    → run job more d ≡ done e
    → e.phase ≢ returned
detached_never_returns job es more d e i c r lt at cut r' =
    let orderly =
      Ensures-done IsOrderly _ (run-IsOrderly job es (begin job) (begin-IsOrderly job)) r in
    let calm = All-get_elem? IsCalm d.classes i at orderly.calm in
    returned-IsJoinable i e (
      Ensures-done (IsHanging i) _ (run-IsHanging i job more d (orderly, (lt, c, at, (cut, calm))))
        r')
