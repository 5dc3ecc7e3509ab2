-- ===== src/Daemon/Ending.antt =====
-- A job whose measurements are canceled can come to its end.
use xbat_ginkgo.Base.{
  get_elem?-le, get_elem?-lt, All-of_get_elem?, Option-cases, ◌≤◌, length-set, length-map, ◌∙◌,
  get_elem?-set_self, get_elem?-set_other, ◌<◌, sym, some_inj, ℕ, zero, suc, ◌+◌, ◌≡◌, refl, subst,
  Bool, true, false, List, [], ◌∷◌, some, arith, All, All-set, All-get_elem?, get_elem?, set,
  length, ◌==◌, ==_iff, Bool-cases, inl, inr,
}
use xbat_ginkgo.Base.Int.{pos}
use xbat_ginkgo.Base.Outcome.{done}
use xbat_ginkgo.Collector.{Collector, get_thread_status, stop_measurement, thread_running}
use xbat_ginkgo.Daemon.Threads.{IsCalm, IsCalm}
use xbat_ginkgo.Daemon.Shutdown.{run-IsCalm}
use xbat_ginkgo.Daemon.{
  returns, joining_writer, waiting, deleting, returned, asleep, ended, State, Job, Event,
  main_moves, watchdog_moves, writer_moves, collector_moves, begin, main_step, watchdog_step,
  writer_step, daemon_step, run,
}
use xbat_ginkgo.Watchdog.Threads.{HasEnded, terminated_iff}
use xbat_ginkgo.Watchdog.{stop}
use xbat_ginkgo.Daemon.Phases.{IsJoinable}
use xbat_ginkgo.Daemon.Leaving.{
  Reaches, IsSound, Reaches-step, deletes_rest, ended_0, ended_0-IsSound, ended_0-HasEnded,
  collector_step-returns,
}

-- The first `k` collectors have ended.
abbrev EndedBelow : ℕ → List Collector → Type 0
EndedBelow k cs = (i : ℕ) (c : Collector) → i < k → get_elem? cs i ≡ some c → HasEnded c

EndedBelow-skip :
    (k : ℕ) (cs : List Collector) (c : Collector)
    → get_elem? cs k ≡ some c
    → HasEnded c
    → EndedBelow k cs
    → EndedBelow (k + 1) cs
EndedBelow-skip k cs c e h below i b lt eb = elim (Bool-cases (i == k)) [
  | inl same ↦
      let own : c ≡ b = some_inj (sym e ∙ (rw (← (==_iff i k).0 same) eb)) in subst HasEnded own h
  | inr other ↦ below i b (ground arith) eb
]

EndedBelow-set :
    (k : ℕ) (cs : List Collector) (c c' : Collector)
    → get_elem? cs k ≡ some c
    → HasEnded c'
    → EndedBelow k cs
    → EndedBelow (k + 1) (set cs k c')
EndedBelow-set k cs c c' e h below =
    EndedBelow-skip k (set cs k c') c' (get_elem?-set_self cs k c' c e) h
      λ i b lt eb. below i b lt (sym (get_elem?-set_other cs k i c' (λ p. omega arith)) ∙ eb)

All-EndedBelow : (k : ℕ) (cs : List Collector) → length cs ≤ k → EndedBelow k cs → All HasEnded cs
All-EndedBelow k cs m below =
    All-of_get_elem? HasEnded cs λ i c e. below i c (omega (arith, get_elem?-lt cs i c e)) e

-- `terminated` is asked when all have ended.
wait_over :
    (job : Job) (d : State)
    → d.phase ≡ waiting
    → All IsSound d.classes
    → All HasEnded d.classes
    → Reaches job d (record d { phase = returned })
unfolding daemon_step main_step
wait_over job d p s h =
    let over = (terminated_iff d.classes).1 h in
    Reaches-step job (main_moves 0) d (record d { phase = deleting 0 })
      (rw (p, main_step) (rw over refl)) (deletes_rest job (length d.classes) 0 d (omega arith) s h)

-- The threads of the collectors that are still running return, and `measure` after them.
ends_rest :
    (job : Job) (n k : ℕ) (d : State)
    → d.phase ≡ waiting
    → length d.classes ≤ k + n
    → length d.classes ≤ d.started
    → All IsSound d.classes
    → EndedBelow k d.classes
    → (e : State) × Reaches job d e × (e.phase ≡ returned)
unfolding daemon_step
ends_rest job zero k d p m w s below =
    (_, wait_over job d p s (All-EndedBelow k d.classes (omega arith) below), refl)
ends_rest job (suc n) k d p m w s below = elim (Option-cases (get_elem? d.classes k)) [
  | inl e ↦
      (_, wait_over job d p s (All-EndedBelow k d.classes (get_elem?-le d.classes k e) below), refl)
  | inr (c, e) ↦ elim (Bool-cases (get_thread_status c == thread_running)) [
    | inl running ↦
        let sound = All-get_elem? IsSound d.classes k e s in
        let lt = get_elem?-lt d.classes k c e in
        let same = length-set d.classes k (ended_0 c) in
        let (e', (es, r), q) =
          ends_rest job n (k + 1) (record d { classes = set d.classes k (ended_0 c) }) p
            (omega arith) (omega arith)
            (All-set IsSound d.classes k (ended_0 c) (ended_0-IsSound c sound) s)
            (EndedBelow-set k d.classes c (ended_0 c) e (ended_0-HasEnded c) below) in
        (
          e',
          Reaches-step job (collector_moves k (returns (pos 0))) d _
              (collector_step-returns k d c e (omega arith) sound ((==_iff _ _).0 running)) (es, r),
          q,
        )
    | inr over ↦
        ends_rest job n (k + 1) d p (omega arith) w s
          (EndedBelow-skip k d.classes c e (λ h. cc (over, (==_iff _ _).1 h)) below)
  ]
]

-- A canceled job whose `init` is done and whose watchdog sleeps.
abbrev canceled_job : Bool → List Collector → ℕ → State
canceled_job writer_ended classes started = record {
  phase = joining_writer;
  watch = asleep;
  writer_ended = writer_ended;
  canceled = true;
  classes = classes;
  started = started;
}

-- The same job when `measure` has joined the writer and the watchdog.
abbrev joined_job : List Collector → ℕ → State
joined_job classes started = record {
  phase = waiting;
  watch = ended;
  writer_ended = true;
  canceled = true;
  classes = classes;
  started = started;
}

wind_down :
    (job : Job) (w : Bool) (cs : List Collector) (started : ℕ) (e : State)
    → Reaches job (joined_job (stop cs) started) e
    → Reaches job (canceled_job w cs started) e
unfolding run daemon_step main_step writer_step watchdog_step
wind_down job true cs started e (es, r) =
    (main_moves 0 ∷ main_moves 0 ∷ watchdog_moves 0 ∷ main_moves 0 ∷ es, r)
wind_down job false cs started e (es, r) =
    (writer_moves false ∷ main_moves 0 ∷ main_moves 0 ∷ watchdog_moves 0 ∷ main_moves 0 ∷ es, r)

stop-IsSound : (cs : List Collector) → All IsSound cs → All IsSound (stop cs)
unfolding stop stop_measurement
stop-IsSound [] h = tt
stop-IsSound (c ∷ cs) h = (h.0, stop-IsSound cs h.1)

length-stop : (cs : List Collector) → length (stop cs) ≡ length cs
unfolding stop
length-stop cs = length-map stop_measurement cs

All-IsSound : (cs : List Collector) → All IsJoinable cs → All IsCalm cs → All IsSound cs
All-IsSound [] h k = tt
All-IsSound (c ∷ cs) h k = ((h.0, k.0), All-IsSound cs h.1 k.1)

-- A job whose measurements are canceled and of which no thread was detached can come to its end: from
-- every reachable state in which all collectors are started and joinable, `measure` waits for the
-- writer and the watchdog sleeps, the threads have a sequence of steps after which `measure` has
-- returned.
pub can_return :
    (job : Job) (es : List Event) (d : State)
    → run job es (begin job) ≡ done d
    → d.phase ≡ joining_writer
    → d.watch ≡ asleep
    → d.canceled ≡ true
    → length d.classes ≤ d.started
    → All IsJoinable d.classes
    → (more : List Event) × (e : State) × (run job more d ≡ done e) × (e.phase ≡ returned)
can_return job es d r p v c w j =
    let same : canceled_job d.writer_ended d.classes d.started ≡ d = ground arith in
    let sound = stop-IsSound d.classes (All-IsSound d.classes j (run-IsCalm job es d r)) in
    let size = length-stop d.classes in
    let (e, over, q) =
      ends_rest job (length d.classes) 0 (joined_job (stop d.classes) d.started) refl (omega arith)
        (omega arith) sound (λ i b lt e. absurd (omega arith)) in
    let (more, run_it) = wind_down job d.writer_ended d.classes d.started e over in
    (more, e, subst (λ x. run job more x ≡ done e) same run_it, q)
