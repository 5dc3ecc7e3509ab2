-- ===== src/Daemon/Leaving.antt =====
-- Ended collectors are destroyed without a fault, and a running one can end.
use xbat_ginkgo.Base.{
  lt→ltb, get_elem?-none, Option-cases, ◌≤◌, ◌<◌, ℕ, zero, suc, ◌+◌, ◌≡◌, refl, true, false, List,
  [], ◌∷◌, none, some, arith, All, All-get_elem?, get_elem?, set, length, ==_iff, inl, inr,
}
use xbat_ginkgo.Base.Int.{pos}
use xbat_ginkgo.Base.Outcome.{done}
use xbat_ginkgo.Collector.{
  create_thread_and_measure, Collector, get_thread_status, destroy, thread_running,
}
use xbat_ginkgo.Daemon.Threads.{IsCalm, IsCalm}
use xbat_ginkgo.Daemon.{
  returns, deleting, returned, State, Job, Event, main_moves, delete_next, main_step, act,
  collector_step, daemon_step, run,
}
use xbat_ginkgo.Watchdog.Threads.{HasEnded}
use xbat_ginkgo.Daemon.Phases.{IsJoinable}

-- The threads can bring the daemon from one state to another.
abbrev pub Reaches : Job → State → State → Type 0
Reaches job d e = (es : List Event) × (run job es d ≡ done e)

pub Reaches-step :
    (job : Job) (e : Event) (d d' : State) {f : State}
    → daemon_step job e d ≡ done d'
    → Reaches job d' f
    → Reaches job d f
unfolding run
Reaches-step job e d d' s (es, r) = (e ∷ es, rw s r)

-- A collector that `measure` can wait for and destroy.
abbrev pub IsSound : Collector → Type 0
IsSound c = IsJoinable c × IsCalm c

delete_next-ended :
    (k : ℕ) (d : State) (c : Collector)
    → get_elem? d.classes k ≡ some c
    → IsSound c
    → HasEnded c
    → delete_next k d ≡ done (record d { phase = deleting (k + 1) })
unfolding delete_next destroy get_thread_status
delete_next-ended k d c e s h = rw (e, delete_next) (ground arith)

delete_next-over :
    (k : ℕ) (d : State)
    → get_elem? d.classes k ≡ none
    → delete_next k d ≡ done (record d { phase = returned })
unfolding delete_next
delete_next-over k d e = rw (e, delete_next) refl

-- The destructor of statusInfo runs to its end.
pub deletes_rest :
    (job : Job) (n k : ℕ) (d : State)
    → length d.classes ≤ k + n
    → All IsSound d.classes
    → All HasEnded d.classes
    → Reaches job (record d { phase = deleting k }) (record d { phase = returned })
unfolding daemon_step main_step run
deletes_rest job zero k d m s h =
    Reaches-step job (main_moves 0) _ _
      (delete_next-over k _ (get_elem?-none d.classes k (omega arith))) ([], refl)
deletes_rest job (suc n) k d m s h =
    let rest = deletes_rest job n (k + 1) d (omega arith) s h in
    elim (Option-cases (get_elem? d.classes k)) [
      | inl e ↦ Reaches-step job (main_moves 0) _ _ (delete_next-over k _ e) ([], refl)
      | inr (c, e) ↦
          Reaches-step job (main_moves 0) _ _
            (delete_next-ended k _ c e (All-get_elem? IsSound d.classes k e s)
              (All-get_elem? HasEnded d.classes k e h))
            rest
    ]

-- A collector whose `measure` has returned 0.
abbrev pub ended_0 : Collector → Collector
ended_0 c = record c { has_terminated = true; clean_up_locked = false }

pub ended_0-IsSound : (c : Collector) → IsSound c → IsSound (ended_0 c)
ended_0-IsSound c s = (s.0, (s.1.0, s.1.1, refl))

pub ended_0-HasEnded : (c : Collector) → HasEnded (ended_0 c)
unfolding get_thread_status
ended_0-HasEnded c = λ e. cc

pub collector_step-returns :
    (k : ℕ) (d : State) (c : Collector)
    → get_elem? d.classes k ≡ some c
    → k < d.started
    → IsSound c
    → get_thread_status c ≡ thread_running
    → collector_step k (returns (pos 0)) d
      ≡ done (record d { classes = set d.classes k (ended_0 c) })
unfolding collector_step act create_thread_and_measure
collector_step-returns k d c e lt s running =
    rw (e, collector_step) (rw (lt→ltb k d.started lt, (==_iff _ _).1 running, s.1.1) refl)
