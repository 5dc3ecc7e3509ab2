-- ===== src/Daemon/Race.antt =====
-- The watchdog of src/xbatd/src/main.cpp and init of src/xbatd/src/threadhelper.cpp share `classList`
-- without a lock.
use xbat_ginkgo.Base.{
  ◌<◌, ◌≤◌, Bytes, length-set, length-map, length-append, ◌∙◌, ℕ, ◌≡◌, ◌≢◌, ◌⊎◌, inl, inr, refl,
  subst, sym, Bool, false, List, [], ◌∷◌, ◌++◌, arith, get_elem?, length, ◌==◌, All, ltb,
}
use xbat_ginkgo.Base.Outcome.{
  done, faults, Ensures, Ensures-bind, Ensures-if, Ensures-done, Ensures-elim, Ensures-or_fault,
  Ensures-or_fail, Ensures-map, Outcome, done_inj, >>=-eq-done, ◌>>=◌,
}
use xbat_ginkgo.Collector.{
  construct, start_measurement, get_thread_status, stop_measurement, destroy, thread_running,
}
use xbat_ginkgo.Daemon.{
  Phase, filling, starting, joining_writer, stopping, joining_watchdog, waiting, deleting, returned,
  looking, State, Job, Act, Event, main_moves, watchdog_moves, writer_moves, collector_moves,
  signal, start_next, delete_next, has_returned, main_step, look, watchdog_step, writer_step, act,
  collector_step, signal_step, daemon_step, run,
}
use xbat_ginkgo.Main.{sig_handler}
use xbat_ginkgo.Startup.{interval_ms}
use xbat_ginkgo.Watchdog.{stop, terminated}

-- Not a step of the watchdog.
abbrev pub IsOther : Event → Type 0
IsOther (main_moves now) = Unit
IsOther (watchdog_moves now) = ⊥
IsOther (writer_moves error) = Unit
IsOther (collector_moves i a) = Unit
IsOther signal = Unit

-- `measure` leaves the watchdog where it is, and takes nothing off `classList`.
abbrev Grows : State → State → Type 0
Grows d d' = (d'.watch ≡ d.watch) × (length d.classes ≤ length d'.classes)

main_step-Grows :
    (now : ℕ) (job : Job) (p : Phase) (d : State) → Ensures (Grows d) (main_step now job p d)
unfolding main_step start_next delete_next stop
main_step-Grows now job (filling []) d = (refl, omega arith)
main_step-Grows now job (filling (name ∷ names)) d =
    let c = construct name job.start (interval_ms job.seconds) now in
    (refl, omega (arith, length-append d.classes (c ∷ [])))
main_step-Grows now job starting d =
    Ensures-elim (Grows d) (get_elem? d.classes d.started) _ _ (λ e. (refl, omega arith))
      λ c e.
        Ensures-or_fault (Grows d) (start_measurement c) _
          λ c' e'. (refl, omega (arith, length-set d.classes d.started c'))
main_step-Grows now job joining_writer d =
    Ensures-if (Grows d) d.writer_ended _ _ (λ e. (refl, omega arith)) (λ e. tt)
main_step-Grows now job stopping d = (refl, omega (arith, length-map stop_measurement d.classes))
main_step-Grows now job joining_watchdog d =
    Ensures-if (Grows d) (has_returned d.watch) _ _ (λ e. (refl, omega arith)) (λ e. tt)
main_step-Grows now job waiting d =
    Ensures-if (Grows d) (terminated d.classes) _ _ (λ e. (refl, omega arith))
      (λ e. (refl, omega arith))
main_step-Grows now job (deleting k) d =
    Ensures-elim (Grows d) (get_elem? d.classes k) _ _ (λ e. (refl, omega arith))
      λ c e.
        Ensures-if (Grows d) c.clean_up_locked _ _ (λ locked. tt)
          λ free. Ensures-or_fault (Grows d) (destroy c) _ λ u e'. (refl, omega arith)
main_step-Grows now job returned d = tt

-- The others leave `measure`, the watchdog and the length of `classList` as they are.
abbrev Stays : State → State → Type 0
Stays d d' = (d'.watch ≡ d.watch) × (d'.phase ≡ d.phase) × (length d'.classes ≡ length d.classes)

writer_step-Stays : (error : Bool) (d : State) → Ensures (Stays d) (writer_step error d)
unfolding writer_step
writer_step-Stays error d =
    Ensures-if (Stays d) d.writer_ended _ _ (λ e. tt)
      λ e.
        Ensures-if (Stays d) error _ _ (λ e'. (refl, refl, refl))
          λ e'.
            Ensures-if (Stays d) d.canceled _ _ (λ c. (refl, refl, refl)) (λ c. (refl, refl, refl))

collector_step-Stays : (i : ℕ) (a : Act) (d : State) → Ensures (Stays d) (collector_step i a d)
unfolding collector_step
collector_step-Stays i a d =
    Ensures-elim (Stays d) (get_elem? d.classes i) _ _ (λ e. tt)
      λ c e.
        Ensures-if (Stays d) (ltb i d.started) _ _
          (λ lt.
            Ensures-if (Stays d) (get_thread_status c == thread_running) _ _
              (λ running.
                Ensures-or_fail (Stays d) (act a c) _
                  λ c' e'. (refl, refl, length-set d.classes i c'))
              (λ over. tt))
          (λ ge. tt)

-- The watchdog is in a round that began with `classList` of the length `end`, and `init` is still about
-- to construct the collector `name`, or `classList` has grown since.
abbrev IsRacing : Bytes → List Bytes → ℕ → ℕ → ℕ → State → Type 0
IsRacing name names t end i d =
    (d.watch ≡ looking t end i)
    × (((d.phase ≡ filling (name ∷ names)) × (length d.classes ≡ end)) ⊎ (end < length d.classes))

module _ (name : Bytes) (names : List Bytes) (t end i : ℕ) where
  abbrev Races : State → Type 0
  Races = IsRacing name names t end i

  kept : (d d' : State) → Races d → Stays d d' → Races d'
  kept d d' (w, inl (p, n)) (w', p', n') = (w' ∙ w, inl (p' ∙ p, n' ∙ n))
  kept d d' (w, inr more) (w', p', n') = (w' ∙ w, inr (omega (arith, n', more)))

  Stays-IsRacing : (d : State) (o : Outcome State) → Races d → Ensures (Stays d) o → Ensures Races o
  Stays-IsRacing d o h s = Ensures-map (Stays d) Races o (λ d' stays. kept d d' h stays) s

  -- A push of `init` is a push.
  main_step-IsRacing :
      (now : ℕ) (job : Job) (p : Phase) (d : State)
      → d.phase ≡ p
      → Races d
      → Ensures Races (main_step now job p d)
  unfolding main_step
  main_step-IsRacing now job p d e (w, inl (at_name, n)) =
      let c = construct name job.start (interval_ms job.seconds) now in
      subst (λ q. Ensures Races (main_step now job q d)) (sym at_name ∙ e)
        (w, inr (omega (arith, length-append d.classes (c ∷ []), n)))
  main_step-IsRacing now job p d e (w, inr more) =
      Ensures-map (Grows d) Races (main_step now job p d)
        (λ d' (w', more'). (w' ∙ w, inr (omega (arith, more, more')))) (main_step-Grows now job p d)

  daemon_step-IsRacing :
      (job : Job) (e : Event) (d : State)
      → IsOther e
      → Races d
      → Ensures Races (daemon_step job e d)
  unfolding daemon_step signal_step
  daemon_step-IsRacing job (main_moves now) d other h = main_step-IsRacing now job d.phase d refl h
  daemon_step-IsRacing job (watchdog_moves now) d other h = elim other [ ]
  daemon_step-IsRacing job (writer_moves error) d other h =
      Stays-IsRacing d _ h (writer_step-Stays error d)
  daemon_step-IsRacing job (collector_moves i a) d other h =
      Stays-IsRacing d _ h (collector_step-Stays i a d)
  daemon_step-IsRacing job signal d other h =
      Ensures-or_fault Races (sig_handler d.canceled) _ λ b e. h

  run-IsRacing :
      (job : Job) (es : List Event) (d : State)
      → All IsOther es
      → Races d
      → Ensures Races (run job es d)
  unfolding run
  run-IsRacing job [] d others h = h
  run-IsRacing job (e ∷ es) d (other, others) h =
      Ensures-bind Races (daemon_step job e d) (run job es) λ d' e'.
        run-IsRacing job es d' others
          (Ensures-done Races _ (daemon_step-IsRacing job e d other h) e')

  racing-faults :
      (job : Job) (d : State) (later : ℕ)
      → i < end
      → Races d
      → d.phase ≢ filling (name ∷ names)
      → daemon_step job (watchdog_moves later) d ≡ faults
  unfolding daemon_step watchdog_step look
  racing-faults job d later within (w, inl (p, n)) moved = absurd (moved p)
  racing-faults job d later within (w, inr more) moved =
      let there : (i == end) ≡ false = ground (arith, within) in
      let longer : (length d.classes == end) ≡ false = ground (arith, more) in
      rw (w, watchdog_step) (rw (there, look) (rw (longer, look) refl))

run-faults :
    (job : Job) (es : List Event) (e : Event) (d d' : State)
    → run job es d ≡ done d'
    → daemon_step job e d' ≡ faults
    → run job (es ++ e ∷ []) d ≡ faults
unfolding run
run-faults job [] e d d' h fault =
    let same : daemon_step job e d ≡ faults =
      subst (λ x. daemon_step job e x ≡ faults) (sym (done_inj h)) fault in
    rw (same, ◌>>=◌) refl
run-faults job (x ∷ es) e d d' h fault =
    let (d1, first, rest) = >>=-eq-done (daemon_step job x d) (run job es) h in
    rw (first, ◌>>=◌) (run-faults job es e d1 d' rest fault)

-- The watchdog is in a round with a collector left to look at, `classList` is as long as it was at the
-- start of the round, and `init` is about to construct a collector. Whatever steps the other threads
-- then make without a fault, if `init` has gone on from there when the watchdog makes its next step,
-- this step goes through iterators that are no longer valid, which is undefined behaviour.
pub push_back_faults :
    (job : Job) (d e : State) (es : List Event) (name : Bytes) (names : List Bytes)
    (t end i later : ℕ)
    → d.phase ≡ filling (name ∷ names)
    → d.watch ≡ looking t end i
    → i < end
    → length d.classes ≡ end
    → All IsOther es
    → run job es d ≡ done e
    → e.phase ≢ filling (name ∷ names)
    → run job (es ++ watchdog_moves later ∷ []) d ≡ faults
push_back_faults job d e es name names t end i later p w within n others r moved =
    let racing =
      Ensures-done (IsRacing name names t end i) _
        (run-IsRacing name names t end i job es d others (w, inl (p, n))) r in
    run-faults job es (watchdog_moves later) d e r
      (racing-faults name names t end i job e later within racing moved)
