-- ===== src/Daemon/Settled.antt =====
-- The watchdog of src/xbatd/src/main.cpp: once init of src/xbatd/src/threadhelper.cpp is through, its
-- rounds do not meet a change of `classList`.
use xbat_ginkgo.Base.{
  length-set, length-map, ◌∙◌, sym, ℕ, ◌≡◌, refl, subst, Bool, true, false, List, [], ◌∷◌,
  get_elem?, set, length, ◌==◌, ==_iff, if◌then◌else◌, ltb,
}
use xbat_ginkgo.Base.Outcome.{
  done, Ensures, Ensures-bind, Ensures-if, Ensures-done, Ensures-elim, Ensures-or_fault,
  Ensures-or_fail,
}
use xbat_ginkgo.Collector.{
  Collector, start_measurement, get_thread_status, stop_measurement, destroy, thread_running,
}
use xbat_ginkgo.Daemon.{
  Phase, filling, starting, joining_writer, stopping, joining_watchdog, waiting, deleting, returned,
  Watch, at_head, looking, asleep, ended, State, Job, Act, Event, main_moves, watchdog_moves,
  writer_moves, collector_moves, signal, start_next, delete_next, has_returned, main_step, look,
  watchdog_step, writer_step, act, collector_step, signal_step, daemon_step, run,
}
use xbat_ginkgo.Main.{sig_handler}
use xbat_ginkgo.Watchdog.{watchdog_entry, stop, terminated}

-- `init` has constructed all collectors, and the iterators of a round are those of `classList`.
abbrev pub IsFull : Phase → Type 0
IsFull (filling []) = Unit
IsFull (filling (name ∷ names)) = ⊥
IsFull starting = Unit
IsFull joining_writer = Unit
IsFull stopping = Unit
IsFull joining_watchdog = Unit
IsFull waiting = Unit
IsFull (deleting k) = Unit
IsFull returned = Unit

-- The watchdog is not in a round.
abbrev pub IsIdle : Watch → Type 0
IsIdle at_head = Unit
IsIdle (looking now end i) = ⊥
IsIdle asleep = Unit
IsIdle ended = Unit

abbrev IsValid : Watch → ℕ → Type 0
IsValid at_head n = Unit
IsValid (looking now end i) n = n ≡ end
IsValid asleep n = Unit
IsValid ended n = Unit

idle-IsValid : (v : Watch) (n : ℕ) → IsIdle v → IsValid v n
idle-IsValid at_head n h = tt
idle-IsValid (looking now end i) n h = elim h [ ]
idle-IsValid asleep n h = tt
idle-IsValid ended n h = tt

abbrev IsSettled : State → Type 0
IsSettled d = IsFull d.phase × IsValid d.watch (length d.classes)

set-IsValid :
    (v : Watch) (cs : List Collector) (i : ℕ) (c : Collector)
    → IsValid v (length cs)
    → IsValid v (length (set cs i c))
set-IsValid v cs i c h = subst (IsValid v) (sym (length-set cs i c)) h

start_next-IsSettled : (d : State) → IsSettled d → Ensures IsSettled (start_next d)
unfolding start_next
start_next-IsSettled d h =
    Ensures-elim IsSettled (get_elem? d.classes d.started) _ _ (λ e. (tt, h.1))
      λ c e.
        Ensures-or_fault IsSettled (start_measurement c) _
          λ c' e'. (h.0, set-IsValid d.watch d.classes d.started c' h.1)

delete_next-IsSettled : (k : ℕ) (d : State) → IsSettled d → Ensures IsSettled (delete_next k d)
unfolding delete_next
delete_next-IsSettled k d h =
    Ensures-elim IsSettled (get_elem? d.classes k) _ _ (λ e. (tt, h.1))
      λ c e.
        Ensures-if IsSettled c.clean_up_locked _ _ (λ locked. tt)
          λ free. Ensures-or_fault IsSettled (destroy c) _ λ u e'. (tt, h.1)

main_step-IsSettled :
    (now : ℕ) (job : Job) (p : Phase) (d : State)
    → d.phase ≡ p
    → IsSettled d
    → Ensures IsSettled (main_step now job p d)
unfolding main_step stop
main_step-IsSettled now job (filling []) d e h = (tt, h.1)
main_step-IsSettled now job (filling (name ∷ names)) d e h = absurd (subst IsFull e h.0)
main_step-IsSettled now job starting d e h = start_next-IsSettled d h
main_step-IsSettled now job joining_writer d e h =
    Ensures-if IsSettled d.writer_ended _ _ (λ e. (tt, h.1)) (λ e. tt)
main_step-IsSettled now job stopping d e h =
    (tt, subst (IsValid d.watch) (sym (length-map stop_measurement d.classes)) h.1)
main_step-IsSettled now job joining_watchdog d e h =
    Ensures-if IsSettled (has_returned d.watch) _ _ (λ e. (tt, h.1)) (λ e. tt)
main_step-IsSettled now job waiting d e h =
    Ensures-if IsSettled (terminated d.classes) _ _ (λ e. (tt, h.1)) (λ e. h)
main_step-IsSettled now job (deleting k) d e h = delete_next-IsSettled k d h
main_step-IsSettled now job returned d e h = tt

look-IsSettled :
    (now end i : ℕ) (d : State)
    → d.watch ≡ looking now end i
    → IsSettled d
    → Ensures IsSettled (look now end i d)
unfolding look
look-IsSettled now end i d v h =
    Ensures-if IsSettled (i == end) _ _ (λ over. (h.0, tt))
      (λ more.
        Ensures-if IsSettled (length d.classes == end) _ _
          (λ same.
            Ensures-elim IsSettled (get_elem? d.classes i) _ _ (λ e. (h.0, tt))
              λ c e.
                Ensures-or_fault IsSettled (watchdog_entry now c) _
                  λ c' e'. (h.0, length-set d.classes i c' ∙ (==_iff _ _).0 same))
          (λ other. tt))

rest-IsValid : (b : Bool) (n : ℕ) → IsValid (if b then ended else at_head) n
rest-IsValid true n = tt
rest-IsValid false n = tt

watchdog_step-IsSettled :
    (now : ℕ) (v : Watch) (d : State)
    → d.watch ≡ v
    → IsSettled d
    → Ensures IsSettled (watchdog_step now v d)
unfolding watchdog_step
watchdog_step-IsSettled now at_head d e h = (h.0, refl)
watchdog_step-IsSettled now (looking then_ end i) d e h = look-IsSettled then_ end i d e h
watchdog_step-IsSettled now asleep d e h = (h.0, rest-IsValid d.canceled (length d.classes))
watchdog_step-IsSettled now ended d e h = tt

writer_step-IsSettled :
    (error : Bool) (d : State) → IsSettled d → Ensures IsSettled (writer_step error d)
unfolding writer_step
writer_step-IsSettled error d h =
    Ensures-if IsSettled d.writer_ended _ _ (λ e. tt)
      λ e.
        Ensures-if IsSettled error _ _ (λ e'. h)
          λ e'. Ensures-if IsSettled d.canceled _ _ (λ c. h) (λ c. h)

collector_step-IsSettled :
    (i : ℕ) (a : Act) (d : State) → IsSettled d → Ensures IsSettled (collector_step i a d)
unfolding collector_step
collector_step-IsSettled i a d h =
    Ensures-elim IsSettled (get_elem? d.classes i) _ _ (λ e. tt)
      λ c e.
        Ensures-if IsSettled (ltb i d.started) _ _
          (λ lt.
            Ensures-if IsSettled (get_thread_status c == thread_running) _ _
              (λ running.
                Ensures-or_fail IsSettled (act a c) _
                  λ c' e'. (h.0, set-IsValid d.watch d.classes i c' h.1))
              (λ over. tt))
          (λ ge. tt)

daemon_step-IsSettled :
    (job : Job) (e : Event) (d : State) → IsSettled d → Ensures IsSettled (daemon_step job e d)
unfolding daemon_step signal_step
daemon_step-IsSettled job (main_moves now) d h = main_step-IsSettled now job d.phase d refl h
daemon_step-IsSettled job (watchdog_moves now) d h = watchdog_step-IsSettled now d.watch d refl h
daemon_step-IsSettled job (writer_moves error) d h = writer_step-IsSettled error d h
daemon_step-IsSettled job (collector_moves i a) d h = collector_step-IsSettled i a d h
daemon_step-IsSettled job signal d h =
    Ensures-or_fault IsSettled (sig_handler d.canceled) _ λ b e. h

run-IsSettled :
    (job : Job) (es : List Event) (d : State) → IsSettled d → Ensures IsSettled (run job es d)
unfolding run
run-IsSettled job [] d h = h
run-IsSettled job (e ∷ es) d h =
    Ensures-bind IsSettled (daemon_step job e d) (run job es) λ d' e'.
      run-IsSettled job es d' (Ensures-done IsSettled _ (daemon_step-IsSettled job e d h) e')

-- From a state in which `init` has constructed all collectors and the watchdog is not in a round (it is
-- before one, sleeps, or has returned), whatever the threads do, the iterators of the watchdog's rounds
-- stay valid: whenever it is in a round, `classList` is as long as it was at the start of the round.
pub settled_lem :
    (job : Job) (d e : State) (es : List Event) (now end i : ℕ)
    → IsFull d.phase
    → IsIdle d.watch
    → run job es d ≡ done e
    → e.watch ≡ looking now end i
    → length e.classes ≡ end
settled_lem job d e es now end i full idle r w =
    let settled : IsSettled d = (full, idle-IsValid d.watch (length d.classes) idle) in
    rw w at (Ensures-done IsSettled _ (run-IsSettled job es d settled) r).1
