-- ===== src/Daemon/Phases.antt =====
-- What holds at each point of `measure`.
use xbat_ginkgo.Base.{
  ℕ, ◌≡◌, refl, ◌≢◌, Bool, true, List, some, All, All-set, All-get_elem?, get_elem?, set, take,
}
use xbat_ginkgo.Collector.{Collector, get_thread_status, thread_running}
use xbat_ginkgo.Daemon.Threads.{IsCalm, Keeps}
use xbat_ginkgo.Daemon.{
  Phase, filling, starting, joining_writer, stopping, joining_watchdog, waiting, deleting, returned,
  Watch, ended, State,
}
use xbat_ginkgo.Watchdog.Threads.{HasEnded}

abbrev pub IsStopped : Collector → Type 0
IsStopped c = c.terminate ≡ true

abbrev pub IsJoinable : Collector → Type 0
IsJoinable c = c.joinable ≡ true

-- What holds of the writer, the watchdog and the collectors when `measure` has come to a phase.
abbrev pub AtPhase : Phase → Bool → Watch → List Collector → Type 0
AtPhase (filling names) w v cs = Unit
AtPhase starting w v cs = Unit
AtPhase joining_writer w v cs = Unit
AtPhase stopping w v cs = w ≡ true
AtPhase joining_watchdog w v cs = (w ≡ true) × All IsStopped cs
AtPhase waiting w v cs = (w ≡ true) × All IsStopped cs × (v ≡ ended)
AtPhase (deleting k) w v cs =
    (w ≡ true) × All IsStopped cs × (v ≡ ended) × All HasEnded cs × All IsJoinable (take k cs)
AtPhase returned w v cs =
    (w ≡ true) × All IsStopped cs × (v ≡ ended) × All HasEnded cs × All IsJoinable cs

pub record IsOrderly (d : State) : Type 0 where
  pub canceled : d.writer_ended ≡ true → d.canceled ≡ true
  pub calm : All IsCalm d.classes
  pub at : AtPhase d.phase d.writer_ended d.watch d.classes

-- A collector's own step: it has not ended, so `measure` is not past its wait.
pub act-AtPhase :
    (p : Phase) (w : Bool) (v : Watch) (cs : List Collector) (i : ℕ) (c c' : Collector)
    → get_elem? cs i ≡ some c
    → get_thread_status c ≡ thread_running
    → Keeps c c'
    → AtPhase p w v cs
    → AtPhase p w v (set cs i c')
act-AtPhase (filling names) w v cs i c c' e running k h = tt
act-AtPhase starting w v cs i c c' e running k h = tt
act-AtPhase joining_writer w v cs i c c' e running k h = tt
act-AtPhase stopping w v cs i c c' e running k h = h
act-AtPhase joining_watchdog w v cs i c c' e running k h =
    (h.0, All-set IsStopped cs i c' (k.0 (All-get_elem? IsStopped cs i e h.1)) h.1)
act-AtPhase waiting w v cs i c c' e running k h =
    (h.0, All-set IsStopped cs i c' (k.0 (All-get_elem? IsStopped cs i e h.1)) h.1, h.2)
act-AtPhase (deleting n) w v cs i c c' e running k h =
    absurd (All-get_elem? HasEnded cs i e h.3 running)
act-AtPhase returned w v cs i c c' e running k h =
    absurd (All-get_elem? HasEnded cs i e h.3 running)

-- A step of the watchdog at an entry: `measure` has not joined it.
pub look-AtPhase :
    (p : Phase) (w : Bool) (v v' : Watch) (cs : List Collector) (i : ℕ) (c c' : Collector)
    → get_elem? cs i ≡ some c
    → v ≢ ended
    → Keeps c c'
    → AtPhase p w v cs
    → AtPhase p w v' (set cs i c')
look-AtPhase (filling names) w v v' cs i c c' e u k h = tt
look-AtPhase starting w v v' cs i c c' e u k h = tt
look-AtPhase joining_writer w v v' cs i c c' e u k h = tt
look-AtPhase stopping w v v' cs i c c' e u k h = h
look-AtPhase joining_watchdog w v v' cs i c c' e u k h =
    (h.0, All-set IsStopped cs i c' (k.0 (All-get_elem? IsStopped cs i e h.1)) h.1)
look-AtPhase waiting w v v' cs i c c' e u k h = absurd (u h.2)
look-AtPhase (deleting n) w v v' cs i c c' e u k h = absurd (u h.2)
look-AtPhase returned w v v' cs i c c' e u k h = absurd (u h.2)

-- The watchdog moves without touching a collector.
pub watch-AtPhase :
    (p : Phase) (w : Bool) (v v' : Watch) (cs : List Collector)
    → v ≢ ended
    → AtPhase p w v cs
    → AtPhase p w v' cs
watch-AtPhase (filling names) w v v' cs u h = tt
watch-AtPhase starting w v v' cs u h = tt
watch-AtPhase joining_writer w v v' cs u h = tt
watch-AtPhase stopping w v v' cs u h = h
watch-AtPhase joining_watchdog w v v' cs u h = h
watch-AtPhase waiting w v v' cs u h = absurd (u h.2)
watch-AtPhase (deleting n) w v v' cs u h = absurd (u h.2)
watch-AtPhase returned w v v' cs u h = absurd (u h.2)

-- The writer ends.
pub writer-AtPhase :
    (p : Phase) (w : Bool) (v : Watch) (cs : List Collector)
    → AtPhase p w v cs
    → AtPhase p true v cs
writer-AtPhase (filling names) w v cs h = tt
writer-AtPhase starting w v cs h = tt
writer-AtPhase joining_writer w v cs h = tt
writer-AtPhase stopping w v cs h = refl
writer-AtPhase joining_watchdog w v cs h = (refl, h.1)
writer-AtPhase waiting w v cs h = (refl, h.1, h.2)
writer-AtPhase (deleting n) w v cs h = (refl, h.1, h.2, h.3, h.4)
writer-AtPhase returned w v cs h = (refl, h.1, h.2, h.3, h.4)
