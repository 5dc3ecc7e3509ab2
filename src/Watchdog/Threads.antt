-- ===== src/Watchdog/Threads.antt =====
-- Stopping the collectors, and knowing that all have ended.
use xbat_ginkgo.Base.{
  ℕ, ◌+◌, ◌≤◌, ◌≡◌, refl, ◌≢◌, ◌↔◌, true, List, [], ◌∷◌, map, arith, ◌==◌, length, length-map,
  if◌then◌else◌, All,
}
use xbat_ginkgo.Collector.{Collector, get_thread_status, stop_measurement, thread_running}
use xbat_ginkgo.Watchdog.{count_stopped, terminated, stop}

abbrev pub HasEnded : Collector → Type 0
HasEnded c = get_thread_status c ≢ thread_running

count_stopped-le : (cs : List Collector) (n : ℕ) → count_stopped cs n ≤ n + length cs
unfolding count_stopped
count_stopped-le [] n = omega arith
count_stopped-le (c ∷ cs) n = ground (arith, count_stopped-le cs n, count_stopped-le cs (n + 1))

count_stopped_full :
    (cs : List Collector) (n : ℕ) → (count_stopped cs n ≡ n + length cs) ↔ All HasEnded cs
unfolding count_stopped
count_stopped_full [] n = ((λ _. tt), (λ _. omega arith))
count_stopped_full (c ∷ cs) n =
    ground (arith, count_stopped_full cs n, count_stopped_full cs (n + 1), count_stopped-le cs n)

-- `ThreadHelper::terminated` holds exactly if no collector has the status "running".
pub terminated_iff : (cs : List Collector) → (terminated cs ≡ true) ↔ All HasEnded cs
unfolding terminated
terminated_iff cs = ground (arith, count_stopped_full cs 0)

count_stopped-map :
    (cs : List Collector) (n : ℕ) → count_stopped (map stop_measurement cs) n ≡ count_stopped cs n
unfolding count_stopped stop_measurement get_thread_status
count_stopped-map [] n = refl
count_stopped-map (c ∷ cs) n =
    count_stopped-map cs (if get_thread_status c == thread_running then n else n + 1)

All-stopping : (cs : List Collector) → All (λ c. c.terminate ≡ true) (map stop_measurement cs)
unfolding stop_measurement
All-stopping [] = tt
All-stopping (c ∷ cs) = (refl, All-stopping cs)

-- `ThreadHelper::stop` sets `terminate` in every collector, and ends none by itself: whether all
-- have ended is the same before and after.
pub stop_lem :
    (cs : List Collector)
    → All (λ c. c.terminate ≡ true) (stop cs) × (terminated (stop cs) ≡ terminated cs)
unfolding stop terminated
stop_lem cs = (All-stopping cs, cc (count_stopped-map cs 0, length-map stop_measurement cs))
