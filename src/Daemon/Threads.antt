-- ===== src/Daemon/Threads.antt =====
-- What a step of any thread leaves alone in a collector.
use mathlib.Core.Option
use xbat_ginkgo.Base.{
  ℕ, zero, suc, ◌≡◌, refl, Bool, true, false, not, ◌||◌, List, [], ◌∷◌, Option, none, some,
  some_inj, subst, arith, All,
}
use xbat_ginkgo.Base.Int.{ℤ, pos, negsuc}
use xbat_ginkgo.Collector.{
  Collector, start_measurement, create_thread_and_measure, settle, synchronize_measurement,
  interval_cleanup, force_stop, get_thread_status, stop_measurement,
}
use xbat_ginkgo.Daemon.{Act, synchronizes, cleans, returns, act}
use xbat_ginkgo.Watchdog.{watchdog_entry, stop}

-- It is not marked as forcefully terminated, its thread may start, and its destructor waits exactly until
-- the thread has ended.
abbrev pub IsCalm : Collector → Type 0
IsCalm c =
    (c.was_forcefully_terminated ≡ false)
    × (c.launch_locked ≡ false)
    × (c.clean_up_locked ≡ not (c.has_terminated || c.self_terminated))

abbrev pub IsDetached : Collector → Type 0
IsDetached c = (c.joinable ≡ false) × IsCalm c

-- A stopped collector stays stopped, one that is calm stays so, and a detached thread stays so.
abbrev pub Keeps : Collector → Collector → Type 0
Keeps c d =
    (c.terminate ≡ true → d.terminate ≡ true)
    × (IsCalm c → IsCalm d)
    × (IsDetached c → IsDetached d)

settle-Keeps :
    (c : Collector) {d : Collector} (terminate : ℕ → Bool) (end : ℕ) (left : ℤ) (slept : ℕ)
    → settle c terminate end left ≡ some (d, slept)
    → Keeps c d
unfolding settle
settle-Keeps c terminate end left slept e =
    ((λ h. ground arith), (λ h. ground arith), (λ h. ground arith))

synchronize_measurement-Keeps :
    (c : Collector) {d : Collector} (o : Option (Collector × ℕ))
    → ((d' : Collector) (slept : ℕ) → o ≡ some (d', slept) → Keeps c d')
    → Option.map (λ r. r.0) o ≡ some d
    → Keeps c d
synchronize_measurement-Keeps c none keep e = cc
synchronize_measurement-Keeps c (some (d', slept)) keep e =
    subst (Keeps c) (some_inj e) (keep d' slept refl)

create_thread_and_measure-Keeps :
    (result : ℤ) (c : Collector) {d : Collector}
    → create_thread_and_measure result c ≡ some d
    → Keeps c d
unfolding create_thread_and_measure
create_thread_and_measure-Keeps (pos zero) c e =
    ((λ h. ground arith), (λ h. ground arith), (λ h. ground arith))
create_thread_and_measure-Keeps (pos (suc n)) c e =
    ((λ h. ground arith), (λ h. ground arith), (λ h. ground arith))
create_thread_and_measure-Keeps (negsuc n) c e =
    ((λ h. ground arith), (λ h. ground arith), (λ h. ground arith))

pub act-Keeps : (a : Act) (c : Collector) {d : Collector} → act a c ≡ some d → Keeps c d
unfolding act interval_cleanup synchronize_measurement
act-Keeps (synchronizes terminate now) c e =
    synchronize_measurement-Keeps c (synchronize_measurement c terminate now)
      (λ d' slept e'. settle-Keeps c terminate _ _ slept e') e
act-Keeps (cleans true now) c e = ((λ h. ground arith), (λ h. ground arith), (λ h. ground arith))
act-Keeps (cleans false now) c e = ((λ h. ground arith), (λ h. ground arith), (λ h. ground arith))
act-Keeps (returns result) c e = create_thread_and_measure-Keeps result c e

pub watchdog_entry-Keeps :
    (now : ℕ) (c : Collector) {d : Collector} → IsCalm c → watchdog_entry now c ≡ some d → Keeps c d
unfolding watchdog_entry force_stop start_measurement get_thread_status
watchdog_entry-Keeps now c f e = ((λ h. ground arith), (λ h. ground arith), (λ h. ground arith))

pub start_measurement-Keeps :
    (c : Collector) {d : Collector}
    → start_measurement c ≡ some d
    → (c.terminate ≡ true → d.terminate ≡ true) × (IsCalm c → IsCalm d)
unfolding start_measurement
start_measurement-Keeps c e = ((λ h. ground arith), (λ h. ground arith))

pub All-stop : (cs : List Collector) → All (λ c. c.terminate ≡ true) (stop cs)
unfolding stop stop_measurement
All-stop [] = tt
All-stop (c ∷ cs) = (refl, All-stop cs)
