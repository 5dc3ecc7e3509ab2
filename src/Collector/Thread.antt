-- ===== src/Collector/Thread.antt =====
-- The life of a measurement thread.
use xbat_ginkgo.Base.{ℕ, zero, suc, ◌≡◌, refl, ◌≢◌, ◌↔◌, Option, none, some, Bytes, arith, ◌>>=◌}
use xbat_ginkgo.Base.Int.{ℤ, pos, negsuc}
use xbat_ginkgo.Collector.{
  Collector, construct, start_measurement, create_thread_and_measure, get_thread_status, destroy,
  thread_terminated, thread_self_terminated,
}

-- A collector that is constructed, started and whose `measure` returns `result`.
abbrev pub life : Bytes → ℕ → ℕ → ℕ → ℤ → Option Collector
life name start_time interval now result = do
  c ← start_measurement (construct name start_time interval now)
  create_thread_and_measure result c

-- The thread of a new collector starts and ends without a fault; its status is then "terminated" if
-- `measure` returned 0 and "self-terminated" for any other result; and the object can be destroyed,
-- which before the end of the thread it could not.
pub life_lem :
    (name : Bytes) (start_time interval now : ℕ) (result : ℤ)
    → (c : Collector) × (life name start_time interval now result ≡ some c)
      × ((get_thread_status c ≡ thread_terminated) ↔ (result ≡ pos 0))
      × ((get_thread_status c ≡ thread_self_terminated) ↔ (result ≢ pos 0))
      × (destroy c ≡ some tt)
      × ((start_measurement (construct name start_time interval now) >>= destroy) ≡ none)
unfolding construct start_measurement create_thread_and_measure get_thread_status destroy
life_lem name start_time interval now (pos zero) =
    (_, refl, ((λ _. refl), (λ _. refl)), ((λ h. ground arith), (λ h. absurd (h refl))), refl, refl)
life_lem name start_time interval now (pos (suc n)) = (
  _,
  refl,
  ((λ h. ground arith), (λ h. ground arith)),
  ((λ h e. ground arith), (λ h. refl)),
  refl,
  refl,
)
life_lem name start_time interval now (negsuc n) =
    (_, refl, ((λ h. ground arith), (λ h. cc)), ((λ h e. cc), (λ h. refl)), refl, refl)
