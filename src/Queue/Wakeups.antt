-- ===== src/Queue/Wakeups.antt =====
-- No wake-up of the database writer is lost.
use xbat_ginkgo.Base.{refl, ◌≢◌, inl, inr, List, arith, Bool-cases}
use xbat_ginkgo.Base.Int.{ℤ}
use xbat_ginkgo.Queue.{Entry, is_empty, push_multiple}
use xbat_ginkgo.Queue.Steps.{
  System, Step, push, notify, sleep, pop, wake, time_out, Reach, here, next, IsAwake, running,
  asleep, signalled, notified, push_step, Consumer,
}

notified-ne-asleep : (c : Consumer) → notified c ≢ asleep
notified-ne-asleep running = λ h. cc
notified-ne-asleep asleep = λ h. cc
notified-ne-asleep signalled = λ h. cc

module _ {ℓ} {W : Type ℓ} where
  push-IsAwake : (s : System W) (items : List (Entry W)) → IsAwake s → IsAwake (push_step s items)
  unfolding push_multiple
  push-IsAwake s items a h = elim (a h) [
    | inl e ↦ rw e (inr (omega arith))
    | inr lt ↦ elim (Bool-cases (is_empty s.data_queue)) [
      | inl e ↦ rw e (inr (omega arith))
      | inr e ↦ rw e (inr lt)
    ]
  ]

module _ {ℓ} {W : Type ℓ} {timeout : ℤ} where
  Step-IsAwake : {s t : System W} → Step timeout s t → IsAwake s → IsAwake t
  Step-IsAwake {s} (push items) a = push-IsAwake s items a
  Step-IsAwake (notify n e) a = λ h. absurd (notified-ne-asleep _ h)
  Step-IsAwake (sleep e h) a = λ _. inl h
  Step-IsAwake (pop e h) a = λ h. cc
  Step-IsAwake (wake e) a = λ h. cc
  Step-IsAwake (time_out e h) a = λ h. cc

  -- In every state that the producers and the database writer can reach, a writer asleep in `wait`
  -- has an empty queue, or a producer is about to notify it.
  pub Reach-IsAwake : {s : System W} → Reach timeout s → IsAwake s
  unfolding is_empty
  Reach-IsAwake here = λ h. inl refl
  Reach-IsAwake (next r st) = Step-IsAwake st (Reach-IsAwake r)
