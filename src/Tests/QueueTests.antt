-- ===== src/Tests/QueueTests.antt =====
-- src/xbatd/src/CQueue.hpp: the theorems about the queue applied, with numbers for `double`.
use xbat_ginkgo.Base.{ℕ, ◌≡◌, refl, ◌⊎◌, false, [], ◌∷◌, none, codes}
use xbat_ginkgo.Base.Int.{pos, negsuc}
use xbat_ginkgo.Queue.{Entry, int64, double, Wake, no_entries, wait_and_pop, wait_and_pop_all}
use xbat_ginkgo.Queue.Delivery.{content, with_entries, TimesOut, wait_and_pop_all_lem}
use xbat_ginkgo.Queue.Steps.{
  System, Reach, here, next, push, IsAccounted, IsAwake, start, push_step,
}
use xbat_ginkgo.Queue.Accounting.{Reach-IsAccounted}
use xbat_ginkgo.Queue.Wakeups.{Reach-IsAwake}

abbrev point : Entry ℕ
point = int64 (record { measurement = codes "mem_used"; tags = []; value = pos 7; ts = 1 })

abbrev share : Entry ℕ
share = double (record { measurement = codes "mem_usage"; tags = []; value = 50; ts = 1 })

abbrev quiet : Wake ℕ
quiet = record { found = []; timed_out = false }

wait_and_pop_all_lem_example :
    let r = wait_and_pop_all (point ∷ share ∷ []) (pos 3) quiet no_entries in
    ((r.status ≡ pos 0)
      × (r.data_queue ≡ [])
      × (r.entries ≡ with_entries no_entries (content (point ∷ share ∷ []) quiet)))
    ⊎ ((r.status ≡ negsuc 0)
        × (r.data_queue ≡ [])
        × (r.entries ≡ no_entries)
        × TimesOut (point ∷ share ∷ []) (pos 3) quiet)
wait_and_pop_all_lem_example = wait_and_pop_all_lem (point ∷ share ∷ []) (pos 3) quiet no_entries

abbrev pushed_once : System ℕ
pushed_once = push_step start (point ∷ share ∷ [])

abbrev pushed_once_reached : Reach (pos 3) pushed_once
pushed_once_reached = next here (push (point ∷ share ∷ []))

Reach-IsAccounted_example : IsAccounted pushed_once
Reach-IsAccounted_example = Reach-IsAccounted pushed_once_reached

Reach-IsAwake_example : IsAwake pushed_once
Reach-IsAwake_example = Reach-IsAwake pushed_once_reached

-- Such a run: a spurious wake-up, or one after `pushMultiple` of no item.
wait_and_pop_runs : wait_and_pop [] (pos 0) quiet ≡ none
unfolding wait_and_pop
wait_and_pop_runs = refl
