-- ===== src/Pipeline.antt =====
-- The way of the data points from the collectors to the database: CQueue of src/xbatd/src/CQueue.hpp and
-- writeToDb of src/xbatd/src/main.cpp together, as a sequence of operations on the queue.
pub mod Refinement
use xbat_ginkgo.Base.{List, [], ◌∷◌, ◌++◌, Option, none, some, Bytes, Bool}
use xbat_ginkgo.Base.Int.{ℤ, pos, negsuc}
use xbat_ginkgo.Queue.{Entry, Wake, Popped, IlpEntries, no_entries, push_multiple, wait_and_pop_all}

-- A collector pushes, or the writer calls `waitAndPopAll`.
pub data Operation {ℓ} (W : Type ℓ) : Type ℓ where
  pushing : List (Entry W) → Operation W
  popping : Wake W → Operation W

-- QUEUE_TIMEOUT
abbrev pub queue_timeout : ℤ
queue_timeout = pos 3

module _ {ℓ} {W : Type ℓ} where
  -- What the writer goes on with: `none` where it continues with the next call.
  abbrev pub poll_of : Popped W → Option (IlpEntries W)
  poll_of p = elim p.status [ pos n ↦ some p.entries | negsuc n ↦ none ]

  -- What the calls of the writer hand over, and what is left in the queue.
  unfoldable pub run_operations :
      List (Operation W) → List (Entry W) → List (Option (IlpEntries W)) × List (Entry W)
  run_operations [] q = ([], q)
  run_operations (pushing items ∷ ops) q = run_operations ops (push_multiple items q).0
  run_operations (popping w ∷ ops) q =
      let p = wait_and_pop_all q queue_timeout w no_entries in
      let (polls, left) = run_operations ops p.data_queue in (poll_of p ∷ polls, left)
