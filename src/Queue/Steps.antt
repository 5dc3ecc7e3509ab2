-- ===== src/Queue/Steps.antt =====
-- The queue under concurrency: any number of producers and one consumer, the database writer.
-- A step is what one thread does while it holds `queue_mutex`; `notify_one` is a step of its own,
-- since the producer calls it after the mutex is released.
use xbat_ginkgo.Base.{ℕ, suc, ◌+◌, ◌<◌, ◌≡◌, ◌≢◌, ◌⊎◌, true, false, List, [], ◌++◌, if◌then◌else◌}
use xbat_ginkgo.Base.Int.{ℤ, pos, ◌<ℤ◌}
use xbat_ginkgo.Queue.{
  Entry, IlpEntries, Popped, is_empty, push_multiple, wait_and_pop_all, no_entries,
}
use xbat_ginkgo.Queue.Delivery.{ints, doubles}

-- Where the consumer stands in `waitAndPopAll`: outside or before the test for an empty queue, in
-- `wait`, or notified there.
pub data Consumer : Type 0 where
  running asleep signalled : Consumer

-- `owed` counts the producers that still have to call `notify_one`. `pushed` and `delivered` are
-- histories: all that was pushed, and all that the consumer has got.
pub record System {ℓ} (W : Type ℓ) : Type ℓ where
  pub data_queue : List (Entry W)
  pub owed : ℕ
  pub consumer : Consumer
  pub pushed : List (Entry W)
  pub delivered : IlpEntries W

abbrev pub notified : Consumer → Consumer
notified running = running
notified asleep = signalled
notified signalled = signalled

module _ {ℓ} {W : Type ℓ} where
  abbrev pub start : System W
  start = record {
    data_queue = [];
    owed = 0;
    consumer = running;
    pushed = [];
    delivered = no_entries;
  }

  abbrev pub push_step : System W → List (Entry W) → System W
  push_step s items =
      let (q, notify) = push_multiple items s.data_queue in
      record s {
        data_queue = q;
        owed = if notify then s.owed + 1 else s.owed;
        pushed = s.pushed ++ items;
      }

  -- The consumer's call returns.
  abbrev pub return_step : System W → Popped W → System W
  return_step s r = record s {
    data_queue = r.data_queue;
    consumer = running;
    delivered = r.entries;
  }

  pub data Step (timeout : ℤ) (s : System W) : System W → Type ℓ where
    push : (items : List (Entry W)) → Step timeout s (push_step s items)
    notify :
        (n : ℕ)
        → s.owed ≡ suc n
        → Step timeout s (record s { owed = n; consumer = notified s.consumer })
    sleep :
        s.consumer ≡ running
        → is_empty s.data_queue ≡ true
        → Step timeout s (record s { consumer = asleep })
    -- The queue has data, so the call does not wait.
    pop :
        s.consumer ≡ running
        → is_empty s.data_queue ≡ false
        → Step timeout s (
            return_step s (
              wait_and_pop_all s.data_queue timeout
                (record { found = s.data_queue; timed_out = false })
                s.delivered))
    -- A notification, or a spurious wake-up.
    wake :
        s.consumer ≢ running
        → Step timeout s (
            return_step s (
              wait_and_pop_all [] timeout
                (record { found = s.data_queue; timed_out = false })
                s.delivered))
    time_out :
        s.consumer ≡ asleep
        → pos 0 <ℤ timeout
        → Step timeout s (
            return_step s (
              wait_and_pop_all [] timeout
                (record { found = s.data_queue; timed_out = true })
                s.delivered))

  pub data Reach (timeout : ℤ) : System W → Type ℓ where
    here : Reach timeout start
    next : {s t : System W} → Reach timeout s → Step timeout s t → Reach timeout t

  -- What was pushed is what was delivered and then what is still queued, type by type and in order.
  pub record IsAccounted (s : System W) : Type ℓ where
    pub all_ints : s.delivered.ilp_int64_t ++ ints s.data_queue ≡ ints s.pushed
    pub all_doubles : s.delivered.ilp_double ++ doubles s.data_queue ≡ doubles s.pushed

  -- A consumer that sleeps beside a queue with data has a notification coming.
  abbrev pub IsAwake : System W → Type 0
  IsAwake s = s.consumer ≡ asleep → (is_empty s.data_queue ≡ true) ⊎ (0 < s.owed)
