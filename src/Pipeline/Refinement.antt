-- ===== src/Pipeline/Refinement.antt =====
-- The queue and the writer against a pair of mailboxes, one for each type of data points.
use xbat_ginkgo.Base.{
  ◌≡◌, refl, subst, Bool, true, false, List, [], ◌∷◌, ◌++◌, Option, none, some, Bytes,
  if◌then◌else◌,
}
use xbat_ginkgo.Base.Int.{ℤ, negsuc}
use xbat_ginkgo.Pipeline.{Operation, pushing, popping, queue_timeout, poll_of, run_operations}
use xbat_ginkgo.Queue.Popping.{handed_over, pop_full, pop_empty}
use xbat_ginkgo.Queue.{
  Ilp, Popped, Entry, int64, double, Wake, IlpEntries, no_entries, push_multiple, wait_and_pop_all,
}
use xbat_ginkgo.Queue.Delivery.{ints, doubles, ints-append, doubles-append}
use xbat_ginkgo.Writer.{Row, write_to_db}
use xbat_ginkgo.Writer.Delivery.{AreSmall, IsDelivered, poll_rows, write_to_db_lem}

module _ {W : Type 0} where
  -- The specification: a mailbox for each type.
  abbrev pub boxes_of : List (Entry W) → IlpEntries W
  boxes_of q = record { ilp_int64_t = ints q; ilp_double = doubles q }

  abbrev add_to : IlpEntries W → List (Entry W) → IlpEntries W
  add_to b items = record {
    ilp_int64_t = b.ilp_int64_t ++ ints items;
    ilp_double = b.ilp_double ++ doubles items;
  }

  abbrev has_mail : IlpEntries W → Bool
  has_mail b = elim b.ilp_int64_t [
    | [] ↦ elim b.ilp_double [ [] ↦ false | x ∷ xs ↦ true ]
    | i ∷ is ↦ true
  ]

  -- Taking all mail; with empty mailboxes the writer waits for some, and can time out.
  abbrev take_all : IlpEntries W → Wake W → Option (IlpEntries W) × IlpEntries W
  take_all b w =
      if has_mail b
      then (some b, no_entries)
      else if w.timed_out
      then (none, boxes_of w.found)
      else (some (boxes_of w.found), no_entries)

  abbrev pub specified :
      List (Operation W) → IlpEntries W → List (Option (IlpEntries W)) × IlpEntries W
  specified [] b = ([], b)
  specified (pushing items ∷ ops) b = specified ops (add_to b items)
  specified (popping w ∷ ops) b =
      let (poll, b') = take_all b w in let (polls, left) = specified ops b' in (poll ∷ polls, left)

  has_mail_later :
      (is : List (Ilp ℤ)) (x : Ilp W) (ds : List (Ilp W))
      → has_mail (record { ilp_int64_t = is; ilp_double = x ∷ ds }) ≡ true
  has_mail_later [] x ds = refl
  has_mail_later (i ∷ is) x ds = refl

  -- One call of the writer does what the specification says.
  abbrev IsTaken : List (Entry W) → Wake W → Popped W → Type 0
  IsTaken q w p =
      (poll_of p ≡ (take_all (boxes_of q) w).0)
      × (boxes_of p.data_queue ≡ (take_all (boxes_of q) w).1)

  pop-IsTaken :
      (q : List (Entry W)) (w : Wake W)
      → IsTaken q w (wait_and_pop_all q queue_timeout w no_entries)
  pop-IsTaken [] w = rw (pop_empty w.found w.timed_out) (late w.found w.timed_out)
    where
      late :
          (found : List (Entry W)) (b : Bool)
          → IsTaken []
              (record { found = found; timed_out = b })
              (if b
                then record { status = negsuc 0; entries = no_entries; data_queue = found }
                else handed_over found)
      late found true = (refl, refl)
      late found false = (refl, refl)
  pop-IsTaken (int64 i ∷ q) w = rw (pop_full (int64 i) q queue_timeout w) (refl, refl)
  pop-IsTaken (double x ∷ q) w =
      rw (pop_full (double x) q queue_timeout w, has_mail_later (ints q) x (doubles q)) (refl, refl)

  abbrev Refines : List (Operation W) → List (Entry W) → Type 0
  Refines ops q =
      ((run_operations ops q).0 ≡ (specified ops (boxes_of q)).0)
      × (boxes_of (run_operations ops q).1 ≡ (specified ops (boxes_of q)).1)

  run-Refines : (ops : List (Operation W)) (q : List (Entry W)) → Refines ops q
  unfolding run_operations push_multiple
  run-Refines [] q = (refl, refl)
  run-Refines (pushing items ∷ ops) q =
      let added : boxes_of (q ++ items) ≡ add_to (boxes_of q) items =
        rw (ints-append q items, doubles-append q items) refl in
      subst
        (λ b.
          ((run_operations ops (q ++ items)).0 ≡ (specified ops b).0)
          × (boxes_of (run_operations ops (q ++ items)).1 ≡ (specified ops b).1))
        added (run-Refines ops (q ++ items))
  run-Refines (popping w ∷ ops) q =
      let p = wait_and_pop_all q queue_timeout w no_entries in
      let (poll, boxes) = pop-IsTaken q w in
      let (polls, left) = run-Refines ops p.data_queue in
      (cc (poll, boxes, polls), cc (boxes, left))

  -- The queue refines a pair of mailboxes, one for integers and one for doubles: whatever is pushed and
  -- whatever the waits end with, the writer gets poll for poll what the mailboxes hold, and what is
  -- left in the queue is what they are left with. If no poll has 2^31 - 1000 data points or more, and
  -- whatever the database accepts and delivers, what the writer has delivered from an empty queue on
  -- is a beginning of the rows that the mailboxes gave, and all of them if it has not failed.
  pub pipeline_lem :
      (accepts : Row W → Bool) (delivers : List (Row W) → List (Row W) → Bool)
      (job_id hostname : Bytes) (ops : List (Operation W))
      → AreSmall (specified ops no_entries).0
      → ((run_operations ops []).0 ≡ (specified ops no_entries).0)
        × (boxes_of (run_operations ops []).1 ≡ (specified ops no_entries).1)
        × IsDelivered
            (poll_rows job_id hostname (specified ops no_entries).0)
            (write_to_db accepts delivers job_id hostname (run_operations ops []).0)
  pipeline_lem accepts delivers job_id hostname ops small =
      let (polls, left) = run-Refines ops [] in
      (
        polls,
        left,
        rw polls
            (write_to_db_lem accepts delivers job_id hostname (specified ops no_entries).0 small),
      )
