-- ===== src/Queue/Accounting.antt =====
-- No data point is lost, doubled or reordered between the producers and the database writer.
use xbat_ginkgo.Base.{◌≡◌, refl, ap, inl, inr, false, List, [], ◌∷◌, ◌++◌, append_assoc, append-nil}
use xbat_ginkgo.Base.Int.{ℤ}
use xbat_ginkgo.Queue.{Entry, Wake, push_multiple, wait_and_pop_all}
use xbat_ginkgo.Queue.Delivery.{
  ints, doubles, ints-append, doubles-append, content, wait_and_pop_all_lem,
}
use xbat_ginkgo.Queue.Steps.{
  System, Step, push, notify, sleep, pop, wake, time_out, Reach, here, next, IsAccounted,
  return_step, push_step,
}

module _ {ℓ} {W : Type ℓ} where
  content_same : (q : List (Entry W)) → content q (record { found = q; timed_out = false }) ≡ q
  content_same [] = refl
  content_same (e ∷ q) = refl

  push-IsAccounted :
      (s : System W) (items : List (Entry W)) → IsAccounted s → IsAccounted (push_step s items)
  unfolding push_multiple
  push-IsAccounted s items a = record {
    all_ints = simp (ints-append, ← append_assoc) (ap (λ l. l ++ ints items) a.all_ints);
    all_doubles =
        simp (doubles-append, ← append_assoc) (ap (λ l. l ++ doubles items) a.all_doubles);
  }

  -- A call that finds what is queued, in the queue or after the wait, keeps the account.
  return-IsAccounted :
      (s : System W) (q : List (Entry W)) (timeout : ℤ) (w : Wake W)
      → content q w ≡ s.data_queue
      → w.found ≡ s.data_queue
      → IsAccounted s
      → IsAccounted (return_step s (wait_and_pop_all q timeout w s.delivered))
  return-IsAccounted s q timeout w same found a =
      elim (wait_and_pop_all_lem q timeout w s.delivered) [
        | inl (_, left, got) ↦ record {
          all_ints = rw (got, left, same) (simp append-nil a.all_ints);
          all_doubles = rw (got, left, same) (simp append-nil a.all_doubles);
        }
        | inr (_, left, got, _) ↦ record {
          all_ints = rw (got, left, found) a.all_ints;
          all_doubles = rw (got, left, found) a.all_doubles;
        }
      ]

  Step-IsAccounted :
      {timeout : ℤ} {s t : System W} → Step timeout s t → IsAccounted s → IsAccounted t
  Step-IsAccounted {s = s} (push items) a = push-IsAccounted s items a
  Step-IsAccounted (notify n e) a = record { all_ints = a.all_ints; all_doubles = a.all_doubles }
  Step-IsAccounted (sleep e h) a = record { all_ints = a.all_ints; all_doubles = a.all_doubles }
  Step-IsAccounted {timeout} {s} (pop e h) a =
      return-IsAccounted s s.data_queue timeout _ (content_same s.data_queue) refl a
  Step-IsAccounted {timeout} {s} (wake e) a = return-IsAccounted s [] timeout _ refl refl a
  Step-IsAccounted {timeout} {s} (time_out e h) a = return-IsAccounted s [] timeout _ refl refl a

  -- In every state that the producers and the database writer can reach, by whatever interleaving
  -- of pushes, notifications, waits, spurious wake-ups and timeouts: the data points of each type
  -- that were delivered, followed by those still queued, are those that were pushed, in order.
  pub Reach-IsAccounted : {timeout : ℤ} {s : System W} → Reach timeout s → IsAccounted s
  Reach-IsAccounted here = record { all_ints = refl; all_doubles = refl }
  Reach-IsAccounted (next r st) = Step-IsAccounted st (Reach-IsAccounted r)
