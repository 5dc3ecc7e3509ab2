-- ===== src/Queue/Faults.antt =====
-- `waitAndPop` reads `front` without a second test for an empty queue.
use xbat_ginkgo.Base.{◌≡◌, refl, ◌↔◌, inl, inr, List, [], ◌∷◌, none}
use xbat_ginkgo.Base.Int.{ℤ, pos}
use xbat_ginkgo.Queue.{Entry, Wake, wait, pop_front, wait_and_pop}
use xbat_ginkgo.Queue.Delivery.{wait-status}

module _ {ℓ} {W : Type ℓ} where
  pop_front-fault : (q : List (Entry W)) → pop_front q ≡ none → q ≡ []
  unfolding pop_front
  pop_front-fault [] h = refl
  pop_front-fault (e ∷ q) h = cc

  -- `waitAndPop` has undefined behaviour (`front` of an empty queue) exactly if the queue is empty,
  -- the wait does not report a timeout, and it finds the queue still empty, as after a spurious
  -- wake-up or after `pushMultiple` of no item.
  pub wait_and_pop_fault :
      (q : List (Entry W)) (timeout : ℤ) (w : Wake W)
      → (wait_and_pop q timeout w ≡ none) ↔ ((q ≡ []) × (w.found ≡ []) × (wait timeout w ≡ pos 0))
  unfolding wait_and_pop
  wait_and_pop_fault (e ∷ q) timeout w = ((λ h. cc), (λ h. cc (h.0)))
  wait_and_pop_fault [] timeout w = elim (wait-status timeout w) [
    | inl e ↦
        rw (e, wait_and_pop)
          ((λ h. (refl, pop_front-fault w.found h, refl)), (λ h. rw (h.1, wait_and_pop)))
    | inr (e, t, o) ↦ rw (e, wait_and_pop) ((λ h. cc), (λ h. cc (h.2)))
  ]
