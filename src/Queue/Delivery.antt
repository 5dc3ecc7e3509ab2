-- ===== src/Queue/Delivery.antt =====
-- What `waitAndPopAll` hands over.
use xbat_ginkgo.Base.{
  ◌≡◌, refl, ap, ◌⊎◌, inl, inr, true, List, [], ◌∷◌, ◌++◌, arith, append_assoc, append-nil,
}
use xbat_ginkgo.Base.Int.{ℤ, pos, negsuc, ◌<ℤ◌}
use xbat_ginkgo.Queue.{Ilp, Entry, int64, double, IlpEntries, Wake, wait, drain, wait_and_pop_all}

module _ {ℓ} {W : Type ℓ} where
  -- The data points of one type, in their order.
  abbrev pub ints : List (Entry W) → List (Ilp ℤ)
  ints [] = []
  ints (int64 i ∷ q) = i ∷ ints q
  ints (double x ∷ q) = ints q

  abbrev pub doubles : List (Entry W) → List (Ilp W)
  doubles [] = []
  doubles (int64 i ∷ q) = doubles q
  doubles (double x ∷ q) = x ∷ doubles q

  pub ints-append : (p q : List (Entry W)) → ints (p ++ q) ≡ ints p ++ ints q
  ints-append [] q = refl
  ints-append (int64 i ∷ p) q = ap (◌∷◌ i) (ints-append p q)
  ints-append (double x ∷ p) q = ints-append p q

  pub doubles-append : (p q : List (Entry W)) → doubles (p ++ q) ≡ doubles p ++ doubles q
  doubles-append [] q = refl
  doubles-append (int64 i ∷ p) q = doubles-append p q
  doubles-append (double x ∷ p) q = ap (◌∷◌ x) (doubles-append p q)

  -- Appending a queue's data points to both lists.
  abbrev pub with_entries : IlpEntries W → List (Entry W) → IlpEntries W
  with_entries d q = record {
    ilp_int64_t = d.ilp_int64_t ++ ints q;
    ilp_double = d.ilp_double ++ doubles q;
  }

  pub drain_lem : (q : List (Entry W)) (d : IlpEntries W) → drain q d ≡ with_entries d q
  unfolding drain
  drain_lem [] d = simp append-nil
  drain_lem (int64 x ∷ q) d = simp (drain_lem q, append_assoc)
  drain_lem (double x ∷ q) d = simp (drain_lem q, append_assoc)

  -- What the consumer finds: the queue, or, if that is empty, what the wait ends with.
  abbrev pub content : List (Entry W) → Wake W → List (Entry W)
  content [] w = w.found
  content (e ∷ q) w = e ∷ q

  -- The call reports a timeout, which takes an empty queue, a positive limit and a timed-out wait.
  abbrev pub TimesOut : List (Entry W) → ℤ → Wake W → Type ℓ
  TimesOut q timeout w = (q ≡ []) × (pos 0 <ℤ timeout) × (w.timed_out ≡ true)

  pub wait-status :
      (timeout : ℤ) (w : Wake W)
      → (wait timeout w ≡ pos 0)
        ⊎ ((wait timeout w ≡ negsuc 0) × (pos 0 <ℤ timeout) × (w.timed_out ≡ true))
  unfolding wait
  wait-status timeout w = ground arith

  -- `waitAndPopAll` either returns 0, leaves an empty queue and appends every data point that the
  -- queue held (or that arrived during the wait) to the list of its type, in order; or the queue was
  -- empty, a positive timeout ran out, and it returns -1 with the entries and the queue unchanged.
  pub wait_and_pop_all_lem :
      (q : List (Entry W)) (timeout : ℤ) (w : Wake W) (d : IlpEntries W)
      → let r = wait_and_pop_all q timeout w d in
        ((r.status ≡ pos 0) × (r.data_queue ≡ []) × (r.entries ≡ with_entries d (content q w)))
        ⊎ ((r.status ≡ negsuc 0)
            × (r.data_queue ≡ w.found)
            × (r.entries ≡ d)
            × TimesOut q timeout w)
  unfolding wait_and_pop_all
  wait_and_pop_all_lem (e ∷ q) timeout w d = inl (refl, refl, drain_lem (e ∷ q) d)
  wait_and_pop_all_lem [] timeout w d = elim (wait-status timeout w) [
    | inl e ↦ rw (e, wait_and_pop_all) (inl (refl, refl, drain_lem w.found d))
    | inr (e, t, o) ↦ rw (e, wait_and_pop_all) (inr (refl, refl, refl, (refl, t, o)))
  ]
