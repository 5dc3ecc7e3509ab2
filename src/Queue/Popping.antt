-- ===== src/Queue/Popping.antt =====
-- `waitAndPopAll` with a list that is empty before, as the database writer calls it.
use xbat_ginkgo.Base.{◌≡◌, refl, ap, Bool, true, false, List, [], ◌∷◌, if◌then◌else◌}
use xbat_ginkgo.Base.Int.{ℤ, pos, negsuc}
use xbat_ginkgo.Queue.{
  Entry, Wake, Popped, no_entries, wait, drained, after_wait, is_empty, wait_and_pop_all,
}
use xbat_ginkgo.Queue.Delivery.{with_entries, drain_lem}

module _ {ℓ} {W : Type ℓ} where
  -- All that is in `q` is handed over.
  abbrev pub handed_over : List (Entry W) → Popped W
  handed_over q = record { status = pos 0; entries = with_entries no_entries q; data_queue = [] }

  pub pop_full :
      (e : Entry W) (q : List (Entry W)) (timeout : ℤ) (w : Wake W)
      → wait_and_pop_all (e ∷ q) timeout w no_entries ≡ handed_over (e ∷ q)
  unfolding wait_and_pop_all drained is_empty
  pop_full e q timeout w = rw (drain_lem (e ∷ q) no_entries) refl

  pub pop_empty :
      (found : List (Entry W)) (b : Bool)
      → wait_and_pop_all [] (pos 3) (record { found = found; timed_out = b }) no_entries ≡ (
          if b
          then record { status = negsuc 0; entries = no_entries; data_queue = found }
          else handed_over found)
  unfolding wait_and_pop_all wait after_wait drained is_empty
  pop_empty found true = refl
  pop_empty found false =
      ap (λ entries. record { status = pos 0; entries = entries; data_queue = [] })
        (drain_lem found no_entries)
