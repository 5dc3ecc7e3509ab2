-- ===== src/Memory/Usage.antt =====
-- What one reading of /proc/meminfo pushes.
use xbat_ginkgo.Base.{ℕ, ◌≡◌, refl, List, Option, Bytes, All, length, codes, subst}
use xbat_ginkgo.Base.Float.{Double}
use xbat_ginkgo.Base.Int.{◌-ℤ◌}
use xbat_ginkgo.Base.Outcome.{done, >>=-eq-done, done_inj}
use xbat_ginkgo.Memory.{Values, read_values, entries_of, read_proc, in_int64, value_of}
use xbat_ginkgo.Queue.{Entry, IsAt}

module _ {W : Type 0} ⦃d : Double W⦄ where
  abbrev IsReport : ℕ → List (Entry W) → Type 0
  IsReport ts es = (length es ≡ 6) × All (IsAt ts) es

  entries_of_lem :
      (ts : ℕ) (values : Values) (es : List (Entry W))
      → entries_of ts values ≡ done es
      → IsReport ts es
  unfolding entries_of
  entries_of_lem ts values es h =
      let (used, _, h₁) =
        >>=-eq-done
          (in_int64 (value_of (codes "MemTotal") values -ℤ value_of (codes "MemAvailable") values))
          _ h in
      let (swap, _, h₂) =
        >>=-eq-done
          (in_int64 (value_of (codes "SwapTotal") values -ℤ value_of (codes "SwapFree") values)) _
          h₁ in
      subst (IsReport ts) (done_inj h₂) (refl, (refl, (refl, (refl, (refl, (refl, (refl, tt)))))))

  -- If a reading of /proc/meminfo succeeds it pushes six data points, all with the time stamp given.
  pub read_proc_lem :
      (ts : ℕ) (file : Option Bytes) (es : List (Entry W))
      → read_proc ts file ≡ done es
      → (length es ≡ 6) × All (IsAt ts) es
  unfolding read_proc
  read_proc_lem ts file es h =
      let (values, _, h') = >>=-eq-done (read_values file) _ h in entries_of_lem ts values es h'
