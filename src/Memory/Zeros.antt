-- ===== src/Memory/Zeros.antt =====
-- The two data points of src/xbatd/src/CMemUsage.cpp whose keys are none of the names in /proc/meminfo.
use xbat_ginkgo.Base.{
  ℕ, ◌≡◌, refl, subst, List, [], ◌∷◌, some, Option, Bytes, codes, arith, All, get_elem?,
}
use xbat_ginkgo.Base.Float.{Double}
use xbat_ginkgo.Base.Int.{pos, ◌-ℤ◌}
use xbat_ginkgo.Base.Maps.{lookup_or, bytes_key}
use xbat_ginkgo.Base.Outcome.{done, Ensures-done, >>=-eq-done, done_inj}
use xbat_ginkgo.Queue.{Entry, int64}
use xbat_ginkgo.Memory.{entries_of, read_proc, in_int64, Values, entry_names, read_values, value_of}
use xbat_ginkgo.Text.{is_prefix}
use xbat_ginkgo.Memory.Keys.{IsOther, IsAbsent, read_values-IsAbsent}

buffers-IsOther : All (IsOther (codes "MemBuffers")) entry_names
unfolding is_prefix
buffers-IsOther = (
  ((λ e. cc), omega arith, omega arith, omega arith, refl),
  (
    ((λ e. cc), omega arith, omega arith, omega arith, refl),
    (
      ((λ e. cc), omega arith, omega arith, omega arith, refl),
      (
        ((λ e. cc), omega arith, omega arith, omega arith, refl),
        (
          ((λ e. cc), omega arith, omega arith, omega arith, refl),
          (
            ((λ e. cc), omega arith, omega arith, omega arith, refl),
            (
              ((λ e. cc), omega arith, omega arith, omega arith, refl),
              (((λ e. cc), omega arith, omega arith, omega arith, refl), tt),
            ),
          ),
        ),
      ),
    ),
  ),
)

cached-IsOther : All (IsOther (codes "MemCached")) entry_names
unfolding is_prefix
cached-IsOther = (
  ((λ e. cc), omega arith, omega arith, omega arith, refl),
  (
    ((λ e. cc), omega arith, omega arith, omega arith, refl),
    (
      ((λ e. cc), omega arith, omega arith, omega arith, refl),
      (
        ((λ e. cc), omega arith, omega arith, omega arith, refl),
        (
          ((λ e. cc), omega arith, omega arith, omega arith, refl),
          (
            ((λ e. cc), omega arith, omega arith, omega arith, refl),
            (
              ((λ e. cc), omega arith, omega arith, omega arith, refl),
              (((λ e. cc), omega arith, omega arith, omega arith, refl), tt),
            ),
          ),
        ),
      ),
    ),
  ),
)

value_of-absent :
    (key : Bytes) (values : Values) → IsAbsent key values → value_of key values ≡ pos 0
unfolding value_of lookup_or
value_of-absent key values h = rw (h, lookup_or) refl

module _ {W : Type 0} ⦃d : Double W⦄ where
  -- A data point that says that no memory is used.
  abbrev pub zero_size : ℕ → Bytes → Entry W
  zero_size ts label = int64 (record {
    measurement = label;
    tags = (codes "level", codes "node") ∷ [];
    value = pos 0;
    ts = ts;
  })

  abbrev pub HasZeros : ℕ → List (Entry W) → Type 0
  HasZeros ts es =
      (get_elem? es 4 ≡ some (zero_size ts (codes "mem_buffers")))
      × (get_elem? es 5 ≡ some (zero_size ts (codes "mem_cached")))

  entries_of-HasZeros :
      (ts : ℕ) (values : Values) (es : List (Entry W))
      → entries_of ts values ≡ done es
      → IsAbsent (codes "MemBuffers") values
      → IsAbsent (codes "MemCached") values
      → HasZeros ts es
  unfolding entries_of
  entries_of-HasZeros ts values es h b c =
      let buffers = value_of-absent (codes "MemBuffers") values b in
      let cached = value_of-absent (codes "MemCached") values c in
      let (used, _, h₁) =
        >>=-eq-done
          (in_int64 (value_of (codes "MemTotal") values -ℤ value_of (codes "MemAvailable") values))
          _ h in
      let (swap, _, h₂) =
        >>=-eq-done
          (in_int64 (value_of (codes "SwapTotal") values -ℤ value_of (codes "SwapFree") values)) _
          h₁ in
      subst (HasZeros ts) (done_inj h₂) (cc buffers, cc cached)

  -- Whatever /proc/meminfo holds: if it is read, "mem_buffers" and "mem_cached" are reported as 0.
  pub read_proc-HasZeros :
      (ts : ℕ) (file : Option Bytes) (es : List (Entry W))
      → read_proc ts file ≡ done es
      → (get_elem? es 4 ≡ some (zero_size ts (codes "mem_buffers")))
        × (get_elem? es 5 ≡ some (zero_size ts (codes "mem_cached")))
  unfolding read_proc
  read_proc-HasZeros ts file es h =
      let (values, e, h') = >>=-eq-done (read_values file) _ h in
      entries_of-HasZeros ts values es h'
        (Ensures-done (IsAbsent (codes "MemBuffers")) (read_values file)
          (read_values-IsAbsent (codes "MemBuffers") file buffers-IsOther) e)
        (Ensures-done (IsAbsent (codes "MemCached")) (read_values file)
          (read_values-IsAbsent (codes "MemCached") file cached-IsOther) e)
