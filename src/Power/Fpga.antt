-- ===== src/Power/Fpga.antt =====
-- When CXilinx reports an error.
use xbat_ginkgo.Base.{
  ℕ, zero, suc, ◌+◌, ◌≡◌, refl, ap, ◌↔◌, List, [], ◌∷◌, Option, none, some, Bytes, All, All-append,
  arith, subst,
}
use xbat_ginkgo.Base.Float.{Double}
use xbat_ginkgo.Base.Outcome.{Outcome, done, fails, faults, or_fault, ◌>>=◌, >>=-eq-done, done_inj}
use xbat_ginkgo.Power.{DeviceFile, read_usage, read_fpga}
use xbat_ginkgo.Queue.{Entry, IsAt}
use xbat_ginkgo.Text.Numbers.{stoll}

-- The file of a device is there and cannot be read.
abbrev pub IsUnreadable : Bytes × DeviceFile → Type 0
IsUnreadable d = d.1 ≡ some none

or_fault_continues :
    {A B : Type 0} (o : Option A) (k : A → Outcome B)
    → ((a : A) → ¬ (k a ≡ fails))
    → ¬ ((or_fault o >>= k) ≡ fails)
or_fault_continues none k ok h = cc
or_fault_continues (some a) k ok h = ok a h

module _ {W : Type 0} where
  abbrev result : Outcome (ℕ × List (Entry W)) → Outcome (List (Entry W))
  result o = do (found, pushed) ← o; elim found [ zero ↦ fails | suc n ↦ done pushed ]

  result_fails :
      (o : Outcome (ℕ × List (Entry W)))
      → ¬ (o ≡ fails)
      → result o ≡ fails
      → (p : List (Entry W)) × (o ≡ done (0, p))
  result_fails (done (zero, p)) ok h = (p, refl)
  result_fails (done (suc n, p)) ok h = cc
  result_fails fails ok h = absurd (ok refl)
  result_fails faults ok h = cc

module _ {W : Type 0} ⦃d : Double W⦄ where
  read_usage_ok :
      (ts : ℕ) (devices : List (Bytes × DeviceFile)) (found : ℕ) (pushed : List (Entry W))
      → ¬ (read_usage ts devices found pushed ≡ fails)
  unfolding read_usage
  read_usage_ok ts [] found pushed h = cc
  read_usage_ok ts ((bdf, none) ∷ devices) found pushed h = cc
  read_usage_ok ts ((bdf, some none) ∷ devices) found pushed h =
      read_usage_ok ts devices found pushed h
  read_usage_ok ts ((bdf, some (some text)) ∷ devices) found pushed h =
      or_fault_continues (stoll text) _ (λ v h'. read_usage_ok ts devices (found + 1) _ h') h

  read_usage_zero :
      (ts : ℕ) (devices : List (Bytes × DeviceFile)) (found : ℕ) (pushed p : List (Entry W))
      → read_usage ts devices found pushed ≡ done (0, p)
      → (found ≡ 0) × All IsUnreadable devices
  unfolding read_usage
  read_usage_zero ts [] found pushed p h = (ap (λ r. r.0) (done_inj h), tt)
  read_usage_zero ts ((bdf, none) ∷ devices) found pushed p h =
      absurd (omega (arith, ap (λ r. r.0) (done_inj h)))
  read_usage_zero ts ((bdf, some none) ∷ devices) found pushed p h =
      let (zero_found, rest) = read_usage_zero ts devices found pushed p h in
      (zero_found, (refl, rest))
  read_usage_zero ts ((bdf, some (some text)) ∷ devices) found pushed p h =
      let (v, _, h') = >>=-eq-done (or_fault (stoll text)) _ h in
      let (one_found, _) = read_usage_zero ts devices (found + 1) _ p h' in
      absurd (omega (arith, one_found))

  read_usage_unreadable :
      (ts : ℕ) (devices : List (Bytes × DeviceFile)) (pushed : List (Entry W))
      → All IsUnreadable devices
      → read_usage ts devices 0 pushed ≡ done (0, pushed)
  unfolding read_usage
  read_usage_unreadable ts [] pushed silent = refl
  read_usage_unreadable ts ((bdf, none) ∷ devices) pushed (e, silent) = cc
  read_usage_unreadable ts ((bdf, some none) ∷ devices) pushed (e, silent) =
      read_usage_unreadable ts devices pushed silent
  read_usage_unreadable ts ((bdf, some (some text)) ∷ devices) pushed (e, silent) = cc

  -- A reading of the FPGAs is reported as an error if and only if the file of every device is there
  -- and cannot be read. So a device whose path is missing hides the error, although it ends the
  -- reading.
  pub read_fpga_fails_iff :
      (ts : ℕ) (devices : List (Bytes × DeviceFile))
      → (read_fpga {W = W} ts devices ≡ fails) ↔ All IsUnreadable devices
  unfolding read_fpga
  read_fpga_fails_iff ts devices = (
    (λ h.
        let (p, e) = result_fails (read_usage ts devices 0 []) (read_usage_ok ts devices 0 []) h in
        (read_usage_zero ts devices 0 [] p e).1),
    (λ silent. ap result (read_usage_unreadable ts devices [] silent)),
  )

  read_usage-IsAt :
      (ts : ℕ) (devices : List (Bytes × DeviceFile)) (found n : ℕ) (pushed p : List (Entry W))
      → read_usage ts devices found pushed ≡ done (n, p)
      → All (IsAt ts) pushed
      → All (IsAt ts) p
  unfolding read_usage
  read_usage-IsAt ts [] found n pushed p h at =
      subst (All (IsAt ts)) (ap (λ r. r.1) (done_inj h)) at
  read_usage-IsAt ts ((bdf, none) ∷ devices) found n pushed p h at =
      subst (All (IsAt ts)) (ap (λ r. r.1) (done_inj h)) at
  read_usage-IsAt ts ((bdf, some none) ∷ devices) found n pushed p h at =
      read_usage-IsAt ts devices found n pushed p h at
  read_usage-IsAt ts ((bdf, some (some text)) ∷ devices) found n pushed p h at =
      let (v, _, h') = >>=-eq-done (or_fault (stoll text)) _ h in
      read_usage-IsAt ts devices (found + 1) n _ p h' (All-append (IsAt ts) pushed _ at (refl, tt))

  pub read_fpga-IsAt :
      (ts : ℕ) (devices : List (Bytes × DeviceFile)) (es : List (Entry W))
      → read_fpga ts devices ≡ done es
      → All (IsAt ts) es
  unfolding read_fpga
  read_fpga-IsAt ts devices es h =
      let ((n, p), e, h') = >>=-eq-done (read_usage ts devices 0 []) _ h in
      subst (All (IsAt ts)) (pushed_all n p es h') (read_usage-IsAt ts devices 0 n [] p e tt)
    where
      pushed_all : (n : ℕ) (p es : List (Entry W)) → result (done (n, p)) ≡ done es → p ≡ es
      pushed_all zero p es h = cc
      pushed_all (suc n) p es h = done_inj h
