-- ===== src/Gpu/NvidiaReports.antt =====
-- What `collect` of CNvidiaGPU pushes.
use xbat_ginkgo.Base.{
  ℕ, ◌+◌, ◌≤◌, ◌<◌, ◌≡◌, refl, Bool, true, false, List, [], ◌∷◌, length, Option, none, some, Bytes,
  arith, All, All-append,
}
use xbat_ginkgo.Base.Float.{Double}
use xbat_ginkgo.Base.Int.{ℤ}
use xbat_ginkgo.Base.Outcome.{done, Ensures, Ensures-done}
use xbat_ginkgo.Gpu.Nvidia.{
  Device, ClockType, clock_types, clock_points, int_points, double_points, managed, unless_mig,
  memory_points, usage_point, collect_devices, collect,
}
use xbat_ginkgo.Gpu.Reports.{IsPoint, IsReport, answered-All, push_all_lem}
use xbat_ginkgo.Queue.{Ilp, Entry}

module _ {A : Type 0} (P : A → Type 0) where
  managed-All : (mode : Option Bool) (xs : List A) → All P xs → All P (managed mode xs)
  managed-All none xs at = tt
  managed-All (some false) xs at = tt
  managed-All (some true) xs at = at

  unless_mig-All : (mig : Bool) (xs : List A) → All P xs → All P (unless_mig mig xs)
  unless_mig-All true xs at = tt
  unless_mig-All false xs at = at

module _ (n ts i : ℕ) (within : i < n) where
  clock_points-IsPoint :
      (clock : ClockType → Option ℕ) (types : List (Bytes × ClockType))
      → All (IsPoint n ts) (clock_points i ts clock types)
  unfolding clock_points
  clock_points-IsPoint clock [] = tt
  clock_points-IsPoint clock ((name, type) ∷ types) =
      All-append (IsPoint n ts) _ _
        (answered-All (IsPoint n ts) (clock type) _ (λ c. ((refl, i, within, refl), tt)))
        (clock_points-IsPoint clock types)

  int_points-IsPoint : (v : Device) → All (IsPoint n ts) (int_points i ts v)
  unfolding int_points memory_points
  int_points-IsPoint v =
      All-append (IsPoint n ts) _ _
        (answered-All (IsPoint n ts) v.fb _
          (λ m. ((refl, i, within, refl), ((refl, i, within, refl), tt))))
        (All-append (IsPoint n ts) _ _
          (answered-All (IsPoint n ts) v.bar1 _
            (λ m. ((refl, i, within, refl), ((refl, i, within, refl), tt))))
          (All-append (IsPoint n ts) _ _
            (answered-All (IsPoint n ts) v.pstate _ (λ p. ((refl, i, within, refl), tt)))
            (All-append (IsPoint n ts) _ _
              (managed-All (IsPoint n ts) v.power_enabled _
                (answered-All (IsPoint n ts) v.limit _ (λ l. ((refl, i, within, refl), tt))))
              (clock_points-IsPoint v.clock clock_types))))

double_points-IsPoint :
    (W : Type 0) ⦃d : Double W⦄ (n ts i : ℕ) (within : i < n) (v : Device)
    → All {A = Ilp W} (IsPoint n ts) (double_points i ts v)
unfolding double_points usage_point
double_points-IsPoint W n ts i within v =
    All-append (IsPoint n ts) _ _
      (answered-All (IsPoint n ts) v.fb _ (λ m. ((refl, i, within, refl), tt)))
      (All-append (IsPoint n ts) _ _
        (answered-All (IsPoint n ts) v.bar1 _ (λ m. ((refl, i, within, refl), tt)))
        (All-append (IsPoint n ts) _ _
          (unless_mig-All (IsPoint n ts) v.mig_enabled _ (
            answered-All (IsPoint n ts) v.util _
              (λ (gpu, memory). ((refl, i, within, refl), ((refl, i, within, refl), tt)))))
          (All-append (IsPoint n ts) _ _
            (managed-All (IsPoint n ts) v.power_enabled _
              (answered-All (IsPoint n ts) v.power _ (λ p. ((refl, i, within, refl), tt))))
            (All-append (IsPoint n ts) _ _
              (unless_mig-All (IsPoint n ts) v.mig_enabled _
                (answered-All (IsPoint n ts) v.encoder _ (λ u. ((refl, i, within, refl), tt))))
              (unless_mig-All (IsPoint n ts) v.mig_enabled _
                (answered-All (IsPoint n ts) v.decoder _ (λ u. ((refl, i, within, refl), tt))))))))

module _ {W : Type 0} ⦃d : Double W⦄ where
  collect_devices_lem :
      (n i ts : ℕ) (devices : List Device) (ints : List (Ilp ℤ)) (doubles : List (Ilp W))
      → i + length devices ≤ n
      → All (IsPoint n ts) ints
      → All (IsPoint n ts) doubles
      → Ensures (All (IsReport n ts)) (collect_devices i ts devices ints doubles)
  unfolding collect_devices
  collect_devices_lem n i ts [] ints doubles within at at' = push_all_lem n ts ints doubles at at'
  collect_devices_lem n i ts (v ∷ devices) ints doubles within at at' =
      let under : i < n = omega (arith, within) in
      collect_devices_lem n (i + 1) ts devices _ _ (omega (arith, within))
        (All-append (IsPoint n ts) ints _ at (int_points-IsPoint n ts i under v))
        (All-append (IsPoint n ts) doubles _ at' (double_points-IsPoint W n ts i under v))

  -- Whatever NVML answers: every data point that `CNvidiaGPU::collect` pushes is stamped with the
  -- end of the interval, and tagged with the level "device" and the number of one of the devices.
  pub collect-IsReport :
      (ts : ℕ) (devices : List Device) (es : List (Entry W))
      → collect ts devices ≡ done es
      → All (IsReport (length devices) ts) es
  unfolding collect
  collect-IsReport ts devices es h =
      Ensures-done (All (IsReport (length devices) ts)) (collect ts devices)
        (collect_devices_lem (length devices) 0 ts devices [] [] (omega arith) tt tt) h
