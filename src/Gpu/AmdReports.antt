-- ===== src/Gpu/AmdReports.antt =====
-- What `collect` of CAMDGPU pushes.
use xbat_ginkgo.Base.{
  ℕ, ◌+◌, ◌≤◌, ◌<◌, ◌≡◌, refl, List, [], ◌∷◌, length, Option, Bytes, arith, All, All-append,
}
use xbat_ginkgo.Base.Float.{Double}
use xbat_ginkgo.Base.Int.{ℤ}
use xbat_ginkgo.Base.Outcome.{done, Ensures, Ensures-done}
use xbat_ginkgo.Gpu.Amd.{
  Processor, ClockType, clock_types, clock_points, int_points, double_points, int_socket,
  double_socket, collect_sockets, collect,
}
use xbat_ginkgo.Gpu.Reports.{IsPoint, IsReport, answered-All, push_all_lem}
use xbat_ginkgo.Queue.{Ilp, Entry}

module _ (n ts i : ℕ) (within : i < n) where
  clock_points-IsPoint :
      (clock : ClockType → Option ℕ) (types : List (Bytes × ClockType))
      → All (IsPoint n ts) (clock_points i ts clock types)
  unfolding clock_points
  clock_points-IsPoint clock [] = tt
  clock_points-IsPoint clock ((name, type) ∷ types) =
      All-append (IsPoint n ts) _ _
        (answered-All (IsPoint n ts) (clock type) _ (λ c. ((refl, i, within, refl), tt)))
        (clock_points-IsPoint clock types)

  int_socket-IsPoint : (vs : List Processor) → All (IsPoint n ts) (int_socket i ts vs)
  unfolding int_socket int_points
  int_socket-IsPoint [] = tt
  int_socket-IsPoint (v ∷ vs) =
      All-append (IsPoint n ts) (int_points i ts v) _
        (All-append (IsPoint n ts) _ _
          (answered-All (IsPoint n ts) v.temperature _ (λ t. ((refl, i, within, refl), tt)))
          (All-append (IsPoint n ts) _ _ (clock_points-IsPoint v.clock clock_types) (
            answered-All (IsPoint n ts) v.vram _
              (λ m. ((refl, i, within, refl), ((refl, i, within, refl), tt))))))
        (int_socket-IsPoint vs)

double_socket-IsPoint :
    (W : Type 0) ⦃d : Double W⦄ (n ts i : ℕ) (within : i < n) (vs : List Processor)
    → All {A = Ilp W} (IsPoint n ts) (double_socket i ts vs)
unfolding double_socket double_points
double_socket-IsPoint W n ts i within [] = tt
double_socket-IsPoint W n ts i within (v ∷ vs) =
    All-append (IsPoint n ts) (double_points i ts v) _
      (All-append (IsPoint n ts) _ _
        (answered-All (IsPoint n ts) v.activity _ (λ u.
          ((refl, i, within, refl), ((refl, i, within, refl), ((refl, i, within, refl), tt)))))
        (All-append (IsPoint n ts) _ _
          (answered-All (IsPoint n ts) v.average_socket_power _
            (λ p. ((refl, i, within, refl), tt)))
          (answered-All (IsPoint n ts) v.vram _ (λ m. ((refl, i, within, refl), tt)))))
      (double_socket-IsPoint W n ts i within vs)

module _ {W : Type 0} ⦃d : Double W⦄ where
  collect_sockets_lem :
      (n i ts : ℕ) (sockets : List (List Processor)) (ints : List (Ilp ℤ)) (doubles : List (Ilp W))
      → i + length sockets ≤ n
      → All (IsPoint n ts) ints
      → All (IsPoint n ts) doubles
      → Ensures (All (IsReport n ts)) (collect_sockets i ts sockets ints doubles)
  unfolding collect_sockets
  collect_sockets_lem n i ts [] ints doubles within at at' = push_all_lem n ts ints doubles at at'
  collect_sockets_lem n i ts (vs ∷ sockets) ints doubles within at at' =
      let under : i < n = omega (arith, within) in
      collect_sockets_lem n (i + 1) ts sockets _ _ (omega (arith, within))
        (All-append (IsPoint n ts) ints _ at (int_socket-IsPoint n ts i under vs))
        (All-append (IsPoint n ts) doubles _ at' (double_socket-IsPoint W n ts i under vs))

  -- Whatever AMD SMI answers: every data point that `CAMDGPU::collect` pushes is stamped with the
  -- end of the interval, and tagged with the level "device" and, as device, the number of one of
  -- the sockets.
  pub collect_lem :
      (ts : ℕ) (sockets : List (List Processor)) (es : List (Entry W))
      → collect ts sockets ≡ done es
      → All (IsReport (length sockets) ts) es
  unfolding collect
  collect_lem ts sockets es h =
      Ensures-done (All (IsReport (length sockets) ts)) (collect ts sockets)
        (collect_sockets_lem (length sockets) 0 ts sockets [] [] (omega arith) tt tt) h
