-- ===== src/Gpu/Nvidia.antt =====
-- src/xbatd/src/CNvidiaGPU.{hpp,cpp}. What NVML answers is a parameter.
use xbat_ginkgo.Base.{
  ℕ, zero, suc, ◌+◌, ◌/◌, Bool, true, false, List, [], ◌∷◌, ◌++◌, Option, none, some, Bytes, codes,
  if◌then◌else◌,
}
use xbat_ginkgo.Base.Float.{Double}
use xbat_ginkgo.Base.Int.{ℤ, pos}
use xbat_ginkgo.Base.Outcome.{Outcome, done, fails, faults, ◌>>=◌}
use xbat_ginkgo.Collector.{Collector}
use xbat_ginkgo.Gpu.{as_int64, device_tags, point, answered, push_all, gpu_turn}
use xbat_ginkgo.Measure.{Round, Ending, returned, threw, measure}
use xbat_ginkgo.Queue.{Ilp, Entry}

-- `nvmlMemory_t` and `nvmlBAR1Memory_t`.
pub record Memory : Type 0 where
  pub free : ℕ
  pub used : ℕ
  pub total : ℕ

pub data ClockType : Type 0 where
  graphics mem sm video : ClockType

-- In the order of the names, as the map holds them.
abbrev pub clock_types : List (Bytes × ClockType)
clock_types =
    (codes "gpu_clk_graphics", graphics)
    ∷ (codes "gpu_clk_mem", mem)
    ∷ (codes "gpu_clk_sm", sm)
    ∷ (codes "gpu_clk_video", video)
    ∷ []

-- The answers for one device in one round; `none` is a call that is no success.
pub record Device : Type 0 where
  pub mig_enabled : Bool
  pub fb : Option Memory
  pub bar1 : Option Memory
  -- of the GPU and of its memory
  pub util : Option (ℕ × ℕ)
  pub pstate : Option ℤ
  pub power_enabled : Option Bool
  pub power : Option ℕ
  pub limit : Option ℕ
  pub clock : ClockType → Option ℕ
  pub encoder : Option ℕ
  pub decoder : Option ℕ

-- `nvmlDeviceGetHandleByIndex_v2` for the `count` indices from `i` on.
unfoldable pub get_handles {ℓ} : {H : Type ℓ} → (ℕ → Option H) → ℕ → ℕ → Outcome (List H)
get_handles handle_by_index i zero = done []
get_handles handle_by_index i (suc count) = elim (handle_by_index i) [
  | none ↦ fails
  | some h ↦ (do hs ← get_handles handle_by_index (i + 1) count; done (h ∷ hs))
]

-- Whether NVML starts, the number of devices, and their handles.
unfoldable pub prepare {ℓ} : {H : Type ℓ} → Bool → Option ℕ → (ℕ → Option H) → Outcome (List H)
unfolding get_handles
prepare false device_count handle_by_index = fails
prepare true none handle_by_index = fails
prepare true (some zero) handle_by_index = fails
prepare true (some (suc n)) handle_by_index = get_handles handle_by_index 0 (suc n)

-- The power readings count only with power management.
abbrev pub managed {ℓ} : {B : Type ℓ} → Option Bool → List B → List B
managed (some true) add = add
managed _ add = []

abbrev pub unless_mig {ℓ} : {B : Type ℓ} → Bool → List B → List B
unless_mig mig add = if mig then [] else add

unfoldable pub clock_points :
    ℕ → ℕ → (ClockType → Option ℕ) → List (Bytes × ClockType) → List (Ilp ℤ)
clock_points i ts clock [] = []
clock_points i ts clock ((name, type) ∷ types) =
    answered (clock type) (λ c. point name (device_tags i) (pos c) ts ∷ [])
    ++ clock_points i ts clock types

unfoldable pub memory_points : Bytes → Bytes → ℕ → ℕ → Memory → List (Ilp ℤ)
memory_points free_label used_label i ts m =
    point free_label (device_tags i) (as_int64 m.free) ts
    ∷ point used_label (device_tags i) (as_int64 m.used) ts
    ∷ []

-- What one device adds to `int_data`.
unfoldable pub int_points : ℕ → ℕ → Device → List (Ilp ℤ)
unfolding clock_points memory_points
int_points i ts v =
    answered v.fb (memory_points (codes "gpu_mem_fb_free") (codes "gpu_mem_fb_used") i ts)
    ++ (answered v.bar1 (memory_points (codes "gpu_mem_bar1_free") (codes "gpu_mem_bar1_used") i ts)
        ++ (answered v.pstate (λ p. point (codes "gpu_pstate") (device_tags i) p ts ∷ [])
            ++ (managed v.power_enabled (
                  answered v.limit
                    (λ l. point (codes "gpu_power_limit") (device_tags i) (pos (l / 1000)) ts ∷ []))
                ++ clock_points i ts v.clock clock_types)))

module _ {ℓ} {W : Type ℓ} ⦃d : Double W⦄ where
  unfoldable pub usage_point : Bytes → ℕ → ℕ → Memory → List (Ilp W)
  usage_point label i ts m =
      point label (device_tags i) (d.mul (d.div (d.of_ℕ m.used) (d.of_ℕ m.total)) (d.of_ℕ 100)) ts
      ∷ []

  abbrev pub number_point : Bytes → ℕ → ℕ → ℕ → List (Ilp W)
  number_point label i ts n = point label (device_tags i) (d.of_ℕ n) ts ∷ []

  -- What one device adds to `double_data`.
  unfoldable pub double_points : ℕ → ℕ → Device → List (Ilp W)
  unfolding usage_point
  double_points i ts v =
      answered v.fb (usage_point (codes "gpu_mem_fb_usage") i ts)
      ++ (answered v.bar1 (usage_point (codes "gpu_mem_bar1_usage") i ts)
          ++ (unless_mig v.mig_enabled (
                answered v.util (λ (gpu, memory).
                  number_point (codes "gpu_util") i ts gpu
                  ++ number_point (codes "gpu_mem_util") i ts memory))
              ++ (managed v.power_enabled (
                    answered v.power (λ p.
                      point (codes "gpu_power") (device_tags i) (d.div (d.of_ℕ p) (d.of_ℕ 1000)) ts
                      ∷ []))
                  ++ (unless_mig v.mig_enabled
                        (answered v.encoder (number_point (codes "gpu_enc_util") i ts))
                      ++ unless_mig v.mig_enabled
                          (answered v.decoder (number_point (codes "gpu_dec_util") i ts))))))

  -- The loop over the devices from index `i` on.
  unfoldable pub collect_devices :
      ℕ → ℕ → List Device → List (Ilp ℤ) → List (Ilp W) → Outcome (List (Entry W))
  unfolding int_points double_points push_all
  collect_devices i ts [] int_data double_data = push_all int_data double_data
  collect_devices i ts (v ∷ devices) int_data double_data =
      collect_devices (i + 1) ts devices (int_data ++ int_points i ts v)
        (double_data ++ double_points i ts v)

  unfoldable pub collect : ℕ → List Device → Outcome (List (Entry W))
  unfolding collect_devices
  collect ts devices = collect_devices 0 ts devices [] []

  -- `nvmlShutdown` is called where the loop ends by itself.
  unfoldable pub measure_nvidia {κ} :
      {H : Type κ}
      → Outcome (List H)
      → Collector
      → List (Round (List Device))
      → Option (List (Entry W) × Ending)
  measure_nvidia (done devices) c rs = measure (gpu_turn collect) c rs
  measure_nvidia fails c rs = some ([], returned (pos 1))
  measure_nvidia faults c rs = some ([], threw)
