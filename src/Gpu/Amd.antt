-- ===== src/Gpu/Amd.antt =====
-- src/xbatd/src/CAMDGPU.{hpp,cpp}. What AMD SMI answers is a parameter.
use xbat_ginkgo.Base.{
  ℕ, zero, suc, ◌+◌, Bool, true, false, List, [], ◌∷◌, ◌++◌, length, Option, none, some, Bytes,
  codes,
}
use xbat_ginkgo.Base.Float.{Double}
use xbat_ginkgo.Base.Int.{ℤ, pos}
use xbat_ginkgo.Base.Outcome.{Outcome, done, fails, faults}
use xbat_ginkgo.Collector.{Collector}
use xbat_ginkgo.Gpu.{as_int64, device_tags, point, answered, push_all, gpu_turn}
use xbat_ginkgo.Measure.{Round, Ending, returned, threw, measure}
use xbat_ginkgo.Queue.{Ilp, Entry}

pub data ClockType : Type 0 where
  gfx mem : ClockType

abbrev pub clock_types : List (Bytes × ClockType)
clock_types = (codes "gpu_clk_graphics", gfx) ∷ (codes "gpu_clk_mem", mem) ∷ []

-- What `amdsmi_get_processor_type` answers; `unknown` is an error.
pub data ProcessorType : Type 0 where
  gpu other unknown : ProcessorType

-- `amdsmi_engine_usage_t`
pub record Usage : Type 0 where
  pub gfx_activity : ℕ
  pub umc_activity : ℕ
  pub mm_activity : ℕ

pub record Vram : Type 0 where
  pub vram_total : ℕ
  pub vram_used : ℕ

-- The answers for one processor in one round; `none` is a call that is no success.
pub record Processor : Type 0 where
  pub temperature : Option ℤ
  pub activity : Option Usage
  pub average_socket_power : Option ℕ
  pub clock : ClockType → Option ℕ
  pub vram : Option Vram

module _ {ℓ} {H : Type ℓ} where
  -- The loop that erases what is known to be no GPU.
  unfoldable pub keep_gpus : (H → ProcessorType) → List H → List H
  keep_gpus type_of [] = []
  keep_gpus type_of (h ∷ handles) = elim (type_of h) [
    | gpu ↦ h ∷ keep_gpus type_of handles
    | other ↦ keep_gpus type_of handles
    | unknown ↦ h ∷ keep_gpus type_of handles
  ]

  -- The processors of each socket. An error in reading them is only logged, so that what the vector
  -- then holds is kept.
  unfoldable pub processor_list : (H → ProcessorType) → List (List H) → List (List H)
  unfolding keep_gpus
  processor_list type_of [] = []
  processor_list type_of (handles ∷ sockets) =
      keep_gpus type_of handles ∷ processor_list type_of sockets

  unfoldable pub total_gpus : List (List H) → ℕ
  total_gpus [] = 0
  total_gpus (handles ∷ sockets) = length handles + total_gpus sockets

  unfoldable pub gpus_found : ℕ → List (List H) → Outcome (List (List H))
  gpus_found zero processors = fails
  gpus_found (suc n) processors = done processors

  -- Whether AMD SMI starts, whether it counts the sockets, and the handles that it gives for the
  -- processors of each socket, `none` if it gives no sockets.
  unfoldable pub prepare :
      Bool → Bool → (H → ProcessorType) → Option (List (List H)) → Outcome (List (List H))
  unfolding processor_list total_gpus gpus_found
  prepare false counted type_of sockets = fails
  prepare true false type_of sockets = fails
  prepare true true type_of none = fails
  prepare true true type_of (some sockets) =
      let processors = processor_list type_of sockets in
      gpus_found (total_gpus processors) processors

unfoldable pub clock_points :
    ℕ → ℕ → (ClockType → Option ℕ) → List (Bytes × ClockType) → List (Ilp ℤ)
clock_points i ts clock [] = []
clock_points i ts clock ((name, type) ∷ types) =
    answered (clock type) (λ c. point name (device_tags i) (pos c) ts ∷ [])
    ++ clock_points i ts clock types

-- What one processor of socket `i` adds to `int_data`.
unfoldable pub int_points : ℕ → ℕ → Processor → List (Ilp ℤ)
unfolding clock_points
int_points i ts v =
    answered v.temperature (λ t. point (codes "gpu_temp") (device_tags i) t ts ∷ [])
    ++ (clock_points i ts v.clock clock_types
        ++ answered v.vram (λ m.
          point (codes "gpu_mem_fb_free") (device_tags i) (as_int64 m.vram_total) ts
          ∷ point (codes "gpu_mem_fb_used") (device_tags i) (as_int64 m.vram_used) ts
          ∷ []))

-- The loop over the processors of socket `i`.
unfoldable pub int_socket : ℕ → ℕ → List Processor → List (Ilp ℤ)
unfolding int_points
int_socket i ts [] = []
int_socket i ts (v ∷ processors) = int_points i ts v ++ int_socket i ts processors

module _ {ℓ} {W : Type ℓ} ⦃d : Double W⦄ where
  abbrev pub number_point : Bytes → ℕ → ℕ → ℕ → Ilp W
  number_point label i ts n = point label (device_tags i) (d.of_ℕ n) ts

  -- What one processor of socket `i` adds to `double_data`.
  unfoldable pub double_points : ℕ → ℕ → Processor → List (Ilp W)
  double_points i ts v =
      answered v.activity (λ u.
        number_point (codes "gpu_util") i ts u.gfx_activity
        ∷ number_point (codes "gpu_mem_util") i ts u.umc_activity
        ∷ number_point (codes "gpu_mm_util") i ts u.mm_activity
        ∷ [])
      ++ (answered v.average_socket_power (λ p. number_point (codes "gpu_power") i ts p ∷ [])
          ++ answered v.vram (λ m.
            point (codes "gpu_mem_fb_usage") (device_tags i)
              (d.mul (d.div (d.of_ℕ m.vram_used) (d.of_ℕ m.vram_total)) (d.of_ℕ 100)) ts
            ∷ []))

  -- The loop over the processors of socket `i`.
  unfoldable pub double_socket : ℕ → ℕ → List Processor → List (Ilp W)
  unfolding double_points
  double_socket i ts [] = []
  double_socket i ts (v ∷ processors) = double_points i ts v ++ double_socket i ts processors

  -- The loop over the sockets from index `i` on.
  unfoldable pub collect_sockets :
      ℕ → ℕ → List (List Processor) → List (Ilp ℤ) → List (Ilp W) → Outcome (List (Entry W))
  unfolding int_socket double_socket push_all
  collect_sockets i ts [] int_data double_data = push_all int_data double_data
  collect_sockets i ts (processors ∷ sockets) int_data double_data =
      collect_sockets (i + 1) ts sockets (int_data ++ int_socket i ts processors)
        (double_data ++ double_socket i ts processors)

  unfoldable pub collect : ℕ → List (List Processor) → Outcome (List (Entry W))
  unfolding collect_sockets
  collect ts sockets = collect_sockets 0 ts sockets [] []

  unfoldable pub measure_amd {κ} :
      {H : Type κ}
      → Outcome (List (List H))
      → Collector
      → List (Round (List (List Processor)))
      → Option (List (Entry W) × Ending)
  measure_amd (done processors) c rs = measure (gpu_turn collect) c rs
  measure_amd fails c rs = some ([], returned (pos 1))
  measure_amd faults c rs = some ([], threw)
