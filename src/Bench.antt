-- ===== src/Bench.antt =====
-- benchmarkSystem of src/xbatd/src/main.cpp. What each command prints and `std::stod` are parameters.
pub mod Cleanup
pub mod Sizes
use xbat_ginkgo.Base.{
  ℕ, ◌+◌, ◌-◌, ◌*◌, ◌/◌, ◌%◌, ◌^◌, Bool, true, false, List, [], ◌∷◌, ◌++◌, map, Option, none, some,
  Bytes, codes, ltb, if◌then◌else◌,
}
use xbat_ginkgo.Base.Float.{Double}
use xbat_ginkgo.Base.Maps.{Map, insert, bytes_key}
use xbat_ginkgo.Base.Outcome.{Outcome, done, fails, faults, or_fault, ◌>>=◌}
use xbat_ginkgo.Files.{Files, Access, write_to_file, delete_file}
use xbat_ginkgo.Power.{get_command_output, if_succeeded}
use xbat_ginkgo.Text.{find, split_str, filter_lines_not_containing, extract_number}
use xbat_ginkgo.Text.Numbers.{to_string}
use xbat_ginkgo.Topology.{CpuTopology, w32}

-- BENCHMARK_STATUS_FILE_PATH
abbrev pub status_path : Bytes
status_path = codes "/run/xbatd/benchmarkInProgress"

-- main.hpp
abbrev pub flop_benchmarks : List Bytes
flop_benchmarks =
    codes "peakflops_sp"
    ∷ codes "peakflops_sp_sse"
    ∷ codes "peakflops_sp_avx"
    ∷ codes "peakflops_sp_avx_fma"
    ∷ codes "peakflops_sp_avx512"
    ∷ codes "peakflops_sp_avx512_fma"
    ∷ codes "peakflops"
    ∷ codes "peakflops_sse"
    ∷ codes "peakflops_avx"
    ∷ codes "peakflops_avx_fma"
    ∷ codes "peakflops_avx512"
    ∷ codes "peakflops_avx512_fma"
    ∷ []

-- The text of an int of these 32 bits, divided by `d`; the quotient is rounded towards zero.
unfoldable pub int_text : ℕ → ℕ → Bytes
int_text d bits =
    if ltb bits (2 ^ 31)
    then to_string (bits / d)
    else if ltb (2 ^ 32 - bits) d
    then to_string 0
    else codes "-" ++ to_string ((2 ^ 32 - bits) / d)

-- `threads` and `size` are the bits of ints.
unfoldable pub generate_benchmark_command : Bytes → ℕ → ℕ → Bytes
unfolding int_text
generate_benchmark_command benchmark threads size =
    codes "/usr/local/share/xbatd/bin/likwid-bench -t "
    ++ (benchmark
        ++ (codes " -W N:" ++ (int_text 1024 size ++ (codes "KB:" ++ int_text 1 threads))))

unfoldable pub benchmark_available : Bytes → Bytes → Bool
benchmark_available available benchmark = elim (find (benchmark ++ codes " -") available) [
  | none ↦ false
  | some p ↦ true
]

pub data Variant : Type 0 where
  l1 l2 l3 mem : Variant

-- The bits of `cacheSize`.
unfoldable pub cache_size : CpuTopology → Variant → ℕ
cache_size topology l1 = topology.l1_cache.total
cache_size topology l2 = topology.l2_cache.total
cache_size topology l3 = topology.l3_cache.total
cache_size topology mem = w32 (topology.cache_total * 4)

abbrev pub stream : List (Bytes × Variant)
stream = (codes "l1", l1) ∷ (codes "l2", l2) ∷ (codes "l3", l3) ∷ (codes "mem", mem) ∷ []

module _ {ℓ} {W : Type ℓ} ⦃d : Double W⦄ (stod : Bytes → Option W) (prints : Bytes → Bytes) where
  -- A text without a line that starts with `filter` is read past its end.
  unfoldable pub get_value : Bytes → Bytes → Outcome W
  get_value output filter = do
    split ←
        or_fault (split_str (filter_lines_not_containing (filter ∷ []) output true) (codes "\n"))
    elim split [ [] ↦ faults | line ∷ rest ↦ or_fault (stod (extract_number line true)) ]

  -- The value of one run, `none` if the command does not succeed.
  unfoldable pub run_benchmark : Bytes → Bytes → Outcome (Option W)
  unfolding get_command_output if_succeeded get_value
  run_benchmark command filter = do
    r ← get_command_output (prints command)
    elim (if_succeeded r) [
      | none ↦ done none
      | some output ↦ (do v ← get_value output filter; done (some v))
    ]

  unfoldable pub store_value : Bytes → ℕ → Option W → Map Bytes W → Map Bytes W
  store_value key scale none values = values
  store_value key scale (some v) values =
      insert key (d.mul (d.mul v (d.of_ℕ scale)) (d.of_ℕ scale)) values

  unfoldable pub flops_loop : Bytes → ℕ → ℕ → List Bytes → Map Bytes W → Outcome (Map Bytes W)
  unfolding run_benchmark store_value benchmark_available generate_benchmark_command
  flops_loop available threads size [] values = done values
  flops_loop available threads size (benchmark ∷ benchmarks) values =
      if benchmark_available available benchmark
      then (do
        v ← run_benchmark (generate_benchmark_command benchmark threads size) (codes "MFlops/s:")
        flops_loop available threads size benchmarks (store_value benchmark 1000 v values))
      else flops_loop available threads size benchmarks values

  unfoldable pub stream_loop :
      Bytes → ℕ → CpuTopology → List (Bytes × Variant) → Map Bytes W → Outcome (Map Bytes W)
  unfolding run_benchmark store_value benchmark_available generate_benchmark_command cache_size
  stream_loop available threads topology [] values = done values
  stream_loop available threads topology ((name, variant) ∷ variants) values =
      if benchmark_available available (codes "load")
      then (do
        v ←
            run_benchmark
              (generate_benchmark_command (codes "load") threads (cache_size topology variant))
              (codes "MByte/s:")
        stream_loop available threads topology variants
            (store_value (codes "bandwidth_" ++ name) 1024 v values))
      else stream_loop available threads topology variants values

  -- All benchmarks, where the list of those that are available was read.
  unfoldable pub run_all : CpuTopology → Bytes → Outcome (Map Bytes W)
  unfolding flops_loop stream_loop
  run_all topology available =
      let threads =
        w32 (w32 (topology.cores_per_socket * topology.threads_per_core) * topology.sockets) in
      do
        values ← flops_loop available threads topology.l1_cache.total flop_benchmarks []
        stream_loop available threads topology stream values

-- The files after the call of `deleteFile`, whose result is not looked at; its exceptions are not caught.
unfoldable pub clean : Access → Files → Outcome Files
unfolding delete_file
clean access files = elim (delete_file access status_path files) [
  | done files' ↦ done files'
  | fails ↦ done files
  | faults ↦ faults
]

module _ {ℓ} {W : Type ℓ} ⦃d : Double W⦄ (stod : Bytes → Option W) (prints : Bytes → Bytes)
    (access : Access) where
  -- Behind the write of the status file.
  unfoldable pub benchmark_marked : CpuTopology → Files → Outcome (Map Bytes W × Files)
  unfolding get_command_output if_succeeded run_all clean
  benchmark_marked topology files = do
    r ← get_command_output (prints (codes "/usr/local/share/xbatd/bin/likwid-bench -a"))
    elim (if_succeeded r) [
      | none ↦ (do files' ← clean access files; done ([], files'))
      | some available ↦ (do
        values ← run_all stod prints topology available
        files' ← clean access files
        done (values, files'))
    ]

  -- The values and the files afterwards; a fault is an exception that nothing catches, or undefined
  -- behaviour.
  unfoldable pub benchmark_system : CpuTopology → Files → Outcome (Map Bytes W × Files)
  unfolding write_to_file benchmark_marked
  benchmark_system topology files = elim (write_to_file access status_path [] false files) [
    | done files' ↦ benchmark_marked topology files'
    | fails ↦ done ([], files)
    | faults ↦ faults
  ]
