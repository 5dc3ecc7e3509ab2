-- ===== src/Likwid/Results.antt =====
-- The part of CLikwidPerfctr::measureSets that turns likwid's values into data points.
use xbat_ginkgo.Base.{
  ℕ, zero, suc, ◌+◌, ◌%◌, Bool, true, false, not, ◌&&◌, ◌||◌, List, [], ◌∷◌, ◌++◌, Option, none,
  some, Bytes, codes, if◌then◌else◌, ◌==◌, drop,
}
use xbat_ginkgo.Base.Float.{Double}
use xbat_ginkgo.Base.Maps.{Map, lookup, lookup_or, bytes_key, bytes_eq, nat_key}
use xbat_ginkgo.Base.Outcome.{Outcome, done, faults, or_fault, ◌>>=◌}
use xbat_ginkgo.Cpu.{HwThread, no_thread}
use xbat_ginkgo.Likwid.{Metrics, MetricMeta}
use xbat_ginkgo.Queue.{Ilp, Tags}
use xbat_ginkgo.Text.{is_digit, is_prefix, is_empty, find, split_str, trim_whitespaces}
use xbat_ginkgo.Text.Numbers.{to_string}
use xbat_ginkgo.Topology.{CpuTopology}

unfoldable pub all_digits : Bytes → Bool
all_digits [] = true
all_digits (c ∷ s) = is_digit c && all_digits s

abbrev some_digits : Bytes → Bool
some_digits [] = false
some_digits (c ∷ s) = all_digits (c ∷ s)

-- `std::regex_match` with MEM\d+
unfoldable pub is_channel_set : Bytes → Bool
unfolding all_digits
is_channel_set set = is_prefix (codes "MEM") set && some_digits (drop 3 set)

-- The gids of the sets that hold memory channels. A pair is an entry of `gids` with that of `setList`.
unfoldable pub channel_gids : List (ℕ × Bytes) → List ℕ
unfolding is_channel_set
channel_gids [] = []
channel_gids ((gid, set) ∷ sets) =
    if is_channel_set set then gid ∷ channel_gids sets else channel_gids sets

-- The name up to the mark, if it holds the mark.
unfoldable pub cut_at : Bytes → Bytes → Outcome Bytes
cut_at mark name = elim (find mark name) [
  | none ↦ done name
  | some p ↦ (do
    split ← or_fault (split_str name mark)
    elim split [ [] ↦ faults | part ∷ parts ↦ done part ])
]

-- Without the unit and without what stands in parentheses.
unfoldable pub metric_name : Bytes → Outcome Bytes
unfolding cut_at
metric_name raw = do
  no_unit ← cut_at (codes "[") raw
  no_info ← cut_at (codes "(") no_unit
  done (trim_whitespaces no_info false)

abbrev pub thread_at : CpuTopology → ℕ → HwThread
thread_at topology l = lookup_or no_thread l topology.hw_threads

unfoldable pub likwid_tags : Bytes → HwThread → Tags
likwid_tags level t =
    (codes "core", t.core)
    ∷ (codes "level", level)
    ∷ (codes "numa", t.numa)
    ∷ (codes "socket", t.socket)
    ∷ (codes "thread", to_string t.hw_thread)
    ∷ []

-- Only the first thread of the first core of a socket has the values of the socket.
unfoldable pub is_left_out : CpuTopology → Bytes → ℕ → Bool
is_left_out topology level l =
    bytes_eq level (codes "socket")
    && (not (l % topology.cores_per_socket == 0)
        || not (bytes_eq (thread_at topology l).thread (codes "0")))

abbrev pub meta_of : Option (Map Bytes MetricMeta) → Bytes → Option MetricMeta
meta_of none name = none
meta_of (some mapping) name = lookup name mapping

module _ {ℓ} {W : Type ℓ} ⦃d : Double W⦄ where
  -- The sum over the channels' sets, which passes over what is not a number.
  unfoldable pub channel_sum : (ℕ → W) → List ℕ → W → W
  channel_sum value [] sum = sum
  channel_sum value (gid ∷ gids) sum =
      channel_sum value gids (if d.is_nan (value gid) then sum else d.add sum (value gid))

  unfoldable pub or_zero : W → W
  or_zero value = if d.is_nan value then d.of_ℕ 0 else value

  -- The loop over the `n` CPUs from index `l` on.
  unfoldable pub cpu_loop :
      CpuTopology → (ℕ → W) → MetricMeta → Bytes → ℕ → ℕ → ℕ → Outcome (List (Ilp W))
  unfolding likwid_tags is_left_out or_zero
  cpu_loop topology value meta level ts zero l = done []
  cpu_loop topology value meta level ts (suc n) l =
      let rest = cpu_loop topology value meta level ts n (l + 1) in
      if bytes_eq level (codes "socket") && topology.cores_per_socket == 0
      then faults
      else if is_left_out topology level l
      then rest
      else if bytes_eq level (codes "node") && not (l == 0)
      then done []
      else (do
        points ← rest
        done (
            record {
              measurement = meta.label;
              tags = likwid_tags level (thread_at topology l);
              value = d.mul (or_zero (value l)) (d.of_ℤ meta.scale);
              ts = ts;
            }
            ∷ points))

  -- Whether the metric is in the file, and what is done with it then.
  unfoldable pub metric_points :
      CpuTopology → Option MetricMeta → (ℕ → W) → ℕ → ℕ → Outcome (List (Ilp W))
  unfolding cpu_loop
  metric_points topology none value ts cpus = done []
  metric_points topology (some meta) value ts cpus =
      let collection_level = if topology.smt then codes "thread" else codes "core" in
      let level = if is_empty meta.level then collection_level else meta.level in
      cpu_loop topology value meta level ts cpus 0

  -- The loop over the metrics of a set, from number `k` on; `value k l` is the value on CPU `l`.
  unfoldable pub metrics_loop :
      CpuTopology
      → Option (Map Bytes MetricMeta)
      → (ℕ → ℕ → W)
      → ℕ
      → ℕ
      → List Bytes
      → ℕ
      → Outcome (List (Ilp W))
  unfolding metric_name metric_points
  metrics_loop topology mapping value ts cpus [] k = done []
  metrics_loop topology mapping value ts cpus (raw ∷ names) k = do
    name ← metric_name raw
    points ← metric_points topology (meta_of mapping name) (value k) ts cpus
    more ← metrics_loop topology mapping value ts cpus names (k + 1)
    done (points ++ more)

  -- One set. The first of the channels' sets stands for all of them.
  unfoldable pub set_points :
      CpuTopology
      → Metrics
      → (ℕ → List Bytes)
      → (ℕ → ℕ → ℕ → W)
      → ℕ
      → ℕ
      → List ℕ
      → ℕ
      → Bytes
      → Outcome (List (Ilp W))
  unfolding metrics_loop channel_sum is_channel_set
  set_points topology metrics names value ts cpus channels gid set =
      if is_channel_set set
      then (if bytes_eq set (codes "MEM1")
          then metrics_loop topology (lookup (codes "MEM") metrics)
              (λ k l. channel_sum (λ m. value m k l) channels (d.of_ℕ 0)) ts cpus (names gid) 0
          else done [])
      else metrics_loop topology (lookup set metrics) (value gid) ts cpus (names gid) 0

  -- The loop over the sets.
  unfoldable pub sets_loop :
      CpuTopology
      → Metrics
      → (ℕ → List Bytes)
      → (ℕ → ℕ → ℕ → W)
      → ℕ
      → ℕ
      → List ℕ
      → List (ℕ × Bytes)
      → Outcome (List (Ilp W))
  unfolding set_points
  sets_loop topology metrics names value ts cpus channels [] = done []
  sets_loop topology metrics names value ts cpus channels ((gid, set) ∷ sets) = do
    points ← set_points topology metrics names value ts cpus channels gid set
    more ← sets_loop topology metrics names value ts cpus channels sets
    done (points ++ more)
