-- ===== src/Topology.antt =====
-- getCpuTopology of src/xbatd/src/topology.cpp. What likwid answers is an argument; members of type
-- uint32_t wrap at 2^32.
pub mod Totals
pub mod Mapping
use xbat_ginkgo.Base.{
  ℕ, zero, suc, ◌+◌, ◌*◌, ◌/◌, ◌%◌, ◌^◌, Bool, true, false, not, List, [], ◌∷◌, Bytes,
  if◌then◌else◌, ◌==◌,
}
use xbat_ginkgo.Base.Maps.{Map, lookup_or, insert, nat_key}
use xbat_ginkgo.Base.Outcome.{Outcome, done, fails, faults, ◌>>=◌}
use xbat_ginkgo.Cpu.{HwThread}
use xbat_ginkgo.Text.Numbers.{to_string}

abbrev pub w32 : ℕ → ℕ
w32 n = n % 2 ^ 32

-- likwid's `CacheLevel`, `HWThread` and the parts of `CpuInfo`, `CpuTopology` and `NumaTopology`
-- that are read; `nodes` has the processors of each node.
pub record CacheLevel : Type 0 where
  pub size : ℕ
  pub threads : ℕ
  pub is_instruction : Bool

pub record PoolThread : Type 0 where
  pub thread_id : ℕ
  pub core_id : ℕ
  pub package_id : ℕ
  pub apic_id : ℕ

pub record Likwid : Type 0 where
  pub name : Bytes
  pub short_name : Bytes
  pub osname : Bytes
  pub num_threads_per_core : ℕ
  pub num_cores_per_socket : ℕ
  pub num_sockets : ℕ
  pub cache_levels : List CacheLevel
  pub thread_pool : List PoolThread
  pub nodes : List (List ℕ)

-- One level of the data caches: per instance, per socket, and across all sockets.
pub record CacheSizes : Type 0 where
  pub per_instance : ℕ
  pub per_socket : ℕ
  pub total : ℕ

pub record CpuTopology : Type 0 where
  pub name : Bytes
  pub short_name : Bytes
  pub osname : Bytes
  pub smt : Bool
  pub threads_per_core : ℕ
  pub cores_per_socket : ℕ
  pub sockets : ℕ
  pub l1_cache : CacheSizes
  pub l2_cache : CacheSizes
  pub l3_cache : CacheSizes
  pub cache_per_socket : ℕ
  pub cache_total : ℕ
  pub hw_threads : Map ℕ HwThread

-- The loop over the processors of node `i`.
unfoldable pub map_processors : ℕ → List ℕ → Map ℕ ℕ → Map ℕ ℕ
map_processors i [] numa_mapping = numa_mapping
map_processors i (p ∷ processors) numa_mapping =
    map_processors i processors (insert p i numa_mapping)

-- The loop over the nodes from number `i` on.
unfoldable pub map_nodes : ℕ → List (List ℕ) → Map ℕ ℕ → Map ℕ ℕ
unfolding map_processors
map_nodes i [] numa_mapping = numa_mapping
map_nodes i (processors ∷ nodes) numa_mapping =
    map_nodes (i + 1) nodes (map_processors i processors numa_mapping)

-- `size * instances`, with the number of instances of a level in one socket.
unfoldable pub level_size : CpuTopology → CacheLevel → ℕ
level_size topo cache_level =
    w32 (
      cache_level.size
      * (w32 (topo.cores_per_socket * topo.threads_per_core) / cache_level.threads))

-- The `switch` over the number of the data caches met so far.
unfoldable pub store_level : ℕ → CacheSizes → CpuTopology → CpuTopology
store_level zero sizes topo = record topo { l1_cache = sizes }
store_level (suc zero) sizes topo = record topo { l2_cache = sizes }
store_level (suc (suc zero)) sizes topo = record topo { l3_cache = sizes }
store_level (suc (suc (suc level))) sizes topo = topo

unfoldable pub add_level : CacheLevel → CpuTopology → CpuTopology
unfolding level_size
add_level cache_level topo = record topo {
  cache_per_socket = w32 (topo.cache_per_socket + level_size topo cache_level);
}

unfoldable pub sizes_of : CacheLevel → CpuTopology → CacheSizes
unfolding level_size
sizes_of cache_level topo = record {
  per_instance = cache_level.size;
  per_socket = level_size topo cache_level;
  total = w32 (level_size topo cache_level * topo.sockets);
}

-- The loop over the levels; a level of no threads is a division by zero.
unfoldable pub cache_loop : ℕ → List CacheLevel → CpuTopology → Outcome CpuTopology
unfolding add_level store_level sizes_of
cache_loop level [] topo = done topo
cache_loop level (cache_level ∷ cache_levels) topo =
    if cache_level.threads == 0
    then faults
    else if cache_level.is_instruction
    then cache_loop level cache_levels (add_level cache_level topo)
    else cache_loop (level + 1) cache_levels
        (store_level level (sizes_of cache_level topo) (add_level cache_level topo))

-- An apic id without a node gets node 0.
unfoldable pub hw_thread_of : Map ℕ ℕ → PoolThread → HwThread
hw_thread_of numa_mapping t = record {
  hw_thread = t.apic_id;
  thread = to_string t.thread_id;
  core = to_string t.core_id;
  socket = to_string t.package_id;
  numa = to_string (lookup_or 0 t.apic_id numa_mapping);
}

unfoldable pub map_threads : Map ℕ ℕ → List PoolThread → Map ℕ HwThread → Map ℕ HwThread
unfolding hw_thread_of
map_threads numa_mapping [] mapping = mapping
map_threads numa_mapping (t ∷ pool) mapping =
    map_threads numa_mapping pool (insert t.apic_id (hw_thread_of numa_mapping t) mapping)

-- The first statements on `topo`; the cache sizes that it had before stay.
unfoldable pub describe : Likwid → CpuTopology → CpuTopology
describe likwid topo = record topo {
  name = likwid.name;
  short_name = likwid.short_name;
  osname = likwid.osname;
  smt = not (likwid.num_threads_per_core == 1);
  threads_per_core = likwid.num_threads_per_core;
  cores_per_socket = likwid.num_cores_per_socket;
  sockets = likwid.num_sockets;
}

unfoldable pub finish : Likwid → CpuTopology → CpuTopology
unfolding map_nodes map_threads
finish likwid topo = record topo {
  cache_total = w32 (topo.cache_per_socket * topo.sockets);
  hw_threads = map_threads (map_nodes 0 likwid.nodes []) likwid.thread_pool [];
}

-- The arguments are whether both parts of likwid start, what it answers, and the object to fill.
unfoldable pub get_cpu_topology : Bool → Likwid → CpuTopology → Outcome CpuTopology
unfolding describe cache_loop finish
get_cpu_topology false likwid topo = fails
get_cpu_topology true likwid topo = do
  topo' ← cache_loop 0 likwid.cache_levels (describe likwid topo)
  done (finish likwid topo')
