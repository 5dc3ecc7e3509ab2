-- ===== src/Topology/Totals.antt =====
-- The cache sizes that getCpuTopology adds up.
use xbat_ginkgo.Base.{
  ℕ, zero, suc, ◌+◌, ◌*◌, ◌/◌, ◌^◌, ◌<◌, ◌≡◌, refl, true, List, [], ◌∷◌, arith, ◌==◌,
}
use xbat_ginkgo.Base.Outcome.{
  done, Ensures, Ensures-done, Ensures-map, Ensures-if, >>=-eq-done, done_inj,
}
use xbat_ginkgo.Topology.{
  CacheLevel, Likwid, CpuTopology, CacheSizes, w32, level_size, store_level, add_level, sizes_of,
  cache_loop, describe, finish, get_cpu_topology,
}

-- The bytes of all caches of a socket, instruction caches included, not wrapped.
abbrev pub socket_bytes : ℕ → List CacheLevel → ℕ
socket_bytes hw_threads [] = 0
socket_bytes hw_threads (l ∷ ls) = l.size * (hw_threads / l.threads) + socket_bytes hw_threads ls

-- What the loop leaves as it is, and what it adds up.
abbrev IsSummed : List CacheLevel → CpuTopology → CpuTopology → Type 0
IsSummed ls topo topo' =
    (topo'.sockets ≡ topo.sockets)
    × (topo'.cache_per_socket
        ≡ w32 (
            topo.cache_per_socket
            + socket_bytes (w32 (topo.cores_per_socket * topo.threads_per_core)) ls))

store_level-same :
    (level : ℕ) (sizes : CacheSizes) (topo : CpuTopology)
    → ((store_level level sizes topo).sockets ≡ topo.sockets)
      × ((store_level level sizes topo).cache_per_socket ≡ topo.cache_per_socket)
      × ((store_level level sizes topo).cores_per_socket ≡ topo.cores_per_socket)
      × ((store_level level sizes topo).threads_per_core ≡ topo.threads_per_core)
unfolding store_level
store_level-same zero sizes topo = (refl, refl, refl, refl)
store_level-same (suc zero) sizes topo = (refl, refl, refl, refl)
store_level-same (suc (suc zero)) sizes topo = (refl, refl, refl, refl)
store_level-same (suc (suc (suc level))) sizes topo = (refl, refl, refl, refl)

wraps : (a b c : ℕ) → w32 (w32 (a + w32 b) + c) ≡ w32 (a + (b + c))
wraps a b c = omega arith

IsSummed-step :
    (l : CacheLevel) (ls : List CacheLevel) (topo next topo' : CpuTopology)
    → next.sockets ≡ topo.sockets
    → next.cache_per_socket ≡ (add_level l topo).cache_per_socket
    → next.cores_per_socket ≡ topo.cores_per_socket
    → next.threads_per_core ≡ topo.threads_per_core
    → IsSummed ls next topo'
    → IsSummed (l ∷ ls) topo topo'
unfolding add_level level_size
IsSummed-step l ls topo next topo' s p c t (s', p') =
    (rw (s', s) refl, rw (p', c, t, p) (wraps topo.cache_per_socket _ _))

add_level-small :
    (l : CacheLevel) (topo : CpuTopology) → (add_level l topo).cache_per_socket < 2 ^ 32
unfolding add_level
add_level-small l topo = omega arith

cache_loop-IsSummed :
    (level : ℕ) (ls : List CacheLevel) (topo : CpuTopology)
    → topo.cache_per_socket < 2 ^ 32
    → Ensures (IsSummed ls topo) (cache_loop level ls topo)
unfolding cache_loop
cache_loop-IsSummed level [] topo within = (refl, omega (arith, within))
cache_loop-IsSummed level (l ∷ ls) topo within =
    let added = add_level l topo in
    let P = IsSummed (l ∷ ls) topo in
    let small = add_level-small l topo in
    Ensures-if P (l.threads == 0) _ _ (λ _. tt)
      (λ _.
        Ensures-if P l.is_instruction _ _
          (λ _.
            Ensures-map (IsSummed ls added) P _
              (λ topo' h. IsSummed-step l ls topo added topo' refl refl refl refl h)
              (cache_loop-IsSummed level ls added small))
          (λ _.
            let stored = store_level level (sizes_of l topo) added in
            let (s, p, c, t) = store_level-same level (sizes_of l topo) added in
            Ensures-map (IsSummed ls stored) P _
              (λ topo' h. IsSummed-step l ls topo stored topo' s p c t h)
              (cache_loop-IsSummed (level + 1) ls stored (rw p small))))

-- If `getCpuTopology` succeeds on an object whose `cachePerSocket` holds some value less than
-- 2^32, then `cachePerSocket` ends as that value plus the sizes of all caches of a socket, and
-- `cacheTotal` as this sum for each socket, both modulo 2^32.
pub get_cpu_topology_lem :
    (likwid : Likwid) (topo topo' : CpuTopology)
    → topo.cache_per_socket < 2 ^ 32
    → get_cpu_topology true likwid topo ≡ done topo'
    → (topo'.cache_per_socket
        ≡ w32 (
            topo.cache_per_socket
            + socket_bytes
                (w32 (likwid.num_cores_per_socket * likwid.num_threads_per_core))
                likwid.cache_levels))
      × (topo'.cache_total ≡ w32 (topo'.cache_per_socket * likwid.num_sockets))
unfolding get_cpu_topology describe finish
get_cpu_topology_lem likwid topo topo' within h =
    let (t, looped, finished) =
      >>=-eq-done (cache_loop 0 likwid.cache_levels (describe likwid topo)) _ h in
    let (sockets, bytes) =
      Ensures-done (IsSummed likwid.cache_levels (describe likwid topo)) _
        (cache_loop-IsSummed 0 likwid.cache_levels (describe likwid topo) within) looped in
    rw (← done_inj finished) (bytes, rw sockets refl)
