-- ===== src/Topology/Mapping.antt =====
-- The maps of getCpuTopology.
use mathlib.Core.Option
use xbat_ginkgo.Base.{
  ℕ, ◌+◌, ◌≡◌, refl, Bool, true, false, List, [], ◌∷◌, Option, none, some, arith, if◌then◌else◌,
  ◌==◌,
}
use xbat_ginkgo.Base.Maps.{Map, lookup, lookup-insert, insert, nat_key}
use xbat_ginkgo.Cpu.{HwThread}
use xbat_ginkgo.Topology.{PoolThread, map_processors, map_nodes, hw_thread_of, map_threads}

abbrev has : ℕ → List ℕ → Bool
has p [] = false
has p (q ∷ qs) = if q == p then true else has p qs

-- The last node, from number `i` on, that has the processor.
abbrev pub last_node : ℕ → ℕ → List (List ℕ) → Option ℕ → Option ℕ
last_node p i [] found = found
last_node p i (processors ∷ nodes) found =
    last_node p (i + 1) nodes (if has p processors then some i else found)

-- The last thread of the pool that has the apic id.
abbrev pub last_thread : ℕ → List PoolThread → Option PoolThread → Option PoolThread
last_thread p [] found = found
last_thread p (t ∷ pool) found = last_thread p pool (if t.apic_id == p then some t else found)

lookup-map_processors :
    (p i : ℕ) (processors : List ℕ) (m : Map ℕ ℕ)
    → lookup p (map_processors i processors m) ≡ (if has p processors then some i else lookup p m)
unfolding map_processors
lookup-map_processors p i [] m = refl
lookup-map_processors p i (q ∷ processors) m =
    ground (arith, lookup-map_processors p i processors (insert q i m), lookup-insert q p i m)

-- The map that `getCpuTopology` builds has for each processor the last node that names it.
pub lookup-map_nodes :
    (p i : ℕ) (nodes : List (List ℕ)) (m : Map ℕ ℕ)
    → lookup p (map_nodes i nodes m) ≡ last_node p i nodes (lookup p m)
unfolding map_nodes
lookup-map_nodes p i [] m = refl
lookup-map_nodes p i (processors ∷ nodes) m =
    rw
      (
        lookup-map_nodes p (i + 1) nodes (map_processors i processors m),
        lookup-map_processors p i processors m,
      )
      refl

lookup-map_threads :
    (p : ℕ) (numa : Map ℕ ℕ) (pool : List PoolThread) (m : Map ℕ HwThread)
    (found : Option PoolThread)
    → lookup p m ≡ Option.map (hw_thread_of numa) found
    → lookup p (map_threads numa pool m) ≡ Option.map (hw_thread_of numa) (last_thread p pool found)
unfolding map_threads
lookup-map_threads p numa [] m found h = h
lookup-map_threads p numa (t ∷ pool) m found h =
    lookup-map_threads p numa pool (insert t.apic_id (hw_thread_of numa t) m)
      (if t.apic_id == p then some t else found)
      (ground (arith, h, lookup-insert t.apic_id p (hw_thread_of numa t) m))

-- In the map of the hardware threads that `getCpuTopology` builds each apic id has the last thread of
-- the pool with this id, made with the map of the NUMA nodes, and an apic id that no thread has is
-- missing; in the map of the NUMA nodes each processor has the last node that names it.
pub lookup-hw_threads :
    (p : ℕ) (nodes : List (List ℕ)) (pool : List PoolThread)
    → (lookup p (map_threads (map_nodes 0 nodes []) pool [])
        ≡ Option.map (hw_thread_of (map_nodes 0 nodes [])) (last_thread p pool none))
      × (lookup p (map_nodes 0 nodes []) ≡ last_node p 0 nodes none)
unfolding lookup
lookup-hw_threads p nodes pool =
    (lookup-map_threads p (map_nodes 0 nodes []) pool [] none refl, lookup-map_nodes p 0 nodes [])
