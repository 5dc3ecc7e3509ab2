-- ===== src/Tests/RestTests.antt =====
-- The REST client, encodings and the topology: the theorems applied.
use mathlib.Core.Option
use xbat_ginkgo.Base.{
  ℕ, zero, suc, ◌-◌, ◌++◌, length, ◌%◌, ◌*◌, ◌+◌, ◌≡◌, refl, Bool, true, false, List, [], ◌∷◌, none,
  some, Bytes, arith, codes, map,
}
use xbat_ginkgo.Base.Maps.{lookup, nat_key}
use xbat_ginkgo.Base.Outcome.{done}
use xbat_ginkgo.Rest.{Json, CurlClient, Server, construct, logout, construct_auth_header, post_body}
use xbat_ginkgo.Rest.Requests.{Sends, session_lem}
use xbat_ginkgo.Rest.Session.{
  Call, logging_in, registering_job, run, logout-IsCleared, IsSound, IsCleared,
}
use xbat_ginkgo.Text.Encoding.{encode64, replicate}
use xbat_ginkgo.Topology.Mapping.{last_thread, last_node, lookup-hw_threads}
use xbat_ginkgo.Topology.{
  PoolThread, map_nodes, map_threads, hw_thread_of, cache_loop, CpuTopology, Likwid, CacheSizes,
  get_cpu_topology, w32,
}
use xbat_ginkgo.Topology.Totals.{socket_bytes, get_cpu_topology_lem}

-- A JSON library that reads every text as an object of one member, and gives that for every key.
abbrev pub flat : Json (List Bytes)
flat = record {
  null = [];
  parse = λ text. some (text ∷ []);
  contains = λ j key. elim j [ [] ↦ false | v ∷ vs ↦ true ];
  get_string = λ j key. elim j [ [] ↦ none | v ∷ vs ↦ some v ];
  get_number = λ j key. elim j [ [] ↦ none | v ∷ vs ↦ some 5 ];
  get_bool = λ j key. elim j [ [] ↦ none | v ∷ vs ↦ some true ];
  object = λ members. map (λ (key, v). v) members;
  dump = λ j. codes "{}";
  contains-null = λ key. refl;
  get_number-null = λ key. refl;
}

-- No encoding, and a server that answers every request with a token.
abbrev pub plain : Bytes → Bytes
plain s = s

abbrev pub server : Server
server r = some (codes "t1")

abbrev calls : List (Call (List Bytes))
calls = logging_in ∷ registering_job 7 (codes "n1") (codes "h") ∷ []

abbrev session : CurlClient
session = elim (run flat plain server calls (construct (codes "u") (codes "id") (codes "pw"))) [
  | none ↦ construct [] [] []
  | some client ↦ client
]

session_lem_example :
    IsSound plain (construct (codes "u") (codes "id") (codes "pw")) session
    × Sends flat (construct (codes "u") (codes "id") (codes "pw")) calls [] session.sent
unfolding run construct construct_auth_header post_body
session_lem_example =
    session_lem flat plain server (codes "u") (codes "id") (codes "pw") calls session (λ j h. cc)
      refl

-- The server is not reached.
abbrev pub unreached : Server
unreached r = none

abbrev logged_out : CurlClient × Bool
logged_out = elim (logout flat plain unreached session) [ none ↦ (session, false) | some r ↦ r ]

logout-IsCleared_example : IsCleared plain unreached session logged_out
unfolding logout
logout-IsCleared_example = logout-IsCleared flat plain unreached session logged_out refl

-- In place of base64: digits are bytes moved up by 100, and padding stands for zero bytes.
abbrev shifted : Bytes → Bytes
shifted [] = []
shifted (c ∷ s) = (c + 100) ∷ shifted s

abbrev unshifted : Bytes → Bytes
unshifted [] = []
unshifted (c ∷ s) = (c - 100) ∷ unshifted s

unshifted-replicate : (n : ℕ) → unshifted (replicate n 61) ≡ replicate n 0
unshifted-replicate zero = refl
unshifted-replicate (suc n) = rw (unshifted-replicate n) refl

unshifted-shifted :
    (s : Bytes) (n : ℕ) → unshifted (shifted s ++ replicate n 61) ≡ s ++ replicate n 0
unshifted-shifted [] n = unshifted-replicate n
unshifted-shifted (c ∷ s) n =
    let same : c + 100 - 100 ≡ c = omega arith in rw (same, unshifted-shifted s n) refl

shifted-law : (s : Bytes) → (n : ℕ) × (unshifted (encode64 shifted s) ≡ s ++ replicate n 0)
unfolding encode64
shifted-law s = ((3 - length s % 3) % 3, unshifted-shifted s _)

abbrev digest_of_a : Bytes
digest_of_a = 1 ∷ 171 ∷ []

abbrev no_sizes : CacheSizes
no_sizes = record { per_instance = 0; per_socket = 0; total = 0 }

-- `cachePerSocket` holds 5 before.
abbrev pub unset : CpuTopology
unset = record {
  name = [];
  short_name = [];
  osname = [];
  smt = false;
  threads_per_core = 0;
  cores_per_socket = 0;
  sockets = 0;
  l1_cache = no_sizes;
  l2_cache = no_sizes;
  l3_cache = no_sizes;
  cache_per_socket = 5;
  cache_total = 0;
  hw_threads = [];
}

abbrev pub two_sockets : Likwid
two_sockets = record {
  name = codes "x";
  short_name = codes "x";
  osname = codes "x";
  num_threads_per_core = 2;
  num_cores_per_socket = 4;
  num_sockets = 2;
  cache_levels =
      record { size = 32; threads = 2; is_instruction = false }
      ∷ record { size = 32; threads = 2; is_instruction = true }
      ∷ record { size = 512; threads = 8; is_instruction = false }
      ∷ [];
  thread_pool = record { thread_id = 0; core_id = 3; package_id = 1; apic_id = 6 } ∷ [];
  nodes = (0 ∷ 1 ∷ []) ∷ (6 ∷ []) ∷ [];
}

abbrev filled : CpuTopology
filled = elim (get_cpu_topology true two_sockets unset) [ done topo ↦ topo | _ ↦ unset ]

-- 5 more than the 768 bytes of each socket.
filled_total : filled.cache_total ≡ 1546
unfolding get_cpu_topology cache_loop
filled_total = refl

get_cpu_topology_lem_example :
    (filled.cache_per_socket
      ≡ w32 (unset.cache_per_socket + socket_bytes (w32 (4 * 2)) two_sockets.cache_levels))
    × (filled.cache_total ≡ w32 (filled.cache_per_socket * 2))
unfolding get_cpu_topology
get_cpu_topology_lem_example = get_cpu_topology_lem two_sockets unset filled (omega arith) refl

abbrev pool : List PoolThread
pool = two_sockets.thread_pool

lookup-hw_threads_example :
    (lookup 6 (map_threads (map_nodes 0 two_sockets.nodes []) pool [])
      ≡ Option.map (hw_thread_of (map_nodes 0 two_sockets.nodes [])) (last_thread 6 pool none))
    × (lookup 6 (map_nodes 0 two_sockets.nodes []) ≡ last_node 6 0 two_sockets.nodes none)
lookup-hw_threads_example = lookup-hw_threads 6 two_sockets.nodes pool
