-- ===== src/Likwid.antt =====
-- src/xbatd/src/CLikwidPerfctr.{hpp,cpp}: what is prepared for the measurement. What likwid answers and
-- what the JSON library reads from metrics.json are arguments. AddHPMThread is called nowhere.
pub mod Results
pub mod Sets
pub mod Loop
pub mod Preparation
pub mod Budget
pub mod Stamps
use xbat_ginkgo.Base.{
  ℕ, ◌-◌, Bool, true, false, not, List, [], ◌∷◌, ◌++◌, Option, none, some, Bytes, codes,
  if◌then◌else◌,
}
use xbat_ginkgo.Base.Int.{ℤ, pos}
use xbat_ginkgo.Base.Maps.{Map, insert, bytes_key, bytes_eq}
use xbat_ginkgo.Base.Outcome.{Outcome, done, fails, faults, or_fail, ◌>>=◌}

-- metricMeta of CDataCollectionBase.hpp
pub record MetricMeta : Type 0 where
  pub label : Bytes
  pub scale : ℤ
  pub level : Bytes

-- The object of a metric in metrics.json; `none` is a member that is missing.
pub record MetricDetails : Type 0 where
  pub name : Option Bytes
  pub scale : Option ℤ
  pub level : Option Bytes

abbrev or_else {ℓ} : {A : Type ℓ} → A → Option A → A
or_else a none = a
or_else a (some b) = b

unfoldable pub metric_meta : Bytes → MetricDetails → MetricMeta
metric_meta name_raw details = record {
  label = codes "likwid_" ++ or_else name_raw details.name;
  scale = or_else (pos 1) details.scale;
  level = or_else [] details.level;
}

-- The members of one set, and of the whole file.
unfoldable pub parse_set :
    List (Bytes × MetricDetails) → Map Bytes MetricMeta → Map Bytes MetricMeta
unfolding metric_meta
parse_set [] mapping = mapping
parse_set ((name_raw, details) ∷ members) mapping =
    parse_set members (insert name_raw (metric_meta name_raw details) mapping)

abbrev pub Metrics : Type 0
Metrics = Map Bytes (Map Bytes MetricMeta)

unfoldable pub parse_sets : List (Bytes × List (Bytes × MetricDetails)) → Metrics → Metrics
unfolding parse_set
parse_sets [] metrics = metrics
parse_sets ((set_name, members) ∷ sets) metrics =
    parse_sets sets (insert set_name (parse_set members []) metrics)

-- A file that is missing or no JSON throws, and nothing catches that: `none`.
unfoldable pub parse_metrics :
    Option (List (Bytes × List (Bytes × MetricDetails))) → Outcome Metrics
unfolding parse_sets
parse_metrics none = faults
parse_metrics (some sets) = done (parse_sets sets [])

abbrev pub default_sets : List Bytes
default_sets =
    codes "BRANCH"
    ∷ codes "CYCLE_ACTIVITY"
    ∷ codes "CYCLE_STALLS"
    ∷ codes "DATA"
    ∷ codes "ENERGY"
    ∷ codes "FLOPS_SP"
    ∷ codes "FLOPS_DP"
    ∷ codes "HBM"
    ∷ codes "ICACHE"
    ∷ codes "L2CACHE"
    ∷ codes "L2"
    ∷ codes "L3CACHE"
    ∷ codes "L3"
    ∷ codes "MEM"
    ∷ codes "MEM1"
    ∷ codes "MEM2"
    ∷ codes "MEMREAD"
    ∷ codes "MEMWRITE"
    ∷ codes "UPI"
    ∷ []

-- `perfmon_getGroups`: `none` is an error, which leaves the list of the groups empty; a group can be a
-- null pointer.
unfoldable pub get_available_groups : Option (List (Option Bytes)) → List Bytes
get_available_groups none = []
get_available_groups (some []) = []
get_available_groups (some (none ∷ groups)) = get_available_groups (some groups)
get_available_groups (some (some g ∷ groups)) = g ∷ get_available_groups (some groups)

-- `std::find`
unfoldable pub contains : Bytes → List Bytes → Bool
contains set [] = false
contains set (s ∷ sets) = if bytes_eq s set then true else contains set sets

-- `set_list.erase(std::remove(...))`
unfoldable pub remove : Bytes → List Bytes → List Bytes
remove set [] = []
remove set (s ∷ sets) = if bytes_eq s set then remove set sets else s ∷ remove set sets

-- The loop over the copy of the sets.
unfoldable pub keep_available : List Bytes → List Bytes → List Bytes → List Bytes
unfolding contains remove
keep_available available [] set_list = set_list
keep_available available (set ∷ sets) set_list =
    keep_available available sets (if contains set available then set_list else remove set set_list)

-- The event sets added in turn; `none` is a negative id.
unfoldable pub add_event_sets : (Bytes → Option ℕ) → List Bytes → Outcome (List ℕ)
add_event_sets add_set [] = done []
add_event_sets add_set (set ∷ sets) = do
  gid ← or_fail (add_set set)
  gids ← add_event_sets add_set sets
  done (gid ∷ gids)

-- One hardware thread of likwid's pool: whether it is in the set of CPUs, and its id.
abbrev pub in_cpu_set : List (Bool × ℕ) → List ℕ
in_cpu_set [] = []
in_cpu_set ((true, apic_id) ∷ pool) = apic_id ∷ in_cpu_set pool
in_cpu_set ((false, apic_id) ∷ pool) = in_cpu_set pool

-- What likwid answers to the preparation.
pub record Answers : Type 0 where
  pub topology_init : Bool
  pub thread_pool : List (Bool × ℕ)
  pub hpm_init : Bool
  pub perfmon_init : List ℕ → Bool
  pub groups : Option (List (Option Bytes))
  pub add_event_set : Bytes → Option ℕ

-- The members `cpus`, `set_list` and `gids` after the preparation.
pub record Prepared : Type 0 where
  pub cpus : List ℕ
  pub set_list : List Bytes
  pub gids : List ℕ

unfoldable pub add_sets : (Bytes → Option ℕ) → List ℕ → List Bytes → Outcome Prepared
unfolding add_event_sets
add_sets add_set cpus [] = fails
add_sets add_set cpus (set ∷ sets) = do
  gids ← add_event_sets add_set (set ∷ sets)
  done (record { cpus = cpus; set_list = set ∷ sets; gids = gids })

unfoldable pub prepare_measurements : Answers → Outcome Prepared
unfolding get_available_groups keep_available add_sets
prepare_measurements likwid =
    let cpus = in_cpu_set likwid.thread_pool in
    let sets = keep_available (get_available_groups likwid.groups) default_sets default_sets in
    if not likwid.topology_init
    then fails
    else if not likwid.hpm_init
    then fails
    else if not (likwid.perfmon_init cpus)
    then fails
    else add_sets likwid.add_event_set cpus sets
