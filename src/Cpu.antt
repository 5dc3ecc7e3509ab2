-- ===== src/Cpu.antt =====
-- src/xbatd/src/CCpuStat.cpp: the CPU usage from two readings of /proc/stat.
pub mod Shares
pub mod Usage
use xbat_ginkgo.Base.{
  ℕ, zero, suc, ◌+◌, ◌-◌, ◌%◌, ◌^◌, Bool, true, false, not, ◌&&◌, List, [], ◌∷◌, ◌++◌, Option, none,
  some, Bytes, codes, ltb, ◌==◌, if◌then◌else◌,
}
use xbat_ginkgo.Base.Float.{Double}
use xbat_ginkgo.Base.Int.{ℤ, pos, negsuc}
use xbat_ginkgo.Base.Maps.{Map, lookup_or, insert, bytes_key, nat_key, bytes_eq}
use xbat_ginkgo.Base.Outcome.{Outcome, done, fails, faults, or_fault, or_fail, ◌>>=◌}
use xbat_ginkgo.Queue.{Entry, double, Tags}
use xbat_ginkgo.Text.{is_prefix, is_digit, get_lines, trim_whitespaces, split_str}
use xbat_ginkgo.Text.Numbers.{stoull, stoi, to_string}

-- topology.hpp: what the tags of a hardware thread name.
pub record HwThread : Type 0 where
  pub hw_thread : ℕ
  pub thread : Bytes
  pub core : Bytes
  pub socket : Bytes
  pub numa : Bytes

abbrev pub no_thread : HwThread
no_thread = record { hw_thread = 0; thread = []; core = []; socket = []; numa = [] }

-- The part of `Topology::cpuTopology` that is read here.
pub record Threads : Type 0 where
  pub smt : Bool
  pub hw_threads : Map ℕ HwThread

-- uint64_t a - b
pub sub64 : ℕ → ℕ → ℕ
sub64 a b = (a + 2 ^ 64 - b % 2 ^ 64) % 2 ^ 64

unfoldable pub read_values : List Bytes → Outcome (List ℕ)
read_values [] = done []
read_values (field ∷ fields) = do
  v ← or_fault (stoull field)
  vs ← read_values fields
  done (v ∷ vs)

abbrev pub Reading : Type 0
Reading = Map Bytes (List ℕ)

-- `fields[0]` is the name of the CPU; the rest are its counters.
add_fields : List Bytes → Reading → Outcome Reading
unfolding read_values
add_fields [] results = faults
add_fields (cpu ∷ fields) results = do values ← read_values fields; done (insert cpu values results)

read_lines : List Bytes → Reading → Outcome Reading
unfolding add_fields
read_lines [] results = done results
read_lines (line ∷ ls) results =
    if is_prefix (codes "cpu") line
    then (do
      fields ← or_fault (split_str (trim_whitespaces line false) (codes " "))
      results' ← add_fields fields results
      read_lines ls results')
    else read_lines ls results

-- The content of /proc/stat, or `none` if it cannot be read.
unfoldable pub read_proc : Option Bytes → Outcome Reading
unfolding read_lines
read_proc file = do content ← or_fail file; read_lines (get_lines [] content) []

-- `std::transform` with `std::minus`: reading past the end of the previous values is undefined.
pub subtract : List ℕ → List ℕ → Outcome (List ℕ)
unfolding sub64
subtract [] previous = done []
subtract (v ∷ values) [] = faults
subtract (v ∷ values) (p ∷ previous) = do rest ← subtract values previous; done (sub64 v p ∷ rest)

pub record Counters : Type 0 where
  pub user : ℕ
  pub nice : ℕ
  pub idle : ℕ
  pub iowait : ℕ
  pub sys : ℕ
  pub virt : ℕ
  pub total : ℕ

-- The uint64_t sums over the first ten differences; reading past the end is undefined.
pub counters : List ℕ → Outcome Counters
unfolding sub64
counters (v0 ∷ v1 ∷ v2 ∷ v3 ∷ v4 ∷ v5 ∷ v6 ∷ v7 ∷ v8 ∷ v9 ∷ _) =
    let user = sub64 v0 v8 in
    let nice = sub64 v1 v9 in
    let idle = (v3 + v4) % 2 ^ 64 in
    let sys = (v2 + v5 + v6) % 2 ^ 64 in
    let virt = (v8 + v9) % 2 ^ 64 in
    done (record {
      user = user;
      nice = nice;
      idle = idle;
      iowait = v4;
      sys = sys;
      virt = virt;
      total = (user + nice + idle + sys + virt + v7) % 2 ^ 64;
    })
counters _ = faults

-- Whether the byte behind the next two is a digit.
digit_at : Bytes → Bool
unfolding is_digit
digit_at (p ∷ u ∷ d ∷ rest) = is_digit d
digit_at _ = false

-- `regex_replace(key, regex("cpu(\\d+)"), "$1")`: "cpu" before a digit is left out.
unfoldable pub strip_cpu : ℕ → Bytes → Bytes
unfolding is_prefix digit_at
strip_cpu skip [] = []
strip_cpu (suc skip) (c ∷ s) = strip_cpu skip s
strip_cpu zero (c ∷ s) =
    let hit = is_prefix (codes "cpu") (c ∷ s) && digit_at s in
    (if hit then [] else c ∷ []) ++ strip_cpu (if hit then 2 else 0) s

abbrev pub level_tag : Threads → Tags
level_tag topology = (codes "level", (if topology.smt then codes "thread" else codes "core")) ∷ []

-- The tags of a hardware thread name its place. (No number is negative: it begins with a digit.)
thread_tags : Threads → ℤ → Outcome Tags
thread_tags topology (negsuc n) = done (level_tag topology)
thread_tags topology (pos id) =
    let t = lookup_or no_thread id topology.hw_threads in
    done (
      insert (codes "numa") t.numa (
        insert (codes "socket") t.socket (
          insert (codes "core") t.core
            (insert (codes "thread") (to_string id) (level_tag topology)))))

pub cpu_tags : Threads → Bytes → Outcome Tags
unfolding thread_tags strip_cpu
cpu_tags topology key =
    if bytes_eq key (codes "cpu")
    then done ((codes "level", codes "node") ∷ [])
    else (do id ← or_fault (stoi (strip_cpu 0 key)); thread_tags topology id)

module _ {ℓ} {W : Type ℓ} ⦃d : Double W⦄ where
  -- `total`, with 1 in place of 0.
  divisor : ℕ → W
  divisor total = let t = d.of_ℕ total in if d.eq t (d.of_ℕ 0) then d.of_ℕ 1 else t

  percent : W → W → W
  percent part total = d.mul (d.div part total) (d.of_ℕ 100)

  unfoldable pub entries_of : ℕ → Tags → Counters → List (Entry W)
  unfolding divisor percent
  entries_of ts tags c =
      let total = divisor c.total in
      entry (codes "cpu_usage") (percent (d.sub total (d.of_ℕ c.idle)) total)
      ∷ entry (codes "cpu_user") (percent (d.of_ℕ c.user) total)
      ∷ entry (codes "cpu_system") (percent (d.of_ℕ c.sys) total)
      ∷ entry (codes "cpu_iowait") (percent (d.of_ℕ c.iowait) total)
      ∷ entry (codes "cpu_virtual") (percent (d.of_ℕ c.virt) total)
      ∷ entry (codes "cpu_nice") (percent (d.of_ℕ c.nice) total)
      ∷ []
    where
      entry : Bytes → W → Entry W
      entry label value =
          double (record { measurement = label; tags = tags; value = value; ts = ts })

  -- The loop over `current`, in the order of its keys.
  pub usage_loop : Threads → ℕ → Reading → Reading → List (Entry W) → Outcome (List (Entry W))
  unfolding subtract counters cpu_tags entries_of
  usage_loop topology ts previous [] ilps = done ilps
  usage_loop topology ts previous ((key, values) ∷ current) ilps = do
    differences ← subtract values (lookup_or [] key previous)
    c ← counters differences
    tags ← cpu_tags topology key
    usage_loop topology ts previous current (ilps ++ entries_of ts tags c)

  -- What is pushed to the queue.
  unfoldable pub calculate_usage : Threads → ℕ → Reading → Reading → Outcome (List (Entry W))
  unfolding usage_loop
  calculate_usage topology ts previous current = usage_loop topology ts previous current []
