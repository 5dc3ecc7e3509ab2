-- ===== src/Interconnect.antt =====
-- src/xbatd/src/CInterconnectEthernet.{hpp,cpp} and CInterconnectInfiniband.{hpp,cpp}: the traffic
-- over the network. A Reading holds the uint64_t counters by name.
pub mod Sums
pub mod Rates
use xbat_ginkgo.Base.{
  ℕ, ◌+◌, ◌*◌, ◌/◌, ◌%◌, ◌^◌, Bool, true, false, ◌||◌, List, [], ◌∷◌, ◌++◌, Option, none, some,
  Bytes, codes, ltb, if◌then◌else◌, length, drop, get_elem?,
}
use xbat_ginkgo.Base.Float.{Double}
use xbat_ginkgo.Base.Maps.{Map, lookup, lookup_or, insert, bytes_key}
use xbat_ginkgo.Base.Outcome.{Outcome, done, fails, faults, or_fault, or_fail, ◌>>=◌}
use xbat_ginkgo.Cpu.{sub64}
use xbat_ginkgo.Queue.{Entry, double}
use xbat_ginkgo.Text.{
  find, starts_with, get_lines, trim_whitespaces, split_str, erase_lines_from_start,
}
use xbat_ginkgo.Text.Numbers.{stoull}

abbrev pub Reading : Type 0
Reading = Map Bytes ℕ

-- The part of `metricMeta` that is used.
pub record MetricMeta : Type 0 where
  pub label : Bytes
  pub scale : ℕ

abbrev pub ethernet_metrics : Map Bytes MetricMeta
ethernet_metrics =
    (codes "rcv_bytes", record { label = codes "eth_rcv_bw"; scale = 1 })
    ∷ (codes "rcv_packets", record { label = codes "eth_rcv_pkg"; scale = 1 })
    ∷ (codes "xmit_bytes", record { label = codes "eth_xmit_bw"; scale = 1 })
    ∷ (codes "xmit_packets", record { label = codes "eth_xmit_pkg"; scale = 1 })
    ∷ []

abbrev pub infiniband_metrics : Map Bytes MetricMeta
infiniband_metrics =
    (codes "port_rcv_data", record { label = codes "ib_rcv_bw"; scale = 4 })
    ∷ (codes "port_rcv_packets", record { label = codes "ib_rcv_pkg"; scale = 1 })
    ∷ (codes "port_xmit_data", record { label = codes "ib_xmit_bw"; scale = 4 })
    ∷ (codes "port_xmit_packets", record { label = codes "ib_xmit_pkg"; scale = 1 })
    ∷ []

abbrev pub metric_counters : List Bytes
metric_counters =
    codes "port_rcv_data"
    ∷ codes "port_rcv_packets"
    ∷ codes "port_xmit_data"
    ∷ codes "port_xmit_packets"
    ∷ []

-- `results[name] += value`, from 0 if there is none yet.
pub accumulate : Bytes → ℕ → Reading → Reading
accumulate name value results = insert name ((lookup_or 0 name results + value) % 2 ^ 64) results

-- The loop over the values of one interface; reading past the end of the headers is undefined.
add_values : List Bytes → ℕ → ℕ → List Bytes → Reading → Outcome Reading
unfolding accumulate
add_values headers half i [] results = done results
add_values headers half i (v ∷ values) results = do
  header ← or_fault (get_elem? headers i)
  value ← or_fault (stoull v)
  add_values headers half (i + 1) values
      (accumulate ((if ltb i half then codes "rcv_" else codes "xmit_") ++ header) value results)

-- `s[1] + " " + s[2]`; reading past the end of `s` is undefined.
header_names : List Bytes → Outcome (List Bytes)
header_names (s0 ∷ s1 ∷ s2 ∷ s) = or_fault (split_str (s1 ++ b' ' ∷ s2) (codes " "))
header_names _ = faults

read_interfaces : List Bytes → List Bytes → Reading → Outcome Reading
unfolding add_values header_names
read_interfaces headers [] results = done results
read_interfaces headers (raw ∷ ls) results =
    let line = trim_whitespaces raw false in
    elim (find (codes "|") line) [
      | some bar ↦ (do
        s ← or_fault (split_str line (codes "|"))
        headers' ← header_names s
        read_interfaces headers' ls results)
      | none ↦ elim (find (codes ":") line) [
        | none ↦ read_interfaces headers ls results
        | some start ↦
            if starts_with line (codes "lo") then read_interfaces headers ls results else (do
              values ← or_fault (split_str (drop (start + 1) line) (codes " "))
              results' ← add_values headers (length values / 2) 0 values results
              read_interfaces headers ls results')
      ]
    ]

-- The content of /proc/net/dev, or `none` if it cannot be read.
unfoldable pub read_proc : Option Bytes → Outcome Reading
unfolding read_interfaces
read_proc file = do
  raw ← or_fail file
  read_interfaces [] (get_lines [] (erase_lines_from_start raw 1)) []

-- A `counters` directory: the files in it by name; `none` is a file that cannot be read.
abbrev pub CounterDir : Type 0
CounterDir = Map Bytes (Option Bytes)

-- /sys/class/infiniband: for each device its ports, and for each port its counters; `none` where the
-- directory `ports` or `counters` does not exist.
abbrev pub Adapters : Type 0
Adapters = List (Option (List (Option CounterDir)))

pub add_file : Bytes → Option (Option Bytes) → Reading → Outcome Reading
unfolding accumulate
add_file name none results = done results
add_file name (some file) results = do
  content ← or_fail file
  value ← or_fault (stoull (trim_whitespaces content false))
  done (accumulate name value results)

pub add_counters : List Bytes → CounterDir → Reading → Outcome Reading
unfolding add_file
add_counters [] dir results = done results
add_counters (name ∷ names) dir results = do
  results' ← add_file name (lookup name dir) results
  add_counters names dir results'

pub add_ports : List (Option CounterDir) → Reading → Outcome Reading
unfolding add_counters
add_ports [] results = done results
add_ports (none ∷ ports) results = add_ports ports results
add_ports (some dir ∷ ports) results = do
  results' ← add_counters metric_counters dir results
  add_ports ports results'

pub add_devices : Adapters → Reading → Outcome Reading
unfolding add_ports
add_devices [] results = done results
add_devices (none ∷ devices) results = add_devices devices results
add_devices (some ports ∷ devices) results = do
  results' ← add_ports ports results
  add_devices devices results'

unfoldable pub read_infiniband : Option Adapters → Outcome Reading
unfolding add_devices
read_infiniband root = do devices ← or_fail root; add_devices devices []

-- The loop over `current`.
pub differences : Reading → Reading → Reading → Reading
differences previous [] difference = difference
differences previous ((key, value) ∷ current) difference =
    differences previous current (insert key (sub64 value (lookup_or 0 key previous)) difference)

module _ {ℓ} {W : Type ℓ} ⦃d : Double W⦄ where
  -- The loop over `difference`; `interval_s` is the interval in whole seconds.
  pub rates : Map Bytes MetricMeta → ℕ → ℕ → Reading → List (Entry W)
  rates metric_info interval_s ts [] = []
  rates metric_info interval_s ts ((key, value) ∷ difference) =
      let rest = rates metric_info interval_s ts difference in
      elim (lookup key metric_info) [
        | none ↦ rest
        | some meta ↦
            double (record {
              measurement = meta.label;
              tags = (codes "level", codes "node") ∷ [];
              value = d.mul (d.div (d.of_ℕ value) (d.of_ℕ interval_s)) (d.of_ℕ meta.scale);
              ts = ts;
            })
            ∷ rest
      ]

  -- What the calls of `pushSingle` push, for an interval in milliseconds.
  unfoldable pub calculate_usage :
      Map Bytes MetricMeta → ℕ → ℕ → Reading → Reading → Outcome (List (Entry W))
  unfolding rates differences
  calculate_usage metric_info interval ts previous current =
      done (rates metric_info (interval / 1000) ts (differences previous current []))
