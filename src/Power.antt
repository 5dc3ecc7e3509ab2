-- ===== src/Power.antt =====
-- The collectors of power readings: src/xbatd/src/CEnergyIpmi.cpp and CXilinx.cpp, and
-- `getCommandOutput` of src/xbatd/src/helper.cpp. What a command prints is a parameter of each call.
pub mod Fpga
pub mod Runs
use xbat_ginkgo.Base.{
  ℕ, zero, suc, ◌+◌, Bool, true, false, List, [], ◌∷◌, ◌++◌, Option, none, some, Bytes, codes,
  if◌then◌else◌, length, take, drop,
}
use xbat_ginkgo.Base.Float.{Double}
use xbat_ginkgo.Base.Int.{ℤ, pos, negsuc}
use xbat_ginkgo.Base.Outcome.{Outcome, done, fails, faults, or_fault, ◌>>=◌}
use xbat_ginkgo.Queue.{Entry, int64, double}
use xbat_ginkgo.Text.{
  find, split_str, extract_number, filter_lines_not_containing, trim_whitespaces, ends_with,
}
use xbat_ginkgo.Text.Numbers.{stoi, stoll}

abbrev pub ret_marker : Bytes
ret_marker = codes "#RETVAL#"

-- The output of a command and its exit code, from what the pipe gives.
unfoldable pub get_command_output : Bytes → Outcome (Bytes × ℤ)
get_command_output text = elim (find ret_marker text) [
  | none ↦ done (text, pos 1)
  | some p ↦ (do
    code ← or_fault (stoi (drop (p + length ret_marker) text))
    done (take p text, code))
]

-- The output if the exit code is 0.
unfoldable pub if_succeeded : Bytes × ℤ → Option Bytes
if_succeeded (output, pos n) = elim n [ zero ↦ some output | suc m ↦ none ]
if_succeeded (output, negsuc n) = none

-- The bridged request; from then on `bridged` is set.
pub via_bridge : Bytes → Outcome (Bytes × Bool)
unfolding get_command_output if_succeeded
via_bridge request = do
  r ← get_command_output request
  elim (if_succeeded r) [ none ↦ fails | some output ↦ done (output, true) ]

-- The two commands' texts, and the new `bridged`.
pub power_output : Bool → Bytes × Bytes → Outcome (Bytes × Bool)
unfolding via_bridge
power_output true (standard, request) = via_bridge request
power_output false (standard, request) = do
  r ← get_command_output standard
  elim (if_succeeded r) [ none ↦ via_bridge request | some output ↦ done (output, false) ]

-- The number behind the colon.
pub parse_value : List Bytes → Outcome ℤ
parse_value (name ∷ value ∷ []) = elim (extract_number value false) [
  | [] ↦ fails
  | c ∷ digits ↦ or_fault (stoll (c ∷ digits))
]
parse_value _ = fails

pub bridged_after : Bool → Bytes × Bytes → Bool
unfolding power_output
bridged_after bridged texts = elim (power_output bridged texts) [
  | done r ↦ r.1
  | fails ↦ bridged
  | faults ↦ bridged
]

module _ {ℓ} {W : Type ℓ} where
  abbrev pub energy_entry : ℕ → ℤ → Entry W
  energy_entry ts value = int64 (record {
    measurement = codes "ipmi_power_system";
    tags = (codes "level", codes "node") ∷ [];
    value = value;
    ts = ts;
  })

  pub parse : ℕ → Bytes → Outcome (List (Entry W))
  unfolding parse_value
  parse ts result = do
    split ← or_fault (split_str result (codes ":"))
    value ← parse_value split
    done (energy_entry ts value ∷ [])

  -- One reading of CEnergyIpmi.
  pub read_energy : Bool → ℕ → Bytes × Bytes → Outcome (List (Entry W))
  unfolding power_output parse
  read_energy bridged ts texts = do
    (result, _) ← power_output bridged texts
    parse ts (filter_lines_not_containing (codes "Instantaneous power reading" ∷ []) result false)

-- Adds the device of a line of `lspci` if its name ends in ".1"; `split[0]` of nothing is undefined.
pub add_bdf : List Bytes → List Bytes → Outcome (List Bytes)
add_bdf [] bdfs = faults
add_bdf (bdf ∷ fields) bdfs =
    if ends_with bdf (codes ".1") then done (bdfs ++ bdf ∷ []) else done bdfs

pub add_bdfs : List Bytes → List Bytes → Outcome (List Bytes)
unfolding add_bdf
add_bdfs [] bdfs = done bdfs
add_bdfs (entry ∷ entries) bdfs = do
  split ← or_fault (split_str (trim_whitespaces entry false) (codes " "))
  bdfs' ← add_bdf split bdfs
  add_bdfs entries bdfs'

-- The devices to read, from the text of `lspci`; it fails if there is none.
pub prepare : Bytes → Outcome (List Bytes)
unfolding get_command_output if_succeeded add_bdfs
prepare text = do
  r ← get_command_output text
  elim (if_succeeded r) [
    | none ↦ fails
    | some result ↦ (do
      entries ← or_fault (split_str result (codes "\n"))
      bdfs ← add_bdfs entries []
      elim bdfs [ [] ↦ fails | bdf ∷ rest ↦ done (bdf ∷ rest) ])
  ]

-- The state of a device: whether its path exists, and what the file holds if it can be read.
abbrev pub DeviceFile : Type 0
DeviceFile = Option (Option Bytes)

module _ {ℓ} {W : Type ℓ} ⦃d : Double W⦄ where
  -- `readUsage`: its result, and what it has pushed. A path that is missing ends it with 1. Nothing
  -- catches what stoll throws, so `faults` is the end of the process.
  pub read_usage : ℕ → List (Bytes × DeviceFile) → ℕ → List (Entry W) → Outcome (ℕ × List (Entry W))
  read_usage ts [] found pushed = done (found, pushed)
  read_usage ts ((bdf, none) ∷ devices) found pushed = done (1, pushed)
  read_usage ts ((bdf, some none) ∷ devices) found pushed = read_usage ts devices found pushed
  read_usage ts ((bdf, some (some text)) ∷ devices) found pushed = do
    value ← or_fault (stoll text)
    read_usage ts devices (found + 1) (
        pushed
        ++ double (record {
          measurement = codes "fpga_power";
          tags = (codes "device", bdf) ∷ (codes "level", codes "device") ∷ [];
          value = d.div (d.of_ℤ value) (d.of_ℕ 1_000_000);
          ts = ts;
        })
          ∷ [])

  -- `if (readUsage() <= 0) return 1;`
  pub read_fpga : ℕ → List (Bytes × DeviceFile) → Outcome (List (Entry W))
  unfolding read_usage
  read_fpga ts devices = do
    (found, pushed) ← read_usage ts devices 0 []
    elim found [ zero ↦ fails | suc n ↦ done pushed ]
