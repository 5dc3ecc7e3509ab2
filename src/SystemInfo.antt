-- ===== src/SystemInfo.antt =====
-- Helper::gatherSystemInfo of src/xbatd/src/helper.cpp, and what main makes of it. The JSON library is
-- an interface; what the commands print and what uname gives are arguments.
pub mod Gather
mod Laws
pub mod Sections
pub mod Hash
use xbat_ginkgo.Base.{
  ℕ, ◌≡◌, ◌≢◌, Bool, true, false, List, [], ◌∷◌, ◌++◌, ◌||◌, Option, none, some, Bytes, codes,
  if◌then◌else◌, take, length, ◌-◌,
}
use xbat_ginkgo.Base.Int.{ℤ, pos, ◌-ℤ◌}
use xbat_ginkgo.Base.Maps.{bytes_eq}
use xbat_ginkgo.Base.Outcome.{Outcome, done, fails, faults, or_fault, ◌>>=◌}
use xbat_ginkgo.Power.{get_command_output, if_succeeded}
use xbat_ginkgo.Startup.Time.{first_of, second_of}
use xbat_ginkgo.Text.Numbers.{stoi}
use xbat_ginkgo.Text.{split_str, get_lines, starts_with, ends_with}

-- What is used of `nlohmann::json`. `accepts` holds of an object and of null, where `j[key]` does not
-- throw; `get` is its value, null for a missing key, and `put` assigns to it.
pub record Document (J : Type 0) : Type 0 where
  pub null : J
  pub text : Bytes → J
  pub number : ℤ → J
  pub texts : List Bytes → J
  pub parse : Bytes → Option J
  pub get_string : J → Option Bytes
  pub elements : J → List J
  pub accepts : J → Bool
  pub contains : J → Bytes → Bool
  pub get : Bytes → J → J
  pub put : Bytes → J → J → J
  pub erase : Bytes → J → J
  pub accepts-null : accepts null ≡ true
  pub accepts-put : (k : Bytes) (v j : J) → accepts (put k v j) ≡ true
  pub contains-null : (k : Bytes) → contains null k ≡ false
  pub contains-put :
      (k i : Bytes) (v j : J) → contains (put k v j) i ≡ (bytes_eq k i || contains j i)
  pub get-null : (k : Bytes) → get k null ≡ null
  pub get-put : (k i : Bytes) (v j : J) → get i (put k v j) ≡ (if bytes_eq k i then v else get i j)
  pub put-put : (k : Bytes) (v w j : J) → put k w (put k v j) ≡ put k w j
  pub put_comm : (k i : Bytes) (v w j : J) → k ≢ i → put i w (put k v j) ≡ put k v (put i w j)
  pub erase-put : (k : Bytes) (v j : J) → erase k (put k v j) ≡ erase k j

-- utsname
pub record Uts : Type 0 where
  pub release : Bytes
  pub version : Bytes
  pub nodename : Bytes
  pub sysname : Bytes
  pub machine : Bytes

-- What the pipe of each command gives.
pub record Printed : Type 0 where
  pub os_release : Bytes
  pub lscpu : Bytes
  pub likwid_topology : Bytes
  pub pci_devices : Bytes
  pub bios : Bytes
  pub system : Bytes
  pub memory : Bytes
  pub memory_devices : Bytes
  pub empty_slots : Bytes

abbrev pub lscpu_data : List Bytes
lscpu_data =
    codes "Architecture"
    ∷ codes "CPU(s)"
    ∷ codes "Vendor ID"
    ∷ codes "Model name"
    ∷ codes "CPU family"
    ∷ codes "Model"
    ∷ codes "Thread(s) per core"
    ∷ codes "Core(s) per socket"
    ∷ codes "Socket(s)"
    ∷ codes "Frequency boost"
    ∷ codes "CPU max MHz"
    ∷ codes "Caches (sum of all)"
    ∷ codes "L1d cache"
    ∷ codes "L1i cache"
    ∷ codes "L2 cache"
    ∷ codes "L3 cache"
    ∷ []

unfoldable pub vector_contains : List Bytes → Bytes → Bool
vector_contains [] entry = false
vector_contains (v ∷ vs) entry = bytes_eq v entry || vector_contains vs entry

-- The value of a line that has been split: empty unless there are two parts.
unfoldable pub line_value : List Bytes → Bytes
line_value (k ∷ v ∷ []) = v
line_value vs = []

module _ {J : Type 0} (doc : Document J) where
  open doc use {null, text, number, texts, accepts, contains, get, put}

  -- `json[name][key] = v`; `none` is an exception.
  unfoldable pub set_in : Bytes → Bytes → J → J → Option J
  set_in name key v j =
      let section = get name j in
      if accepts j
      then (if accepts section then some (put name (put key v section) j) else none)
      else none

  -- The loop of `parseDmidecode`: an exception ends it, and leaves what was set before.
  unfoldable pub parse_lines : Bytes → List Bytes → J → Outcome J
  unfolding set_in line_value first_of
  parse_lines name [] j = done j
  parse_lines name (line ∷ lines) j = do
    vs ← or_fault (split_str line (codes "="))
    key ← first_of vs
    let rest = parse_lines name lines j
    let set = set_in name key (text (line_value vs)) j
    (if accepts j
        then (if contains (get name j) key
            then rest
            else (elim set [ none ↦ done j | some j' ↦ parse_lines name lines j' ]))
        else done j)

  unfoldable pub parse_dmidecode : Bytes → J → Bytes → Outcome J
  unfolding parse_lines
  parse_dmidecode output j name = parse_lines name (get_lines [] output) j
