-- ===== src/SystemInfo/Gather.antt =====
-- Helper::gatherSystemInfo step by step, and the hash that main makes of the result. `faults` is an
-- exception that main does not catch, or undefined behaviour.
use xbat_ginkgo.Base.{
  ◌-◌, List, [], ◌∷◌, ◌||◌, none, some, Bytes, codes, if◌then◌else◌, take, length,
}
use xbat_ginkgo.Base.Int.{◌-ℤ◌}
use xbat_ginkgo.Base.Outcome.{Outcome, done, fails, faults, or_fault, ◌>>=◌}
use xbat_ginkgo.Power.{get_command_output, if_succeeded}
use xbat_ginkgo.Startup.Time.{second_of}
use xbat_ginkgo.SystemInfo.{
  Document, Uts, Printed, lscpu_data, vector_contains, set_in, parse_dmidecode,
}
use xbat_ginkgo.Text.Numbers.{stoi}
use xbat_ginkgo.Text.{split_str, get_lines, starts_with, ends_with}

-- `key.pop_back()` behind a colon.
unfoldable pub without_colon : Bytes → Bytes
unfolding ends_with
without_colon key = if ends_with key (codes ":") then take (length key - 1) key else key

-- A step that is made only if its command succeeds.
unfoldable pub if_printed : {J : Type 0} → Bytes → J → (Bytes → Outcome J) → Outcome J
unfolding get_command_output if_succeeded
if_printed printed j step = do
  r ← get_command_output printed
  elim (if_succeeded r) [ none ↦ done j | some output ↦ step output ]

module _ {J : Type 0} (doc : Document J) where
  open doc use {null, text, number, texts, accepts, contains, get, put}

  -- `data[key] = v` outside of any `try`.
  unfoldable pub assign : Bytes → J → J → Outcome J
  assign key v j = if accepts j then done (put key v j) else faults

  -- `parseLscpu`; an exception leaves `data` as it is.
  unfoldable pub parse_lscpu : J → J → J
  unfolding without_colon vector_contains starts_with
  parse_lscpu j values =
      if contains values (codes "field")
      then (if contains values (codes "data")
          then elim (doc.get_string (get (codes "field") values)) [
            | none ↦ j
            | some field ↦
                let key = without_colon field in
                if vector_contains lscpu_data key || starts_with key (codes "NUMA ")
                then (if accepts j then put key (get (codes "data") values) j else j)
                else j
          ]
          else j)
      else j

  unfoldable pub parse_all : List J → J → J
  unfolding parse_lscpu
  parse_all [] j = j
  parse_all (v ∷ vs) j = parse_all vs (parse_lscpu j v)

  -- An element of `lscpu["lscpu"]` and its children; `j` is `data["cpu"]`.
  unfoldable pub parse_entries : List J → J → J
  unfolding parse_lscpu parse_all
  parse_entries [] j = j
  parse_entries (v ∷ vs) j = parse_entries vs (
      if contains v (codes "children")
      then parse_all (doc.elements (get (codes "children") v)) (parse_lscpu j v)
      else parse_lscpu j v)

  unfoldable pub add_os : Uts → J
  add_os uts = put (codes "architecture") (text uts.machine) (
      put (codes "sysname") (text uts.sysname) (
        put (codes "hostname") (text uts.nodename) (
          put (codes "version") (text uts.version) (put (codes "kernel") (text uts.release) null))))

  -- `data["os"]["distro"] = v[1]`
  unfoldable pub add_distro : J → Bytes → Outcome J
  unfolding set_in second_of
  add_distro j output = do
    v ← or_fault (split_str output (codes "="))
    distro ← second_of v
    or_fault (set_in doc (codes "os") (codes "distro") (text distro) j)

  -- `data["cpu"]` is made where there is an element.
  unfoldable pub add_entries : List J → J → Outcome J
  unfolding parse_entries assign
  add_entries [] j = done j
  add_entries (v ∷ vs) j = assign (codes "cpu") (parse_entries (v ∷ vs) (get (codes "cpu") j)) j

  unfoldable pub add_cpu : J → Bytes → Outcome J
  unfolding add_entries
  add_cpu j output = do
    lscpu ← or_fault (doc.parse output)
    let entries = doc.elements (get (codes "lscpu") lscpu)
    (if accepts lscpu then add_entries entries j else faults)

  unfoldable pub add_topology : J → Bytes → Outcome J
  unfolding set_in
  add_topology j output = or_fault (set_in doc (codes "cpu") (codes "topology") (text output) j)

  unfoldable pub add_gpu : J → Bytes → Outcome J
  unfolding assign
  add_gpu j output = assign (codes "gpu") (texts (get_lines [] output)) j

  -- `max - std::stoi(output)`: every exception is caught.
  unfoldable pub add_installed : J → Bytes → Bytes → Outcome J
  unfolding set_in get_command_output if_succeeded
  add_installed j empty_slots output = elim (stoi output) [
    | none ↦ done j
    | some max ↦ elim (get_command_output empty_slots) [
      | fails ↦ done j
      | faults ↦ done j
      | done r ↦ elim (if_succeeded r) [
        | none ↦ done j
        | some empty ↦ elim (stoi empty) [
          | none ↦ done j
          | some n ↦
              elim (set_in doc (codes "memory") (codes "Number Of Installed Devices")
                (number (max -ℤ n)) j) [ none ↦ done j | some j' ↦ done j' ]
        ]
      ]
    ]
  ]

  unfoldable pub gather_system_info : Uts → Printed → Outcome J
  unfolding assign add_os if_printed add_distro add_cpu add_topology add_gpu parse_dmidecode
      add_installed
  gather_system_info uts p = do
    os ← assign (codes "os") (add_os uts) null
    distro ← if_printed p.os_release os (add_distro os)
    cpu ← if_printed p.lscpu distro (add_cpu distro)
    topology ← if_printed p.likwid_topology cpu (add_topology cpu)
    gpu ← if_printed p.pci_devices topology (add_gpu topology)
    bios ← if_printed p.bios gpu (λ output. parse_dmidecode doc output gpu (codes "bios"))
    system ← if_printed p.system bios (λ output. parse_dmidecode doc output bios (codes "system"))
    memory ←
        if_printed p.memory system (λ output. parse_dmidecode doc output system (codes "memory"))
    if_printed p.memory_devices memory (add_installed memory p.empty_slots)

  -- `if (j[name].contains(key)) j[name].erase(key)`, where reading `j[name]` makes it.
  unfoldable pub erase_in : Bytes → Bytes → J → Outcome J
  unfolding assign
  erase_in name key j =
      let section = get name j in
      assign name (if contains section key then doc.erase key section else section) j

  -- What main hashes: the information with the short host name, less that name and the topology.
  unfoldable pub hashable_system_info : Bytes → J → Outcome J
  unfolding erase_in set_in
  hashable_system_info hostname j = do
    named ← or_fault (set_in doc (codes "os") (codes "hostname") (text hostname) j)
    bare ← erase_in (codes "cpu") (codes "topology") named
    erase_in (codes "os") (codes "hostname") bare
