-- ===== src/Tests/SystemInfoTests.antt =====
-- gatherSystemInfo on documents that are functions from keys to values.
use mathlib.Core.Path.{fun_ext, ap₂}
use xbat_ginkgo.Base.{
  ◌≡◌, refl, ◌≢◌, Bool, true, false, ◌||◌, List, [], ◌∷◌, map, Option, none, some, Bytes, codes,
  arith, All, if◌then◌else◌,
}
use xbat_ginkgo.Base.Int.{ℤ}
use xbat_ginkgo.Base.Maps.{bytes_eq, bytes_eq_iff}
use xbat_ginkgo.Base.Outcome.{Outcome, done, faults, fails}
use xbat_ginkgo.Power.{get_command_output}
use xbat_ginkgo.SystemInfo.{Document, Uts, Printed, parse_dmidecode}
use xbat_ginkgo.SystemInfo.Gather.{gather_system_info, hashable_system_info}
use xbat_ginkgo.SystemInfo.Hash.{hashable_system_info_lem}
use xbat_ginkgo.SystemInfo.Sections.{Parts, line_of, IsEntry, item_of, Filled, parse_dmidecode_lem}
use xbat_ginkgo.Text.Lines.{printed}
use xbat_ginkgo.Text.Numbers.{stoi}
use xbat_ginkgo.Text.RoundTrip.{IsField}
use xbat_ginkgo.Text.{find, split_str, join_vector, get_lines}

pub data Doc : Type 0 where
  null : Doc
  text : Bytes → Doc
  number : ℤ → Doc
  texts : List Bytes → Doc
  node : (Bytes → Bool) → (Bytes → Doc) → Doc

abbrev pub held : Doc → Bytes → Bool
held (node h v) k = h k
held null k = false
held (text s) k = false
held (number n) k = false
held (texts ss) k = false

abbrev pub value : Doc → Bytes → Doc
value (node h v) k = v k
value null k = null
value (text s) k = null
value (number n) k = null
value (texts ss) k = null

abbrev pub accepts : Doc → Bool
accepts null = true
accepts (node h v) = true
accepts (text s) = false
accepts (number n) = false
accepts (texts ss) = false

abbrev pub get_string : Doc → Option Bytes
get_string (text s) = some s
get_string null = none
get_string (number n) = none
get_string (texts ss) = none
get_string (node h v) = none

abbrev pub get : Bytes → Doc → Doc
get k j = if held j k then value j k else null

abbrev pub put : Bytes → Doc → Doc → Doc
put k v j = node (λ x. bytes_eq k x || held j x) (λ x. if bytes_eq k x then v else get x j)

abbrev pub erase : Bytes → Doc → Doc
erase k j =
    node (λ x. if bytes_eq k x then false else held j x)
      (λ x. if bytes_eq k x then null else get x j)

pub get-put : (k i : Bytes) (v j : Doc) → get i (put k v j) ≡ (if bytes_eq k i then v else get i j)
get-put k i v j = ground arith

pub put-put : (k : Bytes) (v w j : Doc) → put k w (put k v j) ≡ put k w j
put-put k v w j = ap₂ node (fun_ext (λ x. ground arith)) (fun_ext (λ x. ground arith))

pub put_comm : (k i : Bytes) (v w j : Doc) → k ≢ i → put i w (put k v j) ≡ put k v (put i w j)
put_comm k i v w j ne =
    ap₂ node (fun_ext (λ x. ground arith))
      (fun_ext (λ x. ground (arith, bytes_eq_iff k x, bytes_eq_iff i x)))

pub erase-put : (k : Bytes) (v j : Doc) → erase k (put k v j) ≡ erase k j
erase-put k v j = ap₂ node (fun_ext (λ x. ground arith)) (fun_ext (λ x. ground arith))

abbrev pub document : Document Doc
document = record {
  null = null;
  text = text;
  number = number;
  texts = texts;
  parse = λ s. none;
  get_string = get_string;
  elements = λ j. [];
  accepts = accepts;
  contains = held;
  get = get;
  put = put;
  erase = erase;
  accepts-null = refl;
  accepts-put = λ k v j. refl;
  contains-null = λ k. refl;
  contains-put = λ k i v j. refl;
  get-null = λ k. refl;
  get-put = get-put;
  put-put = put-put;
  put_comm = put_comm;
  erase-put = erase-put;
}

-- Two memory modules, of which the first one's type counts.
abbrev modules : List Parts
modules = (codes "Type", codes "DDR4" ∷ []) ∷ (codes "Type", codes "DDR5" ∷ []) ∷ []

modules-IsEntry : All IsEntry modules
unfolding join_vector
modules-IsEntry =
    let key : IsField b'=' (codes "Type") = ((λ e. cc), omega arith) in
    (
      ((key, (((λ e. cc), omega arith), tt)), omega arith),
      (((key, (((λ e. cc), omega arith), tt)), omega arith), tt),
    )

parse_dmidecode_lem_example :
    (j' : Doc) × (parse_dmidecode document (printed (map line_of modules)) null (codes "memory")
      ≡ done j')
    × Filled document (codes "memory") null (map item_of modules) j'
parse_dmidecode_lem_example =
    parse_dmidecode_lem document (codes "memory") modules null refl refl modules-IsEntry

abbrev text_at : Bytes → Bytes → Outcome Doc → Option Bytes
text_at name key (done j) = get_string (get key (get name j))
text_at name key faults = none
text_at name key fails = none

module_type :
    text_at
      (codes "memory")
      (codes "Type")
      (parse_dmidecode document (codes "Type=DDR4\nType=DDR5\nSpeed=\n") null (codes "memory"))
    ≡ some (codes "DDR4")
unfolding parse_dmidecode split_str get_lines find bytes_eq
module_type = refl

abbrev pub uts : Uts
uts = record {
  release = codes "5.14";
  version = codes "#1";
  nodename = codes "n";
  sysname = codes "Linux";
  machine = codes "x86_64";
}

abbrev pub failed : Bytes
failed = codes "#RETVAL# 1\n"

-- There is no /etc/os-release, and no other command succeeds.
abbrev pub no_os_release : Printed
no_os_release = record {
  os_release = codes "#RETVAL# 0\n";
  lscpu = failed;
  likwid_topology = failed;
  pci_devices = failed;
  bios = failed;
  system = failed;
  memory = failed;
  memory_devices = failed;
  empty_slots = failed;
}

-- No command succeeds.
abbrev pub all_failed : Printed
all_failed = record no_os_release { os_release = failed }

-- Where there is no /etc/os-release, `v[1]` is read of a vector without an element.
os_release_missing : gather_system_info document uts no_os_release ≡ faults
unfolding gather_system_info get_command_output stoi find split_str bytes_eq
os_release_missing = refl

abbrev with_os : Doc
with_os = put (codes "os") (put (codes "hostname") (text (codes "n1.local")) null) null

os_accepts : accepts (get (codes "os") with_os) ≡ true
unfolding bytes_eq
os_accepts = refl

hashable_system_info_lem_example :
    hashable_system_info document (codes "n1") (
      put
        (codes "cpu")
        (put (codes "topology") (text (codes "t")) (get (codes "cpu") with_os))
        with_os)
    ≡ done (
        put
          (codes "os")
          (erase (codes "hostname") (get (codes "os") with_os))
          (put (codes "cpu") (erase (codes "topology") (get (codes "cpu") with_os)) with_os))
hashable_system_info_lem_example =
    hashable_system_info_lem document (codes "n1") (text (codes "t")) with_os refl os_accepts
