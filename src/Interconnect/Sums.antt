-- ===== src/Interconnect/Sums.antt =====
-- That the counters of all adapters and ports are added up.
use native.Mathlib.Nat.{zero-add}
use xbat_ginkgo.Base.{
  ℕ, ◌+◌, ◌%◌, ◌^◌, ◌≡◌, refl, ap, ◌∙◌, inl, inr, false, List, [], ◌∷◌, Option, none, some, Bytes,
  arith, if◌then◌else◌, Bool-cases, Option-cases,
}
use xbat_ginkgo.Base.Maps.{lookup, lookup_or, lookup-insert, bytes_key, bytes_eq, bytes_eq_iff}
use xbat_ginkgo.Base.Outcome.{Outcome, done, fails, faults, ◌>>=◌, Ensures, Ensures-done}
use xbat_ginkgo.Interconnect.{
  Reading, CounterDir, Adapters, accumulate, add_file, add_counters, add_ports, add_devices,
  read_infiniband, metric_counters,
}
use xbat_ginkgo.Text.{trim_whitespaces}
use xbat_ginkgo.Text.Numbers.{stoull}

-- The number in a file: 0 if it does not exist.
abbrev pub number_in : Option (Option Bytes) → ℕ
number_in none = 0
number_in (some none) = 0
number_in (some (some content)) = elim (stoull (trim_whitespaces content false)) [
  | none ↦ 0
  | some v ↦ v
]

-- The sum of the counters called `n` among `names` in one directory.
sum_counters : Bytes → List Bytes → CounterDir → ℕ
sum_counters n [] dir = 0
sum_counters n (name ∷ names) dir =
    (if bytes_eq name n then number_in (lookup name dir) else 0) + sum_counters n names dir

sum_ports : Bytes → List (Option CounterDir) → ℕ
unfolding sum_counters
sum_ports n [] = 0
sum_ports n (none ∷ ports) = sum_ports n ports
sum_ports n (some dir ∷ ports) = sum_counters n metric_counters dir + sum_ports n ports

pub sum_devices : Bytes → Adapters → ℕ
unfolding sum_ports
sum_devices n [] = 0
sum_devices n (none ∷ devices) = sum_devices n devices
sum_devices n (some ports ∷ devices) = sum_ports n ports + sum_devices n devices

lookup-accumulate :
    (n name : Bytes) (v : ℕ) (r : Reading)
    → lookup_or 0 n (accumulate name v r)
      ≡ (if bytes_eq name n then (lookup_or 0 n r + v) % 2 ^ 64 else lookup_or 0 n r)
unfolding accumulate lookup_or
lookup-accumulate n name v r =
    rw (lookup-insert name n ((lookup_or 0 name r + v) % 2 ^ 64) r, accumulate, lookup_or)
      (elim (Bool-cases (bytes_eq name n)) [
        | inl same ↦ rw (same, (bytes_eq_iff name n).0 same) refl
        | inr other ↦ rw other refl
      ])

-- The counter called `n` has grown by `a`, modulo 2^64.
abbrev Adds : Bytes → ℕ → Reading → Reading → Type 0
Adds n a r r' = lookup_or 0 n r' % 2 ^ 64 ≡ (lookup_or 0 n r + a) % 2 ^ 64

Adds-trans :
    (n : Bytes) (a b : ℕ) (r r' r'' : Reading)
    → Adds n a r r'
    → Adds n b r' r''
    → Adds n (a + b) r r''
Adds-trans n a b r r' r'' h h' = omega (arith, h, h')

Adds-bind :
    (n : Bytes) (a b : ℕ) (r : Reading) (m : Outcome Reading) (f : Reading → Outcome Reading)
    → Ensures (Adds n a r) m
    → ((r' : Reading) → Ensures (Adds n b r') (f r'))
    → Ensures (Adds n (a + b) r) (m >>= f)
Adds-bind n a b r (done r') f h h' = go (f r') (h' r')
  where
    go : (o : Outcome Reading) → Ensures (Adds n b r') o → Ensures (Adds n (a + b) r) o
    go (done r'') e = Adds-trans n a b r r' r'' h e
    go fails e = tt
    go faults e = tt
Adds-bind n a b r fails f h h' = tt
Adds-bind n a b r faults f h h' = tt

Adds-zero : (n : Bytes) (r : Reading) → Adds n 0 r r
Adds-zero n r = omega arith

add_file_lem :
    (n name : Bytes) (file : Option (Option Bytes)) (r : Reading)
    → Ensures (Adds n (if bytes_eq name n then number_in file else 0) r) (add_file name file r)
unfolding add_file
add_file_lem n name none r = ground arith
add_file_lem n name (some none) r = tt
add_file_lem n name (some (some content)) r =
    elim (Option-cases (stoull (trim_whitespaces content false))) [
      | inl e ↦ rw e tt
      | inr (v, e) ↦ rw e (rw (lookup-accumulate n name v r) (ground arith))
    ]

add_counters_lem :
    (n : Bytes) (names : List Bytes) (dir : CounterDir) (r : Reading)
    → Ensures (Adds n (sum_counters n names dir) r) (add_counters names dir r)
unfolding add_counters sum_counters
add_counters_lem n [] dir r = Adds-zero n r
add_counters_lem n (name ∷ names) dir r =
    Adds-bind n _ _ r _ _ (add_file_lem n name (lookup name dir) r)
      (λ r'. add_counters_lem n names dir r')

add_ports_lem :
    (n : Bytes) (ports : List (Option CounterDir)) (r : Reading)
    → Ensures (Adds n (sum_ports n ports) r) (add_ports ports r)
unfolding add_ports sum_ports
add_ports_lem n [] r = Adds-zero n r
add_ports_lem n (none ∷ ports) r = add_ports_lem n ports r
add_ports_lem n (some dir ∷ ports) r =
    Adds-bind n _ _ r _ _ (add_counters_lem n metric_counters dir r)
      (λ r'. add_ports_lem n ports r')

add_devices_lem :
    (n : Bytes) (devices : Adapters) (r : Reading)
    → Ensures (Adds n (sum_devices n devices) r) (add_devices devices r)
unfolding add_devices sum_devices
add_devices_lem n [] r = Adds-zero n r
add_devices_lem n (none ∷ devices) r = add_devices_lem n devices r
add_devices_lem n (some ports ∷ devices) r =
    Adds-bind n _ _ r _ _ (add_ports_lem n ports r) (λ r'. add_devices_lem n devices r')

-- If `readInfiniband` succeeds, the reading holds for each counter the sum of its files over all
-- ports of all devices, modulo 2^64; a file that does not exist counts as 0.
pub read_infiniband_lem :
    (n : Bytes) (devices : Adapters) (results : Reading)
    → read_infiniband (some devices) ≡ done results
    → lookup_or 0 n results % 2 ^ 64 ≡ sum_devices n devices % 2 ^ 64
unfolding read_infiniband lookup_or
read_infiniband_lem n devices results h =
    let adds : Adds n (sum_devices n devices) [] results =
      Ensures-done (Adds n (sum_devices n devices) []) _ (add_devices_lem n devices []) h in
    adds ∙ ap (λ x. x % 2 ^ 64) (zero-add (sum_devices n devices))
