-- ===== src/Tests/LoggingTests.antt =====
-- The logger with attributes that are a function from names to values, found by their names.
use mathlib.Core.Path.{fun_ext}
use xbat_ginkgo.Base.{
  ◌≡◌, refl, true, false, List, [], ◌∷◌, map, Option, none, some, Bytes, codes, arith,
  if◌then◌else◌, ap,
}
use xbat_ginkgo.Base.Maps.{bytes_eq, bytes_eq_iff}
use xbat_ginkgo.Base.Outcome.{done, faults}
use xbat_ginkgo.Logging.{info, warning, error, Attributes, Logger, log_run, log_all, format, passes}
use xbat_ginkgo.Logging.Calls.{Line, call_for, record_for, log_all_lem}
use xbat_ginkgo.Logging.Order.{record_as, overlapping_calls_fault}

abbrev Named : Type 0
Named = Bytes → Option Bytes

abbrev value_at : Bytes → Named → Option Bytes
value_at k s = s k

abbrev with : Bytes → Option Bytes → Named → Named
with k v s = λ x. if bytes_eq k x then v else s x

abbrev add_attribute : Bytes → Bytes → Named → Named × Bytes
add_attribute k v s = ((elim (s k) [ none ↦ with k (some v) s | some w ↦ s ]), k)

abbrev remove_attribute : Bytes → Named → Option Named
remove_attribute k s = elim (s k) [ none ↦ none | some v ↦ some (with k none s) ]

self : (k : Bytes) → bytes_eq k k ≡ true
self k = (bytes_eq_iff k k).1 refl

add_attribute_new :
    (k v : Bytes) (s : Named) → value_at k s ≡ none → value_at k (add_attribute k v s).0 ≡ some v
add_attribute_new k v s e = rw (e, self k) refl

remove_attribute-add_attribute :
    (k v : Bytes) (s : Named)
    → value_at k s ≡ none
    → remove_attribute (add_attribute k v s).1 (add_attribute k v s).0 ≡ some s
remove_attribute-add_attribute k v s e =
    rw (e, self k) (ap some (fun_ext (λ x. ground (arith, bytes_eq_iff k x, e))))

abbrev named : Attributes Named Bytes
named = record {
  value_at = value_at;
  add_attribute = add_attribute;
  remove_attribute = remove_attribute;
  add_attribute_new = add_attribute_new;
  add_attribute_old = λ k v w s e. rw e refl;
  add_attribute_again = λ k v w s e. refl;
  remove_attribute-add_attribute = remove_attribute-add_attribute;
  remove_attribute_again = λ k v s e. rw (e, remove_attribute) refl;
}

abbrev no_attributes : Named
no_attributes k = none

abbrev empty : Logger Named Bytes
empty = record { attributes = no_attributes; calls = []; records = [] }

abbrev lines : List Line
lines =
    (none, codes "main", info, codes "Started")
    ∷ (some (codes "cpu"), codes "DbWriter", error, codes "Database Error - refused")
    ∷ []

log_all_lem_example :
    log_all named (map call_for lines) empty
    ≡ done (record empty { records = map record_for lines })
log_all_lem_example = log_all_lem named lines empty refl

abbrev main_line : Line
main_line = (none, codes "main", info, codes "Started")

abbrev writer_line : Line
writer_line = (some (codes "DbWriter"), codes "DbWriter", error, codes "refused")

abbrev busy : Logger Named Bytes
busy = record {
  attributes = no_attributes;
  calls = call_for main_line ∷ call_for writer_line ∷ [];
  records = record_for main_line ∷ [];
}

overlapping_calls_fault_example :
    (l' : Logger Named Bytes) × (log_run named (0 ∷ 1 ∷ 1 ∷ 0 ∷ []) busy ≡ done l')
    × (l'.records
        ≡ record_for main_line ∷ record_as (codes "main") writer_line ∷ record_for main_line ∷ [])
    × (log_run named (0 ∷ 1 ∷ []) l' ≡ faults)
overlapping_calls_fault_example =
    overlapping_calls_fault named busy main_line writer_line [] false true refl refl

format_test :
    format (codes "T") (record_for (none, codes "main", info, codes "Started"))
    ≡ codes "[T][info][main]: Started"
unfolding format
format_test = refl

debug_test : passes warning (record_for (none, codes "main", info, codes "Started")) ≡ false
unfolding passes
debug_test = refl
