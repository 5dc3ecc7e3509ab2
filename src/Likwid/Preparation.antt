-- ===== src/Likwid/Preparation.antt =====
-- What prepareMeasurements prepares.
use xbat_ginkgo.Base.{
  ℕ, suc, ◌<◌, ◌≡◌, refl, ap, ◌∙◌, Bool, true, false, not, ◌&&◌, List, [], ◌∷◌, Option, some, Bytes,
  arith, length, if◌then◌else◌,
}
use xbat_ginkgo.Base.Maps.{bytes_eq, bytes_eq_iff}
use xbat_ginkgo.Base.Outcome.{
  done, Ensures, Ensures-bind, Ensures-done, Ensures-if, Ensures-or_fail,
}
use xbat_ginkgo.Likwid.{
  contains, remove, keep_available, get_available_groups, default_sets, add_event_sets, add_sets,
  Answers, Prepared, in_cpu_set, prepare_measurements,
}

contains-remove :
    (set s : Bytes) (sets : List Bytes)
    → contains s (remove set sets) ≡ (if bytes_eq set s then false else contains s sets)
unfolding contains remove
contains-remove set s [] = ground arith
contains-remove set s (t ∷ sets) =
    ground
      (arith, contains-remove set s sets, bytes_eq_iff t set, bytes_eq_iff t s, bytes_eq_iff set s)

-- A set is kept if it is available, or none of those that were looked for.
contains-keep_available :
    (available : List Bytes) (s : Bytes) (sets set_list : List Bytes)
    → contains s (keep_available available sets set_list)
      ≡ (if contains s sets && not (contains s available) then false else contains s set_list)
unfolding keep_available contains
contains-keep_available available s [] set_list = refl
contains-keep_available available s (set ∷ sets) set_list =
    let rest = if contains set available then set_list else remove set set_list in
    ground (
      arith,
      contains-keep_available available s sets rest,
      contains-remove set s set_list,
      bytes_eq_iff set s,
    )

-- Each set has the id that likwid gave to it, and there are no more ids.
abbrev pub HasIds : (Bytes → Option ℕ) → List Bytes → List ℕ → Type 0
HasIds add_set [] [] = Unit
HasIds add_set [] (gid ∷ gids) = ⊥
HasIds add_set (set ∷ sets) [] = ⊥
HasIds add_set (set ∷ sets) (gid ∷ gids) = (add_set set ≡ some gid) × HasIds add_set sets gids

add_event_sets-HasIds :
    (add_set : Bytes → Option ℕ) (sets : List Bytes)
    → Ensures (HasIds add_set sets) (add_event_sets add_set sets)
unfolding add_event_sets
add_event_sets-HasIds add_set [] = tt
add_event_sets-HasIds add_set (set ∷ sets) =
    let P = HasIds add_set (set ∷ sets) in
    Ensures-or_fail P (add_set set) _ (λ gid e.
      Ensures-bind P (add_event_sets add_set sets) _ (λ gids e'.
        (e, Ensures-done (HasIds add_set sets) _ (add_event_sets-HasIds add_set sets) e')))

length-HasIds :
    (add_set : Bytes → Option ℕ) (sets : List Bytes) (gids : List ℕ)
    → HasIds add_set sets gids
    → length gids ≡ length sets
length-HasIds add_set [] [] h = refl
length-HasIds add_set [] (gid ∷ gids) h = elim h [ ]
length-HasIds add_set (set ∷ sets) [] h = elim h [ ]
length-HasIds add_set (set ∷ sets) (gid ∷ gids) h = ap suc (length-HasIds add_set sets gids h.1)

if_not : (a b : Bool) → (if a && not b then false else a) ≡ (a && b)
if_not true true = refl
if_not true false = refl
if_not false b = refl

abbrev HasSets : (Bytes → Option ℕ) → List Bytes → Prepared → Type 0
HasSets add_set sets p =
    (0 < length p.gids) × HasIds add_set p.set_list p.gids × (p.set_list ≡ sets)

add_sets-HasSets :
    (add_set : Bytes → Option ℕ) (cpus : List ℕ) (sets : List Bytes)
    → Ensures (HasSets add_set sets) (add_sets add_set cpus sets)
unfolding add_sets
add_sets-HasSets add_set cpus [] = tt
add_sets-HasSets add_set cpus (set ∷ sets) =
    Ensures-bind (HasSets add_set (set ∷ sets)) (add_event_sets add_set (set ∷ sets)) _ (λ gids e.
      let ids =
        Ensures-done (HasIds add_set (set ∷ sets)) _ (add_event_sets-HasIds add_set (set ∷ sets))
          e in
      let same = length-HasIds add_set (set ∷ sets) gids ids in (omega (arith, same), ids, refl))

-- If `prepareMeasurements` succeeds, then there is at least one set, the sets are those of the default
-- list that likwid offers, and there are as many ids as sets: at each place the one that likwid gave
-- when the set at that place was added.
pub prepare_measurements_lem :
    (likwid : Answers) (p : Prepared)
    → prepare_measurements likwid ≡ done p
    → (0 < length p.gids)
      × (length p.gids ≡ length p.set_list)
      × HasIds likwid.add_event_set p.set_list p.gids
      × ((s : Bytes)
          → contains s p.set_list
            ≡ (contains s default_sets && contains s (get_available_groups likwid.groups)))
unfolding prepare_measurements
prepare_measurements_lem likwid p h =
    let available = get_available_groups likwid.groups in
    let sets = keep_available available default_sets default_sets in
    let P = HasSets likwid.add_event_set sets in
    let (some_gid, ids, kept) =
      Ensures-done P (prepare_measurements likwid)
        (Ensures-if P (not likwid.topology_init) _ _ (λ _. tt)
          (λ _.
            Ensures-if P (not likwid.hpm_init) _ _ (λ _. tt)
              (λ _.
                Ensures-if P (not (likwid.perfmon_init (in_cpu_set likwid.thread_pool))) _ _
                  (λ _. tt)
                  (λ _.
                    add_sets-HasSets likwid.add_event_set (in_cpu_set likwid.thread_pool) sets))))
        h in
    (
      some_gid,
      length-HasIds likwid.add_event_set p.set_list p.gids ids,
      ids,
      (λ s.
          ap (contains s) kept
          ∙ contains-keep_available available s default_sets default_sets
          ∙ if_not (contains s default_sets) (contains s available)),
    )
