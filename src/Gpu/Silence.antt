-- ===== src/Gpu/Silence.antt =====
-- When `collect` of CNvidiaGPU reports an error.
use xbat_ginkgo.Base.{
  ℕ, ◌+◌, ◌≡◌, ◌↔◌, refl, Bool, true, false, List, [], ◌∷◌, ◌++◌, Option, none, some, Bytes, All,
}
use xbat_ginkgo.Base.Float.{Double}
use xbat_ginkgo.Base.Int.{ℤ}
use xbat_ginkgo.Base.Outcome.{fails}
use xbat_ginkgo.Gpu.{answered}
use xbat_ginkgo.Gpu.Nvidia.{
  Device, ClockType, graphics, mem, sm, video, clock_types, clock_points, int_points, double_points,
  managed, unless_mig, memory_points, usage_point, collect_devices, collect,
}
use xbat_ginkgo.Gpu.Reports.{push_all_fails_iff, append_nil_iff}
use xbat_ginkgo.Queue.{Ilp}

-- NVML answers none of the calls that are made for the device.
abbrev pub IsSilent : Device → Type 0
IsSilent v =
    (v.fb ≡ none)
    × (v.bar1 ≡ none)
    × (v.pstate ≡ none)
    × ((t : ClockType) → v.clock t ≡ none)
    × (v.power_enabled ≡ some true → (v.power ≡ none) × (v.limit ≡ none))
    × (v.mig_enabled ≡ false → (v.util ≡ none) × (v.encoder ≡ none) × (v.decoder ≡ none))

module _ {A : Type 0} where
  answered_nil :
      {C : Type 0} (o : Option C) (add : C → List A)
      → answered o add ≡ []
      → ((c : C) → ¬ (add c ≡ []))
      → o ≡ none
  answered_nil none add h some_added = refl
  answered_nil (some c) add h some_added = absurd (some_added c h)

  cons_nil : {x : A} {xs : List A} → ¬ (x ∷ xs ≡ [])
  cons_nil h = cc

  managed_nil :
      {C : Type 0} (mode : Option Bool) (o : Option C) (add : C → List A)
      → managed mode (answered o add) ≡ []
      → ((c : C) → ¬ (add c ≡ []))
      → mode ≡ some true
      → o ≡ none
  managed_nil none o add h some_added on = cc
  managed_nil (some false) o add h some_added on = cc
  managed_nil (some true) o add h some_added on = answered_nil o add h some_added

  managed_silent :
      {C : Type 0} (mode : Option Bool) (o : Option C) (add : C → List A)
      → (mode ≡ some true → o ≡ none)
      → managed mode (answered o add) ≡ []
  managed_silent none o add h = refl
  managed_silent (some false) o add h = refl
  managed_silent (some true) o add h = rw (h refl) refl

  unless_mig_nil :
      {C : Type 0} (mig : Bool) (o : Option C) (add : C → List A)
      → unless_mig mig (answered o add) ≡ []
      → ((c : C) → ¬ (add c ≡ []))
      → mig ≡ false
      → o ≡ none
  unless_mig_nil true o add h some_added off = cc
  unless_mig_nil false o add h some_added off = answered_nil o add h some_added

  unless_mig_silent :
      {C : Type 0} (mig : Bool) (o : Option C) (add : C → List A)
      → (mig ≡ false → o ≡ none)
      → unless_mig mig (answered o add) ≡ []
  unless_mig_silent true o add h = refl
  unless_mig_silent false o add h = rw (h refl) refl

clock_points_nil :
    (i ts : ℕ) (clock : ClockType → Option ℕ) (types : List (Bytes × ClockType))
    → clock_points i ts clock types ≡ []
    → All (λ (_, t). clock t ≡ none) types
unfolding clock_points
clock_points_nil i ts clock [] h = tt
clock_points_nil i ts clock ((name, t) ∷ types) h =
    let (e, h') = (append_nil_iff _ _).0 h in
    (answered_nil (clock t) _ e (λ c. cons_nil), clock_points_nil i ts clock types h')

int_points_nil :
    (i ts : ℕ) (v : Device)
    → int_points i ts v ≡ []
    → (v.fb ≡ none)
      × (v.bar1 ≡ none)
      × (v.pstate ≡ none)
      × ((t : ClockType) → v.clock t ≡ none)
      × (v.power_enabled ≡ some true → v.limit ≡ none)
unfolding int_points memory_points
int_points_nil i ts v h =
    let (h₁, rest₁) = (append_nil_iff _ _).0 h in
    let (h₂, rest₂) = (append_nil_iff _ _).0 rest₁ in
    let (h₃, rest₃) = (append_nil_iff _ _).0 rest₂ in
    let (h₄, rest₄) = (append_nil_iff _ _).0 rest₃ in
    let (c₁, (c₂, (c₃, (c₄, _)))) = clock_points_nil i ts v.clock clock_types rest₄ in
    (
      answered_nil v.fb _ h₁ (λ c. cons_nil),
      answered_nil v.bar1 _ h₂ (λ c. cons_nil),
      answered_nil v.pstate _ h₃ (λ c. cons_nil),
      (λ t. elim t as (λ t. v.clock t ≡ none) [ graphics ↦ c₁ | mem ↦ c₂ | sm ↦ c₃ | video ↦ c₄ ]),
      managed_nil v.power_enabled v.limit _ h₄ (λ c. cons_nil),
    )

int_points-silent : (i ts : ℕ) (v : Device) → IsSilent v → int_points i ts v ≡ []
unfolding int_points clock_points
int_points-silent i ts v (fb, bar1, pstate, clock, power, _) =
    rw
      (
        fb,
        bar1,
        pstate,
        clock graphics,
        clock mem,
        clock sm,
        clock video,
        managed_silent v.power_enabled v.limit _ (λ on. (power on).1),
      )
      refl

module _ {W : Type 0} ⦃d : Double W⦄ where
  double_points_nil :
      (i ts : ℕ) (v : Device)
      → double_points {W = W} i ts v ≡ []
      → (v.power_enabled ≡ some true → v.power ≡ none)
        × (v.mig_enabled ≡ false → (v.util ≡ none) × (v.encoder ≡ none) × (v.decoder ≡ none))
  unfolding double_points
  double_points_nil i ts v h =
      let (_, rest₁) = (append_nil_iff _ _).0 h in
      let (_, rest₂) = (append_nil_iff _ _).0 rest₁ in
      let (h₃, rest₃) = (append_nil_iff _ _).0 rest₂ in
      let (h₄, rest₄) = (append_nil_iff _ _).0 rest₃ in
      let (h₅, h₆) = (append_nil_iff _ _).0 rest₄ in
      let power = managed_nil v.power_enabled v.power _ h₄ (λ c. cons_nil) in
      let util = unless_mig_nil v.mig_enabled v.util _ h₃ (λ c. cons_nil) in
      let encoder = unless_mig_nil v.mig_enabled v.encoder _ h₅ (λ c. cons_nil) in
      let decoder = unless_mig_nil v.mig_enabled v.decoder _ h₆ (λ c. cons_nil) in
      (power, (λ off. (util off, encoder off, decoder off)))

  double_points-silent : (i ts : ℕ) (v : Device) → IsSilent v → double_points {W = W} i ts v ≡ []
  unfolding double_points usage_point
  double_points-silent i ts v (fb, bar1, _, _, power, usage) =
      rw
        (
          fb,
          bar1,
          managed_silent v.power_enabled v.power _ (λ on. (power on).0),
          unless_mig_silent v.mig_enabled v.util _ (λ off. (usage off).0),
          unless_mig_silent v.mig_enabled v.encoder _ (λ off. (usage off).1),
          unless_mig_silent v.mig_enabled v.decoder _ (λ off. (usage off).2),
        )
        refl

  collect_devices_fails_iff :
      (i ts : ℕ) (devices : List Device) (ints : List (Ilp ℤ)) (doubles : List (Ilp W))
      → (collect_devices i ts devices ints doubles ≡ fails)
        ↔ ((ints ≡ []) × (doubles ≡ []) × All IsSilent devices)
  unfolding collect_devices
  collect_devices_fails_iff i ts [] ints doubles =
      let (split, join) = push_all_fails_iff ints doubles in
      ((λ h. let (a, b) = split h in (a, b, tt)), (λ (a, b, _). join (a, b)))
  collect_devices_fails_iff i ts (v ∷ devices) ints doubles =
      let (split, join) =
        collect_devices_fails_iff (i + 1) ts devices (ints ++ int_points i ts v)
          (doubles ++ double_points i ts v) in
      (
        (λ h.
            let (a, b, silent) = split h in
            let (none_before, none_added) = (append_nil_iff ints _).0 a in
            let (none_before', none_added') = (append_nil_iff doubles _).0 b in
            let (fb, bar1, pstate, clock, limit) = int_points_nil i ts v none_added in
            let (power, usage) = double_points_nil i ts v none_added' in
            (
              none_before,
              none_before',
              ((fb, bar1, pstate, clock, (λ on. (power on, limit on)), usage), silent),
            )),
        (λ (a, b, (silent, silents)). join (
          (append_nil_iff ints _).1 (a, int_points-silent i ts v silent),
          (append_nil_iff doubles _).1 (b, double_points-silent i ts v silent),
          silents,
        )),
      )

  -- `CNvidiaGPU::collect` reports an error exactly if NVML answers none of the calls for any device:
  -- memory, state and clocks of every device, its power only where power management is on, and its
  -- utilisation only where it is not split into instances.
  pub collect_fails_iff :
      (ts : ℕ) (devices : List Device) → (collect {W = W} ts devices ≡ fails) ↔ All IsSilent devices
  unfolding collect
  collect_fails_iff ts devices =
      let (split, join) = collect_devices_fails_iff 0 ts devices [] [] in
      ((λ h. let (_, _, silent) = split h in silent), (λ silent. join (refl, refl, silent)))
