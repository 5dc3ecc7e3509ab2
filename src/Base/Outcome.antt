-- ===== src/Base/Outcome.antt =====
-- The result of a function that returns 0 for success and 1 for an error, and that can also throw or
-- have undefined behaviour.
use mathlib.Core.Path.{◌≡◌, refl, subst}
use mathlib.Core.Bool.{Bool, true, false}
use mathlib.Core.Option.{Option, none, some}
use xbat_ginkgo.Base.Tests.{if◌then◌else◌}

pub data Outcome {ℓ} (A : Type ℓ) : Type ℓ where
  done : A → Outcome A
  fails : Outcome A
  faults : Outcome A

infixl 5 ◌>>=◌
abbrev pub ◌>>=◌ {ℓ κ} : {A : Type ℓ} {B : Type κ} → Outcome A → (A → Outcome B) → Outcome B
done a >>= f = f a
fails >>= f = fails
faults >>= f = faults

-- `none` is an exception, or undefined behaviour.
abbrev pub or_fault {ℓ} : {A : Type ℓ} → Option A → Outcome A
or_fault none = faults
or_fault (some a) = done a

-- `none` is an error that is reported by the return value.
abbrev pub or_fail {ℓ} : {A : Type ℓ} → Option A → Outcome A
or_fail none = fails
or_fail (some a) = done a

-- Inversion of a successful bind.
pub >>=-eq-done {ℓ κ} :
    {A : Type ℓ} {B : Type κ} (m : Outcome A) (f : A → Outcome B) {b : B}
    → (m >>= f) ≡ done b
    → (a : A) × (m ≡ done a) × (f a ≡ done b)
>>=-eq-done (done a) f h = (a, refl, h)
>>=-eq-done fails f h = cc
>>=-eq-done faults f h = cc

pub done_inj {ℓ} : {A : Type ℓ} {a b : A} → done a ≡ done b → a ≡ b
done_inj h = cc

pub done_faults {ℓ} : {A : Type ℓ} {a : A} → ¬ (done a ≡ faults)
done_faults h = cc

-- If there is a result, it satisfies `P`.
abbrev pub Ensures {ℓ κ} : {A : Type ℓ} → (A → Type κ) → Outcome A → Type κ
Ensures P (done a) = P a
Ensures P fails = Unit
Ensures P faults = Unit

pub Ensures-bind {ℓ κ μ} :
    {A : Type ℓ} {B : Type κ} (P : B → Type μ) (m : Outcome A) (f : A → Outcome B)
    → ((a : A) → m ≡ done a → Ensures P (f a))
    → Ensures P (m >>= f)
Ensures-bind P (done a) f h = h a refl
Ensures-bind P fails f h = tt
Ensures-bind P faults f h = tt

pub Ensures-done {ℓ κ} :
    {A : Type ℓ} (P : A → Type κ) (m : Outcome A) {a : A} → Ensures P m → m ≡ done a → P a
Ensures-done P m h e = subst (Ensures P) e h

pub Ensures-map {ℓ κ μ} :
    {A : Type ℓ} (P : A → Type κ) (Q : A → Type μ) (m : Outcome A)
    → ((a : A) → P a → Q a)
    → Ensures P m
    → Ensures Q m
Ensures-map P Q (done a) f h = f a h
Ensures-map P Q fails f h = tt
Ensures-map P Q faults f h = tt

pub Ensures-if {ℓ κ} :
    {A : Type ℓ} (P : A → Type κ) (b : Bool) (x y : Outcome A)
    → (b ≡ true → Ensures P x)
    → (b ≡ false → Ensures P y)
    → Ensures P (if b then x else y)
Ensures-if P true x y h h' = h refl
Ensures-if P false x y h h' = h' refl

-- The rules for a test of an option, and for its value.
pub Ensures-elim {ℓ κ μ} :
    {A : Type ℓ} {B : Type κ} (P : B → Type μ) (o : Option A) (x : Outcome B) (f : A → Outcome B)
    → (o ≡ none → Ensures P x)
    → ((a : A) → o ≡ some a → Ensures P (f a))
    → Ensures P (elim o [ none ↦ x | some a ↦ f a ])
Ensures-elim P none x f h h' = h refl
Ensures-elim P (some a) x f h h' = h' a refl

pub Ensures-or_fault {ℓ κ μ} :
    {A : Type ℓ} {B : Type κ} (P : B → Type μ) (o : Option A) (f : A → Outcome B)
    → ((a : A) → o ≡ some a → Ensures P (f a))
    → Ensures P (or_fault o >>= f)
Ensures-or_fault P none f h = tt
Ensures-or_fault P (some a) f h = h a refl

pub Ensures-or_fail {ℓ κ μ} :
    {A : Type ℓ} {B : Type κ} (P : B → Type μ) (o : Option A) (f : A → Outcome B)
    → ((a : A) → o ≡ some a → Ensures P (f a))
    → Ensures P (or_fail o >>= f)
Ensures-or_fail P none f h = tt
Ensures-or_fail P (some a) f h = h a refl
