-- ===== src/Base/Gives.antt =====
-- What holds of the value of an option, if it has one.
use mathlib.Core.Bool.{Bool, true, false}
use mathlib.Core.Option.{Option, none, some}
use mathlib.Core.Path.{◌≡◌, refl, subst}
use xbat_ginkgo.Base.Lists.{◌>>=◌}
use xbat_ginkgo.Base.Tests.{if◌then◌else◌}

-- If there is a value, it satisfies `P`.
abbrev pub Gives : {A : Type 0} → (A → Type 0) → Option A → Type 0
Gives P none = Unit
Gives P (some a) = P a

pub Gives-bind :
    {A B : Type 0} (P : B → Type 0) (m : Option A) (f : A → Option B)
    → ((a : A) → m ≡ some a → Gives P (f a))
    → Gives P (m >>= f)
Gives-bind P none f h = tt
Gives-bind P (some a) f h = h a refl

pub Gives-if :
    {A : Type 0} (P : A → Type 0) (b : Bool) (x y : Option A)
    → (b ≡ true → Gives P x)
    → (b ≡ false → Gives P y)
    → Gives P (if b then x else y)
Gives-if P true x y h h' = h refl
Gives-if P false x y h h' = h' refl

pub Gives-map :
    {A : Type 0} (P Q : A → Type 0) (m : Option A) → ((a : A) → P a → Q a) → Gives P m → Gives Q m
Gives-map P Q none f g = tt
Gives-map P Q (some a) f g = f a g

pub Gives-some : {A : Type 0} (P : A → Type 0) (m : Option A) {a : A} → Gives P m → m ≡ some a → P a
Gives-some P m g e = subst (Gives P) e g
