-- ===== src/Gpu/Reports.antt =====
-- The end of `collect` in CNvidiaGPU and CAMDGPU.
use xbat_ginkgo.Base.{
  ℕ, ◌<◌, ◌≡◌, ◌↔◌, refl, List, [], ◌∷◌, ◌++◌, map, Option, none, some, All, All-append,
}
use xbat_ginkgo.Base.Int.{ℤ}
use xbat_ginkgo.Base.Outcome.{fails, Ensures}
use xbat_ginkgo.Gpu.{device_tags, answered, push_all}
use xbat_ginkgo.Queue.{Ilp, Entry, int64, double, IsAt}

-- Stamped with `ts`, and tagged with the number of one of the first `n` devices.
abbrev pub IsPoint {ℓ} : {T : Type ℓ} → ℕ → ℕ → Ilp T → Type 0
IsPoint n ts x = (x.ts ≡ ts) × (i : ℕ) × (i < n) × (x.tags ≡ device_tags i)

abbrev pub IsReport {ℓ} : {W : Type ℓ} → ℕ → ℕ → Entry W → Type 0
IsReport n ts (int64 x) = IsPoint n ts x
IsReport n ts (double x) = IsPoint n ts x

module _ {A : Type 0} (P : A → Type 0) where
  pub answered-All :
      {C : Type 0} (o : Option C) (add : C → List A)
      → ((c : C) → All P (add c))
      → All P (answered o add)
  answered-All none add h = tt
  answered-All (some c) add h = h c

  All-map :
      {B : Type 0} (Q : B → Type 0) (f : A → B)
      → ((a : A) → P a → Q (f a))
      → (xs : List A) → All P xs
      → All Q (map f xs)
  All-map Q f h [] at = tt
  All-map Q f h (x ∷ xs) (p, at) = (h x p, All-map Q f h xs at)

module _ {W : Type 0} where
  pub push_all_lem :
      (n ts : ℕ) (ints : List (Ilp ℤ)) (doubles : List (Ilp W))
      → All (IsPoint n ts) ints
      → All (IsPoint n ts) doubles
      → Ensures (All (IsReport n ts)) (push_all ints doubles)
  unfolding push_all
  push_all_lem n ts [] [] at at' = tt
  push_all_lem n ts (i ∷ ints) doubles at at' =
      All-append (IsReport n ts) (map int64 (i ∷ ints)) (map double doubles)
        (All-map (IsPoint n ts) (IsReport n ts) int64 (λ x p. p) (i ∷ ints) at)
        (All-map (IsPoint n ts) (IsReport n ts) double (λ x p. p) doubles at')
  push_all_lem n ts [] (x ∷ doubles) at at' =
      All-map (IsPoint n ts) (IsReport n ts) double (λ x p. p) (x ∷ doubles) at'

  pub IsReport-IsAt : (n ts : ℕ) (es : List (Entry W)) → All (IsReport n ts) es → All (IsAt ts) es
  IsReport-IsAt n ts [] at = tt
  IsReport-IsAt n ts (int64 x ∷ es) ((e, _, _, _), at) = (e, IsReport-IsAt n ts es at)
  IsReport-IsAt n ts (double x ∷ es) ((e, _, _, _), at) = (e, IsReport-IsAt n ts es at)

  -- Nothing to push is an error.
  pub push_all_fails_iff :
      (ints : List (Ilp ℤ)) (doubles : List (Ilp W))
      → (push_all ints doubles ≡ fails) ↔ ((ints ≡ []) × (doubles ≡ []))
  unfolding push_all
  push_all_fails_iff [] [] = ((λ _. (refl, refl)), (λ _. refl))
  push_all_fails_iff (i ∷ ints) doubles = ((λ h. cc), (λ h. cc))
  push_all_fails_iff [] (x ∷ doubles) = ((λ h. cc), (λ h. cc))

pub append_nil_iff {ℓ} : {A : Type ℓ} (xs ys : List A) → ((xs ++ ys) ≡ []) ↔ ((xs ≡ []) × (ys ≡ []))
append_nil_iff [] ys = ((λ h. (refl, h)), (λ (e, h). h))
append_nil_iff (x ∷ xs) ys = ((λ h. cc), (λ h. cc))
