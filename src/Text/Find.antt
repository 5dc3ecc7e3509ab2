-- ===== src/Text/Find.antt =====
-- What `find` finds.
use xbat_ginkgo.Base.{
  ℕ, zero, suc, ◌+◌, ◌≤◌, ◌≡◌, refl, ◌≢◌, ◌⊎◌, inl, inr, true, false, [], ◌∷◌, ◌++◌, none, some,
  Bytes, arith, length, take, drop, Bool-cases, Option-cases, ==_iff,
}
use xbat_ginkgo.Text.{is_empty, is_prefix, find}

pub is_prefix_sound : (d s : Bytes) → is_prefix d s ≡ true → s ≡ d ++ drop (length d) s
unfolding is_prefix
is_prefix_sound [] s h = refl
is_prefix_sound (x ∷ d) [] h = cc
is_prefix_sound (x ∷ d) (c ∷ s) h = ground (arith, is_prefix_sound d s, ==_iff x c)

pub is_prefix-append : (d s : Bytes) → is_prefix d (d ++ s) ≡ true
unfolding is_prefix
is_prefix-append [] s = refl
is_prefix-append (x ∷ d) s = ground (arith, is_prefix-append d s)

-- A prefix stays one when the text is continued.
is_prefix-take : (d s : Bytes) (i : ℕ) → is_prefix d (take i s) ≡ true → is_prefix d s ≡ true
unfolding is_prefix
is_prefix-take [] s i h = refl
is_prefix-take (x ∷ d) s zero h = cc
is_prefix-take (x ∷ d) [] (suc i) h = cc
is_prefix-take (x ∷ d) (c ∷ s) (suc i) h = ground (arith, is_prefix-take d s i)

pub find_step :
    (d s : Bytes) (c i : ℕ)
    → find d (c ∷ s) ≡ some i
    → ((is_prefix d (c ∷ s) ≡ true) × (i ≡ 0))
      ⊎ ((is_prefix d (c ∷ s) ≡ false) × (j : ℕ) × (find d s ≡ some j) × (i ≡ suc j))
unfolding find
find_step d s c i h = elim (Bool-cases (is_prefix d (c ∷ s))) [
  | inl e ↦ inl (e, ground arith)
  | inr e ↦ elim (Option-cases (find d s)) [
    | inl n ↦ cc (rw (e, n, find) at h)
    | inr (j, f) ↦ inr (e, j, f, ground arith)
  ]
]

pub find_step_none :
    (d s : Bytes) (c : ℕ)
    → find d (c ∷ s) ≡ none
    → (is_prefix d (c ∷ s) ≡ false) × (find d s ≡ none)
unfolding find
find_step_none d s c h = elim (Bool-cases (is_prefix d (c ∷ s))) [
  | inl e ↦ cc (rw (e, find) at h)
  | inr e ↦ elim (Option-cases (find d s)) [
    | inl n ↦ (e, n)
    | inr (j, f) ↦ cc (rw (e, f, find) at h)
  ]
]

pub find_nil : (d : Bytes) (i : ℕ) → d ≢ [] → find d [] ≢ some i
unfolding find is_empty
find_nil [] i h = λ _. h refl
find_nil (x ∷ d) i h = λ e. cc

is_prefix-length : (d s : Bytes) → is_prefix d s ≡ true → length d ≤ length s
unfolding is_prefix
is_prefix-length [] s h = omega arith
is_prefix-length (x ∷ d) [] h = cc
is_prefix-length (x ∷ d) (c ∷ s) h = ground (arith, is_prefix-length d s)

-- An occurrence lies within the text.
pub find_bound : (d s : Bytes) (i : ℕ) → find d s ≡ some i → i + length d ≤ length s
find_bound [] [] i h = unfold find is_empty in ground arith
find_bound (x ∷ d) [] i h = absurd (find_nil (x ∷ d) i (λ e. cc) h)
find_bound d (c ∷ s) i h = elim (find_step d s c i h) [
  | inl (p, e) ↦ omega (arith, is_prefix-length d (c ∷ s) p)
  | inr (_, j, f, e) ↦ omega (arith, find_bound d s j f)
]

-- `find` reports the first occurrence: what precedes it holds none.
pub find-take : (d s : Bytes) (i : ℕ) → d ≢ [] → find d s ≡ some i → find d (take i s) ≡ none
find-take [] s i ne h = absurd (ne refl)
find-take (x ∷ d) [] i ne h = absurd (find_nil (x ∷ d) i ne h)
find-take (x ∷ d) (c ∷ s) i ne h = elim (find_step (x ∷ d) s c i h) [
  | inl (p, e) ↦ rw e (unfold find is_empty in refl)
  | inr (q, j, f, e) ↦ rw e (rest j q (find-take (x ∷ d) s j ne f))
]
  where
    rest :
        (j : ℕ)
        → is_prefix (x ∷ d) (c ∷ s) ≡ false
        → find (x ∷ d) (take j s) ≡ none
        → find (x ∷ d) (take (suc j) (c ∷ s)) ≡ none
    rest j q f = elim (Bool-cases (is_prefix (x ∷ d) (take (suc j) (c ∷ s)))) [
      | inl p ↦ cc (q, is_prefix-take (x ∷ d) (c ∷ s) (suc j) p)
      | inr n ↦ unfold find in rw (n, f) refl
    ]
