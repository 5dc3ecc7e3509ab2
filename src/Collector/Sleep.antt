-- ===== src/Collector/Sleep.antt =====
-- How long `sleepMillisecondsAndCheck` sleeps.
use native.Mathlib.Nat.{add-zero, zero-add}
use xbat_ginkgo.Base.{
  sym, ap, subst, ◌∙◌, ℕ, zero, suc, ◌+◌, ◌-◌, ◌*◌, ◌/◌, ◌≤◌, ◌<◌, ◌≡◌, refl, ◌⊎◌, inl, inr, Bool,
  true, false, some, arith, ltb, Bool-cases,
}
use xbat_ginkgo.Base.Int.{pos}
use xbat_ginkgo.Collector.{sleep_loop, sleep_milliseconds_and_check}

-- What a sleep of `left` milliseconds does that begins with the i-th test of the flag: it never
-- exceeds `left`; it falls short only if a test after whole seconds saw the flag; and it ends at
-- the first test that sees the flag.
pub record Sleeps (terminate : ℕ → Bool) (i left slept : ℕ) : Type 0 where
  pub within : slept ≤ left
  pub ended : (slept ≡ left) ⊎ ((j : ℕ) × (slept ≡ 1000 * j) × (terminate (i + j) ≡ true))
  pub cut : (k : ℕ) → terminate (i + k) ≡ true → slept ≤ 1000 * k

later : (terminate : ℕ → Bool) (i k : ℕ) → terminate i ≡ false → terminate (i + k) ≡ true → 0 < k
later terminate i zero no_flag flag = cc (no_flag, flag, ap terminate (add-zero i))
later terminate i (suc k) _ _ = omega arith

-- One whole second, and then the rest.
Sleeps-more :
    (terminate : ℕ → Bool) (i left slept : ℕ)
    → terminate i ≡ false
    → 1000 ≤ left
    → Sleeps terminate (i + 1) (left - 1000) slept
    → Sleeps terminate i left (1000 + slept)
Sleeps-more terminate i left slept off long s = record {
  within = omega (arith, s.within);
  ended = elim s.ended [
    | inl e ↦ inl (omega arith)
    | inr (j, e, flag) ↦
        inr (suc j, omega arith, (subst (λ n. terminate n ≡ true) (omega arith) flag))
  ];
  cut = cut;
}
  where
    cut : (k : ℕ) → terminate (i + k) ≡ true → 1000 + slept ≤ 1000 * k
    cut zero flag = cc (off, flag, ap terminate (add-zero i))
    cut (suc k) flag =
        let shifted : i + suc k ≡ i + 1 + k = omega arith in
        omega (arith, s.cut k (subst (λ n. terminate n ≡ true) shifted flag))

loop_lem :
    (fuel : ℕ) (terminate : ℕ → Bool) (i left slept : ℕ)
    → left / 1000 < fuel
    → (t : ℕ) × (sleep_loop fuel terminate i left slept ≡ some (slept + t))
      × Sleeps terminate i left t
unfolding sleep_loop
loop_lem zero terminate i left slept h = absurd (omega arith)
loop_lem (suc fuel) terminate i left slept h = elim (Bool-cases (ltb 0 left)) [
  | inr none_left ↦ (
    0,
    ground arith,
    record { within = omega arith; ended = inl (ground arith); cut = λ k _. omega arith },
  )
  | inl some_left ↦ elim (Bool-cases (terminate i)) [
    | inl flag ↦ (
      0,
      ground arith,
      record {
        within = omega arith;
        ended = inr (0, refl, subst (λ n. terminate n ≡ true) (sym (add-zero i)) flag);
        cut = λ k _. omega arith;
      },
    )
    | inr off ↦ elim (Bool-cases (ltb left 1000)) [
      | inl short ↦ (
        left,
        ground arith,
        record {
          within = omega arith;
          ended = inl refl;
          cut = λ k flag. ground (arith, later terminate i k off flag);
        },
      )
      | inr long ↦
          let (t, e, s) =
            loop_lem fuel terminate (i + 1) (left - 1000) (slept + 1000) (ground arith) in
          (1000 + t, ground arith, Sleeps-more terminate i left t off (ground arith) s)
    ]
  ]
]

-- A sleep of `n` milliseconds always ends, whenever `terminate` is set. It lasts at most `n`; it
-- lasts exactly `n` unless a test of the flag after a whole number of seconds stopped it; and a
-- flag seen by the k-th test ends it within k seconds.
pub sleep_milliseconds_and_check_lem :
    (terminate : ℕ → Bool) (n : ℕ)
    → (t : ℕ) × (sleep_milliseconds_and_check terminate (pos n) ≡ some t) × Sleeps terminate 0 n t
unfolding sleep_milliseconds_and_check
sleep_milliseconds_and_check_lem terminate n =
    let (t, e, s) = loop_lem (n / 1000 + 1) terminate 0 n 0 (omega arith) in
    (t, e ∙ ap some (zero-add t), s)
