-- ===== src/Cpu/Usage.antt =====
-- What `calculateUsage` pushes.
use xbat_ginkgo.Base.{
  ℕ, ◌+◌, ◌*◌, ◌≡◌, refl, ◌∙◌, sym, List, [], ◌∷◌, ◌++◌, none, arith, length, length-append, All,
  All-append, Bytes,
}
use xbat_ginkgo.Base.Float.{Double}
use xbat_ginkgo.Base.Maps.{lookup, lookup_or, bytes_key}
use xbat_ginkgo.Base.Outcome.{done, faults, >>=-eq-done, done_inj, done_faults}
use xbat_ginkgo.Queue.{Entry, Tags, IsAt}
use xbat_ginkgo.Cpu.{
  Threads, Reading, Counters, subtract, counters, cpu_tags, entries_of, usage_loop, calculate_usage,
}

subtract_missing :
    (key : Bytes) (v : ℕ) (vs : List ℕ) (previous : Reading)
    → lookup key previous ≡ none
    → subtract (v ∷ vs) (lookup_or [] key previous) ≡ faults
unfolding subtract lookup_or
subtract_missing key v vs previous h = rw (h, lookup_or, subtract) refl

module _ {W : Type 0} ⦃d : Double W⦄ where
  entries_of_lem :
      (ts : ℕ) (tags : Tags) (c : Counters) (es : List (Entry W))
      → es ≡ entries_of ts tags c
      → (length es ≡ 6) × All (IsAt ts) es
  unfolding entries_of
  entries_of_lem ts tags c es h = rw h (refl, (refl, (refl, (refl, (refl, (refl, (refl, tt)))))))

  -- A successful round adds the entries of one CPU.
  usage_step :
      (topology : Threads) (ts : ℕ) (previous current : Reading) (key : Bytes) (values : List ℕ)
      (ilps es : List (Entry W))
      → usage_loop topology ts previous ((key, values) ∷ current) ilps ≡ done es
      → (tags : Tags) × (c : Counters) × (usage_loop topology ts previous current
            (ilps ++ entries_of ts tags c)
          ≡ done es)
  unfolding usage_loop
  usage_step topology ts previous current key values ilps es h =
      let (differences, _, h₁) = >>=-eq-done (subtract values (lookup_or [] key previous)) _ h in
      let (c, _, h₂) = >>=-eq-done (counters differences) _ h₁ in
      let (tags, _, h₃) = >>=-eq-done (cpu_tags topology key) _ h₂ in (tags, c, h₃)

  usage_loop_lem :
      (topology : Threads) (ts : ℕ) (previous current : Reading) (ilps es : List (Entry W))
      → usage_loop topology ts previous current ilps ≡ done es
      → All (IsAt ts) ilps
      → (length es ≡ length ilps + 6 * length current) × All (IsAt ts) es
  usage_loop_lem topology ts previous [] ilps es h at =
      let same : ilps ≡ es = done_inj (unfold usage_loop in h) in rw (← same) (omega arith, at)
  usage_loop_lem topology ts previous ((key, values) ∷ current) ilps es h at =
      let (tags, c, h') = usage_step topology ts previous current key values ilps es h in
      let (six, new) = entries_of_lem ts tags c _ refl in
      let (count, all) =
        usage_loop_lem topology ts previous current (ilps ++ entries_of ts tags c) es h'
          (All-append (IsAt ts) ilps (entries_of ts tags c) at new) in
      (omega (arith, count, six, length-append ilps (entries_of {W = W} ts tags c)), all)

  -- If `calculateUsage` succeeds it pushes six data points for each CPU of the second reading, all
  -- with the time stamp of the interval's end.
  pub calculate_usage_lem :
      (topology : Threads) (ts : ℕ) (previous current : Reading) (es : List (Entry W))
      → calculate_usage topology ts previous current ≡ done es
      → (length es ≡ 6 * length current) × All (IsAt ts) es
  unfolding calculate_usage
  calculate_usage_lem topology ts previous current es h =
      let (count, all) = usage_loop_lem topology ts previous current [] es h tt in
      (omega (arith, count), all)

  usage_loop_missing :
      (topology : Threads) (ts : ℕ) (previous pre post : Reading) (key : Bytes) (v : ℕ)
      (vs : List ℕ) (ilps es : List (Entry W))
      → lookup key previous ≡ none
      → ¬ (usage_loop topology ts previous (pre ++ (key, v ∷ vs) ∷ post) ilps ≡ done es)
  unfolding usage_loop
  usage_loop_missing topology ts previous [] post key v vs ilps es h r =
      let (differences, h₁, _) = >>=-eq-done (subtract (v ∷ vs) (lookup_or [] key previous)) _ r in
      done_faults (sym h₁ ∙ subtract_missing key v vs previous h)
  usage_loop_missing topology ts previous ((k, values) ∷ pre) post key v vs ilps es h r =
      let (tags, c, r') = usage_step topology ts previous _ k values ilps es r in
      usage_loop_missing topology ts previous pre post key v vs _ es h r'

  -- If a CPU of the second reading has a value and is missing in the first (it came online between
  -- the two), then `calculateUsage` does not succeed: it reads past the end of an empty vector.
  pub calculate_usage_missing :
      (topology : Threads) (ts : ℕ) (previous pre post : Reading) (key : Bytes) (v : ℕ)
      (vs : List ℕ) (es : List (Entry W))
      → lookup key previous ≡ none
      → ¬ (calculate_usage topology ts previous (pre ++ (key, v ∷ vs) ∷ post) ≡ done es)
  unfolding calculate_usage
  calculate_usage_missing topology ts previous pre post key v vs es h =
      usage_loop_missing topology ts previous pre post key v vs [] es h
