-- ===== src/Writer/Delivery.antt =====
-- What reaches the database.
use xbat_ginkgo.Base.{
  ℕ, ◌+◌, ◌%◌, ◌^◌, ◌<◌, ◌≡◌, refl, sym, ◌∙◌, Bool, true, false, List, [], ◌∷◌, ◌++◌, map, Option,
  none, some, Bytes, arith, length, length-append, length-map, append_assoc, append-nil, subst,
}
use xbat_ginkgo.Base.Gives.{Gives, Gives-bind, Gives-if, Gives-map, Gives-some}
use xbat_ginkgo.Queue.{IlpEntries}
use xbat_ginkgo.Writer.{
  Row, Sink, row_of, int64_value, double_value, at_least, add_rows, flush, flush_if_full, add_batch,
  flush_rest, or_cancel, write_loop, write_to_db,
}

module _ {W : Type 0} where
  abbrev pub batch_rows : Bytes → Bytes → IlpEntries W → List (Row W)
  batch_rows job_id hostname batch =
      map (row_of int64_value job_id hostname) batch.ilp_int64_t
      ++ map (row_of double_value job_id hostname) batch.ilp_double

  -- The rows of all polls, in their order.
  abbrev pub poll_rows : Bytes → Bytes → List (Option (IlpEntries W)) → List (Row W)
  poll_rows job_id hostname [] = []
  poll_rows job_id hostname (none ∷ polls) = poll_rows job_id hostname polls
  poll_rows job_id hostname (some batch ∷ polls) =
      batch_rows job_id hostname batch ++ poll_rows job_id hostname polls

  -- No poll hands over 2^31 - 1000 batch points or more.
  abbrev pub AreSmall : List (Option (IlpEntries W)) → Type 0
  AreSmall [] = Unit
  AreSmall (none ∷ polls) = AreSmall polls
  AreSmall (some batch ∷ polls) =
      (length batch.ilp_int64_t + length batch.ilp_double + 1000 < 2 ^ 31) × AreSmall polls

  abbrev IsSink : Sink W → Type 0
  IsSink s = (s.buffer_size ≡ length s.buffer) × (length s.buffer < 1000)

  abbrev all_rows : Sink W → List (Row W)
  all_rows s = s.sent ++ s.buffer

  -- What has been delivered is a beginning of `rows`, and all of them if nothing failed.
  abbrev pub IsDelivered : List (Row W) → Sink W × Bool → Type 0
  IsDelivered rows (s, failed) =
      (rest : List (Row W)) × (s.sent ++ rest ≡ rows) × (failed ≡ false → rest ≡ [])

length-zero : {A : Type 0} (xs : List A) → length xs ≡ 0 → xs ≡ []
length-zero [] h = refl
length-zero (x ∷ xs) h = absurd (omega (arith, h))

module _ {W : Type 0} (accepts : Row W → Bool) where
  add_rows_lem :
      (rows buffer : List (Row W)) → Gives (λ b. b ≡ buffer ++ rows) (add_rows accepts rows buffer)
  unfolding add_rows
  add_rows_lem [] buffer = sym (append-nil buffer)
  add_rows_lem (r ∷ rows) buffer =
      Gives-if (λ b. b ≡ buffer ++ r ∷ rows) (accepts r) _ none
        (λ _.
          Gives-map (λ b. b ≡ (buffer ++ r ∷ []) ++ rows) (λ b. b ≡ buffer ++ r ∷ rows) _
            (λ b h. h ∙ append_assoc buffer (r ∷ []) rows) (add_rows_lem rows (buffer ++ r ∷ [])))
        (λ _. tt)

module _ {W : Type 0} (delivers : List (Row W) → List (Row W) → Bool) where
  -- Everything has been delivered.
  abbrev IsFlushed : Sink W → Sink W → Type 0
  IsFlushed s s' = (s'.sent ≡ all_rows s) × (s'.buffer ≡ [])

  flush_lem : (s : Sink W) → Gives (IsFlushed s) (flush delivers s)
  unfolding flush
  flush_lem s =
      Gives-if (IsFlushed s) (delivers s.sent s.buffer) _ none (λ _. (refl, refl)) (λ _. tt)

  -- The rows stay, in the sink or delivered.
  abbrev IsKept : List (Row W) → Sink W → Type 0
  IsKept rows s' = IsSink s' × (all_rows s' ≡ rows)

  flush_if_full_lem :
      (s : Sink W)
      → s.buffer_size ≡ length s.buffer
      → length s.buffer < 2 ^ 31
      → Gives (IsKept (all_rows s)) (flush_if_full delivers s)
  unfolding flush_if_full at_least
  flush_if_full_lem s same small =
      Gives-if (IsKept (all_rows s)) (at_least 1000 s.buffer_size) _ (some s)
        (λ full. Gives-bind (IsKept (all_rows s)) (flush delivers s) _ (λ s' e.
          let (sent, none_left) = Gives-some (IsFlushed s) _ (flush_lem s) e in
          (
            (rw none_left refl, rw none_left (omega arith)),
            rw none_left (append-nil s'.sent ∙ sent),
          )))
        (λ not_full. ((same, ground (arith, same)), refl))

or_cancel_lem :
    {W : Type 0} (rows : List (Row W)) (s : Sink W) (o : Option (Sink W))
    → all_rows s ≡ rows
    → Gives (λ s'. s'.sent ≡ rows) o
    → IsDelivered rows (or_cancel s o)
unfolding or_cancel
or_cancel_lem rows s none e h = (s.buffer, e, λ ok. cc)
or_cancel_lem rows s (some s') e h = ([], append-nil _ ∙ h, λ _. refl)

step_lem :
    {W : Type 0} (rows rest : List (Row W)) (s : Sink W) (k : Sink W → Sink W × Bool)
    (o : Option (Sink W))
    → s.sent ++ rest ≡ rows
    → ((s' : Sink W) → o ≡ some s' → IsDelivered rows (k s'))
    → IsDelivered rows (elim o [ none ↦ (s, true) | some s' ↦ k s' ])
step_lem rows rest s k none e h = (rest, e, λ ok. cc)
step_lem rows rest s k (some s') e h = h s' refl

regroup :
    {A : Type 0} (sent buffer ints doubles b b' : List A)
    → b ≡ buffer ++ ints
    → b' ≡ b ++ doubles
    → sent ++ b' ≡ (sent ++ buffer) ++ (ints ++ doubles)
regroup sent buffer ints doubles b b' h h' = simp (h', h, append_assoc)

lengths :
    {W : Type 0} (s : Sink W) (ints doubles b b' : List (Row W))
    → b ≡ s.buffer ++ ints
    → b' ≡ b ++ doubles
    → length b' ≡ length s.buffer + length ints + length doubles
lengths s ints doubles b b' h h' =
    rw (h', h)
      (omega (arith, length-append (s.buffer ++ ints) doubles, length-append s.buffer ints))

count :
    {W : Type 0} (s : Sink W) (ints doubles b b' : List (Row W)) {m n : ℕ}
    → length ints ≡ m
    → length doubles ≡ n
    → b ≡ s.buffer ++ ints
    → b' ≡ b ++ doubles
    → s.buffer_size ≡ length s.buffer
    → length s.buffer + m + n < 2 ^ 32
    → (s.buffer_size + m + n) % 2 ^ 32 ≡ length b'
count s ints doubles b b' em en h h' same small =
    omega (arith, em, en, same, small, lengths s ints doubles b b' h h')

module _ {W : Type 0} (accepts : Row W → Bool) (delivers : List (Row W) → List (Row W) → Bool) where
  flush_rest_lem :
      (s : Sink W) → IsSink s → Gives (λ s'. s'.sent ≡ all_rows s) (flush_rest delivers s)
  unfolding flush_rest at_least
  flush_rest_lem s (same, small) =
      Gives-if (λ s'. s'.sent ≡ all_rows s) (at_least 1 s.buffer_size) _ (some s)
        (λ _.
          Gives-map (IsFlushed delivers s) (λ s'. s'.sent ≡ all_rows s) _ (λ s' h. h.0)
            (flush_lem delivers s))
        (λ empty.
          let nothing = length-zero s.buffer (ground (arith, same)) in
          rw nothing (sym (append-nil s.sent)))

  add_batch_lem :
      (job_id hostname : Bytes) (batch : IlpEntries W) (s : Sink W)
      → IsSink s
      → length batch.ilp_int64_t + length batch.ilp_double + 1000 < 2 ^ 31
      → Gives
          (IsKept delivers (all_rows s ++ batch_rows job_id hostname batch))
          (add_batch accepts delivers job_id hostname batch s)
  unfolding add_batch
  add_batch_lem job_id hostname batch s is small =
      let P = IsKept delivers (all_rows s ++ batch_rows job_id hostname batch) in
      let ints = map (row_of int64_value job_id hostname) batch.ilp_int64_t in
      let doubles = map (row_of double_value job_id hostname) batch.ilp_double in
      Gives-bind P (add_rows accepts ints s.buffer) _ (λ b e.
        Gives-bind P (add_rows accepts doubles b) _ (λ b' e'.
          let h = Gives-some (λ x. x ≡ s.buffer ++ ints) _ (add_rows_lem accepts ints s.buffer) e in
          let h' = Gives-some (λ x. x ≡ b ++ doubles) _ (add_rows_lem accepts doubles b) e' in
          Gives-map (IsKept delivers (s.sent ++ b')) P _
            (λ s' (is', rows). (is', rows ∙ regroup s.sent s.buffer ints doubles b b' h h'))
            (flush_if_full_lem delivers _
              (count s ints doubles b b' (length-map _ batch.ilp_int64_t)
                (length-map _ batch.ilp_double) h h' is.0 (omega (arith, is.1, small)))
              (omega (
                arith,
                is.1,
                small,
                lengths s ints doubles b b' h h',
                length-map (row_of {W = W} int64_value job_id hostname) batch.ilp_int64_t,
                length-map (row_of {W = W} double_value job_id hostname) batch.ilp_double,
              )))))

  write_loop_lem :
      (job_id hostname : Bytes) (polls : List (Option (IlpEntries W))) (s : Sink W)
      → IsSink s
      → AreSmall polls
      → IsDelivered
          (all_rows s ++ poll_rows job_id hostname polls)
          (write_loop accepts delivers job_id hostname polls s)
  unfolding write_loop
  write_loop_lem job_id hostname [] s is small =
      subst (λ rows. IsDelivered rows (or_cancel s (flush_rest delivers s)))
        (sym (append-nil (all_rows s)))
        (or_cancel_lem (all_rows s) s (flush_rest delivers s) refl (flush_rest_lem s is))
  write_loop_lem job_id hostname (none ∷ polls) s is small =
      write_loop_lem job_id hostname polls s is small
  write_loop_lem job_id hostname (some batch ∷ polls) s is (few, small) =
      step_lem _ (s.buffer ++ poll_rows job_id hostname (some batch ∷ polls)) s _ _
        (sym (append_assoc s.sent s.buffer _))
        (λ s' e.
          let (is', all) =
            Gives-some (IsKept delivers (all_rows s ++ batch_rows job_id hostname batch)) _
              (add_batch_lem job_id hostname batch s is few) e in
          subst (λ rows. IsDelivered rows (write_loop accepts delivers job_id hostname polls s'))
            (rw all (append_assoc (all_rows s) _ _))
            (write_loop_lem job_id hostname polls s' is' small))

  -- For polls of less than 2^31 - 1000 data points each, whatever the database client accepts and
  -- delivers: what has been delivered at the end is a beginning of the rows of all polls, in order,
  -- and if the writer has not failed it is all of them: each data point exactly once.
  pub write_to_db_lem :
      (job_id hostname : Bytes) (polls : List (Option (IlpEntries W)))
      → AreSmall polls
      → IsDelivered
          (poll_rows job_id hostname polls)
          (write_to_db accepts delivers job_id hostname polls)
  unfolding write_to_db
  write_to_db_lem job_id hostname polls small =
      write_loop_lem job_id hostname polls _ (refl, omega arith) small
