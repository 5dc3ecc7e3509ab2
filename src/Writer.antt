-- ===== src/Writer.antt =====
-- The database writer of src/xbatd/src/main.cpp: `addToBuffer` and `writeToDb`. The client library of
-- QuestDB is a parameter: whether a row is accepted by the builder, and whether `flush` delivers the
-- buffer; if it does it empties the buffer, as the library documents, and else it throws.
pub mod Delivery
use xbat_ginkgo.Base.{
  ℕ, ◌+◌, ◌%◌, ◌^◌, Bool, true, false, ◌&&◌, List, [], ◌∷◌, ◌++◌, map, Option, none, some, Bytes,
  codes, ltb, leb, if◌then◌else◌, ◌>>=◌, length,
}
use xbat_ginkgo.Base.Int.{ℤ}
use xbat_ginkgo.Queue.{Ilp, IlpEntries, Tags}

pub data Value {ℓ} (W : Type ℓ) : Type ℓ where
  int64_value : ℤ → Value W
  double_value : W → Value W

-- A row of the buffer, with its time in nanoseconds.
pub record Row {ℓ} (W : Type ℓ) : Type ℓ where
  pub table : Bytes
  pub symbols : Tags
  pub value : Value W
  pub nanos : ℕ

-- What has been delivered, the buffer, and the bits of `int bufferSize`.
pub record Sink {ℓ} (W : Type ℓ) : Type ℓ where
  pub sent : List (Row W)
  pub buffer : List (Row W)
  pub buffer_size : ℕ

-- BUFFER_SIZE
abbrev pub buffer_limit : ℕ
buffer_limit = 1000

-- `bufferSize >= n` for the bits of an int and a positive `n`.
pub at_least : ℕ → ℕ → Bool
at_least n bits = leb n bits && ltb bits (2 ^ 31)

-- The row that `addToBuffer` writes.
pub row_of {ℓ κ} : {W : Type ℓ} {T : Type κ} → (T → Value W) → Bytes → Bytes → Ilp T → Row W
row_of value job_id hostname ilp = record {
  table = ilp.measurement;
  symbols = (codes "jobId", job_id) ∷ (codes "node", hostname) ∷ ilp.tags;
  value = value ilp.value;
  nanos = ilp.ts;
}

module _ {ℓ} {W : Type ℓ} (accepts : Row W → Bool) where
  -- The rows are added in turn; `none` is a line_sender_error.
  pub add_rows : List (Row W) → List (Row W) → Option (List (Row W))
  add_rows [] buffer = some buffer
  add_rows (r ∷ rows) buffer =
      let rest = add_rows rows (buffer ++ r ∷ []) in if accepts r then rest else none

module _ {ℓ} {W : Type ℓ} (delivers : List (Row W) → List (Row W) → Bool) where
  pub flush : Sink W → Option (Sink W)
  flush sink =
      if delivers sink.sent sink.buffer
      then some (record sink { sent = sink.sent ++ sink.buffer; buffer = [] })
      else none

  pub flush_if_full : Sink W → Option (Sink W)
  unfolding flush at_least
  flush_if_full sink =
      if at_least buffer_limit sink.buffer_size
      then (do sink' ← flush sink; some (record sink' { buffer_size = 0 }))
      else some sink

  -- `if (bufferSize > 0) sender.flush(buffer)`
  pub flush_rest : Sink W → Option (Sink W)
  unfolding flush at_least
  flush_rest sink = if at_least 1 sink.buffer_size then flush sink else some sink

-- An error ends the writer, sets `canceled` (the flag in the result) and gives the buffer up.
pub or_cancel {ℓ} : {W : Type ℓ} → Sink W → Option (Sink W) → Sink W × Bool
or_cancel sink none = (sink, true)
or_cancel sink (some sink') = (sink', false)

module _ {ℓ} {W : Type ℓ} (accepts : Row W → Bool)
    (delivers : List (Row W) → List (Row W) → Bool) where
  -- The body of the loop behind a successful `waitAndPopAll`.
  pub add_batch : Bytes → Bytes → IlpEntries W → Sink W → Option (Sink W)
  unfolding add_rows flush_if_full row_of
  add_batch job_id hostname batch sink = do
    b ← add_rows accepts (map (row_of int64_value job_id hostname) batch.ilp_int64_t) sink.buffer
    b' ← add_rows accepts (map (row_of double_value job_id hostname) batch.ilp_double) b
    flush_if_full delivers (record sink {
      buffer = b';
      buffer_size =
          (sink.buffer_size + length batch.ilp_int64_t + length batch.ilp_double) % 2 ^ 32;
    })

  -- What the calls of `waitAndPopAll` hand over, up to the test that finds `canceled` set; `none` is
  -- a timeout.
  pub write_loop : Bytes → Bytes → List (Option (IlpEntries W)) → Sink W → Sink W × Bool
  unfolding add_batch flush_rest or_cancel
  write_loop job_id hostname [] sink = or_cancel sink (flush_rest delivers sink)
  write_loop job_id hostname (none ∷ polls) sink = write_loop job_id hostname polls sink
  write_loop job_id hostname (some batch ∷ polls) sink =
      elim (add_batch job_id hostname batch sink) [
        | none ↦ (sink, true)
        | some sink' ↦ write_loop job_id hostname polls sink'
      ]

  pub write_to_db : Bytes → Bytes → List (Option (IlpEntries W)) → Sink W × Bool
  unfolding write_loop
  write_to_db job_id hostname polls =
      write_loop job_id hostname polls (record { sent = []; buffer = []; buffer_size = 0 })
