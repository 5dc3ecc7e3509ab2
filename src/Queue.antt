-- ===== src/Queue.antt =====
-- src/xbatd/src/CQueue.hpp: the data points, and the queue between the collectors and the database
-- writer. Each operation runs under `queue_mutex`, so it is one function of the queue's content.
-- What other threads do while `wait` has released the mutex is the argument `Wake`.
pub mod Delivery
pub mod Steps
pub mod Accounting
pub mod Wakeups
pub mod Faults
pub mod Popping
use xbat_ginkgo.Base.{
  ℕ, Bool, true, false, not, List, [], ◌∷◌, ◌++◌, Option, none, some, Bytes, ◌≡◌, if◌then◌else◌,
}
use xbat_ginkgo.Base.Int.{ℤ, pos, negsuc, ltb_ℤ}

-- A `std::map<std::string, std::string>`, in the order of its keys.
abbrev pub Tags : Type 0
Tags = List (Bytes × Bytes)

-- `ts` is the system clock's count of nanoseconds.
pub record Ilp {ℓ} (T : Type ℓ) : Type ℓ where
  pub measurement : Bytes
  pub tags : Tags
  pub value : T
  pub ts : ℕ

-- `std::variant<ILP<int64_t>, ILP<double>>`; `W` stands for `double`.
pub data Entry {ℓ} (W : Type ℓ) : Type ℓ where
  int64 : Ilp ℤ → Entry W
  double : Ilp W → Entry W

pub record IlpEntries {ℓ} (W : Type ℓ) : Type ℓ where
  pub ilp_int64_t : List (Ilp ℤ)
  pub ilp_double : List (Ilp W)

-- The end of a call of `wait`: the queue's content when the mutex is held again, and whether the
-- condition variable reported a timeout.
pub record Wake {ℓ} (W : Type ℓ) : Type ℓ where
  pub found : List (Entry W)
  pub timed_out : Bool

pub record Popped {ℓ} (W : Type ℓ) : Type ℓ where
  pub status : ℤ
  pub entries : IlpEntries W
  pub data_queue : List (Entry W)

module _ {ℓ} {W : Type ℓ} where
  unfoldable pub is_empty : List (Entry W) → Bool
  is_empty [] = true
  is_empty (e ∷ q) = false

  -- The new content, and whether `notify_one` is called after the mutex is released.
  unfoldable pub push_multiple : List (Entry W) → List (Entry W) → List (Entry W) × Bool
  unfolding is_empty
  push_multiple items q = (q ++ items, is_empty q)

  unfoldable pub push_single : Entry W → List (Entry W) → List (Entry W) × Bool
  unfolding push_multiple
  push_single item q = push_multiple (item ∷ []) q

  -- A timeout is reported only by the timed wait, which a positive `timeout` selects.
  pub wait : ℤ → Wake W → ℤ
  wait timeout w =
      if ltb_ℤ (pos 0) timeout then (if w.timed_out then negsuc 0 else pos 0) else pos 0

  -- The loop of `waitAndPopAll`, front first.
  pub drain : List (Entry W) → IlpEntries W → IlpEntries W
  drain [] d = d
  drain (int64 i ∷ q) d = drain q (record d { ilp_int64_t = d.ilp_int64_t ++ i ∷ [] })
  drain (double x ∷ q) d = drain q (record d { ilp_double = d.ilp_double ++ x ∷ [] })

  abbrev drained : List (Entry W) → IlpEntries W → Popped W
  unfolding drain
  drained q d = record { status = pos 0; entries = drain q d; data_queue = [] }

  after_wait : ℤ → Wake W → IlpEntries W → Popped W
  unfolding drained
  after_wait (pos n) w d = drained w.found d
  after_wait (negsuc n) w d = record { status = negsuc 0; entries = d; data_queue = w.found }

  pub wait_and_pop_all : List (Entry W) → ℤ → Wake W → IlpEntries W → Popped W
  unfolding wait after_wait drained is_empty
  wait_and_pop_all q timeout w d =
      if is_empty q then after_wait (wait timeout w) w d else drained q d

  -- `front` of an empty queue is undefined behaviour: `none`.
  pop_front : List (Entry W) → Option (ℤ × Option (Entry W) × List (Entry W))
  pop_front [] = none
  pop_front (e ∷ q) = some (pos 0, some e, q)

  after_wait_one : ℤ → Wake W → Option (ℤ × Option (Entry W) × List (Entry W))
  unfolding pop_front
  after_wait_one (pos n) w = pop_front w.found
  after_wait_one (negsuc n) w = some (negsuc 0, none, w.found)

  -- The status, the item stored in `data` (if any), and the content left.
  unfoldable pub wait_and_pop :
      List (Entry W) → ℤ → Wake W → Option (ℤ × Option (Entry W) × List (Entry W))
  unfolding wait after_wait_one pop_front is_empty
  wait_and_pop q timeout w = if is_empty q then after_wait_one (wait timeout w) w else pop_front q

  unfoldable pub drop_data : List (Entry W) → List (Entry W)
  drop_data q = []

  unfoldable pub has_data : List (Entry W) → Bool
  unfolding is_empty
  has_data q = not (is_empty q)

  abbrev pub no_entries : IlpEntries W
  no_entries = record { ilp_int64_t = []; ilp_double = [] }

  -- The time stamp of an entry.
  abbrev pub stamp : Entry W → ℕ
  stamp (int64 i) = i.ts
  stamp (double x) = x.ts

  abbrev pub IsAt : ℕ → Entry W → Type 0
  IsAt ts e = stamp e ≡ ts
