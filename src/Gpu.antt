-- ===== src/Gpu.antt =====
-- What the GPU collectors share: src/xbatd/src/CNvidiaGPU.cpp and CAMDGPU.cpp.
pub mod Nvidia
pub mod Amd
pub mod Reports
pub mod NvidiaReports
pub mod AmdReports
pub mod Silence
pub mod Runs
use xbat_ginkgo.Base.{
  ℕ, ◌-◌, ◌%◌, ◌^◌, Bool, true, false, List, [], ◌∷◌, ◌++◌, map, Option, none, some, Bytes, codes,
  ltb, if◌then◌else◌, ◌>>=◌,
}
use xbat_ginkgo.Base.Int.{ℤ, pos, negsuc}
use xbat_ginkgo.Base.Outcome.{Outcome, done, fails}
use xbat_ginkgo.Collector.{
  Collector, synchronize_measurement, sleep_milliseconds_and_check, interval_cleanup,
}
use xbat_ginkgo.Measure.{Round, Turn, again, ends, returned, on_read}
use xbat_ginkgo.Queue.{Ilp, Entry, int64, double, Tags}
use xbat_ginkgo.Text.Numbers.{to_string}

-- `static_cast<int64_t>` of an unsigned 64-bit value.
unfoldable pub as_int64 : ℕ → ℤ
as_int64 n =
    let bits = n % 2 ^ 64 in if ltb bits (2 ^ 63) then pos bits else negsuc (2 ^ 64 - bits - 1)

abbrev pub device_tags : ℕ → Tags
device_tags i = (codes "device", to_string i) ∷ (codes "level", codes "device") ∷ []

abbrev pub point {ℓ} : {T : Type ℓ} → Bytes → Tags → T → ℕ → Ilp T
point label tags value ts = record { measurement = label; tags = tags; value = value; ts = ts }

-- What is added for the result of a call of the vendor's library, `none` if it is no success.
abbrev pub answered {ℓ κ} : {A : Type ℓ} {B : Type κ} → Option A → (A → List B) → List B
answered none add = []
answered (some a) add = add a

module _ {ℓ} {W : Type ℓ} where
  -- The end of `collect`: the two calls of `pushMultiple`, or the error if there is nothing to push.
  unfoldable pub push_all : List (Ilp ℤ) → List (Ilp W) → Outcome (List (Entry W))
  push_all [] [] = fails
  push_all (i ∷ ints) doubles = done (map int64 (i ∷ ints) ++ map double doubles)
  push_all [] (x ∷ doubles) = done (map double (x ∷ doubles))

module _ {ℓ κ} {W : Type ℓ} {Source : Type κ} where
  -- The loop's body: it sleeps for the time left, and does not test `terminate` behind that. Leaving
  -- the loop leads to the return of 0.
  pub gpu_turn :
      (ℕ → Source → Outcome (List (Entry W))) → Collector → Round Source → Option (Turn W)
  gpu_turn collect c r = do
    (c', _) ← synchronize_measurement c r.flag r.now
    if r.stop_first
        then some ([], ends (returned (pos 0)))
        else on_read (collect c'.interval_end r.first) (λ es. do
          _ ← sleep_milliseconds_and_check r.sleep_flag c'.time_left
          some (es, again (interval_cleanup c' true r.heartbeat)))
