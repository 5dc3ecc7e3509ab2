-- ===== src/Memory.antt =====
-- src/xbatd/src/CMemUsage.cpp: the memory usage, from /proc/meminfo.
pub mod Usage
pub mod Keys
pub mod Zeros
use xbat_ginkgo.Base.{
  ℕ, suc, ◌-◌, ◌*◌, ◌^◌, Bool, true, false, ◌&&◌, List, [], ◌∷◌, ◌++◌, Option, none, some, Bytes,
  codes, ltb, leb, if◌then◌else◌, length, take,
}
use xbat_ginkgo.Base.Float.{Double}
use xbat_ginkgo.Base.Int.{ℤ, pos, negsuc, ◌-ℤ◌, sub_ℕ}
use xbat_ginkgo.Base.Maps.{Map, lookup_or, insert, bytes_key}
use xbat_ginkgo.Base.Outcome.{Outcome, done, fails, faults, or_fault, or_fail, ◌>>=◌}
use xbat_ginkgo.Queue.{Entry, int64, double}
use xbat_ginkgo.Text.{filter_lines_not_containing, split_str, trim_whitespaces, ends_with}
use xbat_ginkgo.Text.Numbers.{stoll}

abbrev pub entry_names : List Bytes
entry_names =
    codes "MemTotal"
    ∷ codes "MemFree"
    ∷ codes "MemAvailable"
    ∷ codes "Buffers"
    ∷ codes "Cached"
    ∷ codes "SwapCached"
    ∷ codes "SwapTotal"
    ∷ codes "SwapFree"
    ∷ []

abbrev pub Values : Type 0
Values = Map Bytes ℤ

-- A result of arithmetic on int64_t: an overflow is undefined.
pub in_int64 : ℤ → Outcome ℤ
in_int64 (pos n) = if ltb n (2 ^ 63) then done (pos n) else faults
in_int64 (negsuc n) = if ltb n (2 ^ 63) then done (negsuc n) else faults

scaled : ℤ → ℕ → Outcome ℤ
unfolding in_int64
scaled (pos n) factor = in_int64 (pos (n * factor))
scaled (negsuc n) factor = in_int64 (sub_ℕ 0 (suc n * factor))

-- `value.erase(value.length() - 2)` throws if there are less than two bytes.
erase_unit : Bytes → Outcome Bytes
erase_unit value = if leb 2 (length value) then done (take (length value - 2) value) else faults

abbrev pub factor_of : Bytes → ℕ
factor_of value = if ends_with value (codes " mB") then 1024 * 1024 else 1024

-- One line; a line that is not a key and a value is passed over.
add_value : List Bytes → Values → Outcome Values
unfolding scaled erase_unit
add_value (k ∷ v ∷ []) values = do
  let key = trim_whitespaces k false
  let value = trim_whitespaces v false
  text ← erase_unit value
  number ← or_fault (stoll (trim_whitespaces text false))
  size ← scaled number (factor_of value)
  done (insert key size values)
add_value _ values = done values

add_lines : List Bytes → Values → Outcome Values
unfolding add_value
add_lines [] values = done values
add_lines (line ∷ ls) values = do
  key_value ← or_fault (split_str line (codes ":"))
  values' ← add_value key_value values
  add_lines ls values'

-- The content of /proc/meminfo, or `none` if it cannot be read.
unfoldable pub read_values : Option Bytes → Outcome Values
unfolding add_lines
read_values file = do
  content ← or_fail file
  ls ← or_fault (split_str (filter_lines_not_containing entry_names content true) (codes "\n"))
  add_lines ls []

pub value_of : Bytes → Values → ℤ
value_of name values = lookup_or (pos 0) name values

module _ {ℓ} {W : Type ℓ} ⦃d : Double W⦄ where
  used_share : ℤ → ℤ → W
  used_share used total = d.mul (d.div (d.of_ℤ used) (d.of_ℤ total)) (d.of_ℕ 100)

  -- The entries of the two calls of `pushMultiple`.
  unfoldable pub entries_of : ℕ → Values → Outcome (List (Entry W))
  unfolding used_share value_of in_int64
  entries_of ts values = do
    used ← in_int64 (value_of (codes "MemTotal") values -ℤ value_of (codes "MemAvailable") values)
    swap ← in_int64 (value_of (codes "SwapTotal") values -ℤ value_of (codes "SwapFree") values)
    done (
        share (codes "mem_usage") (used_share used (value_of (codes "MemTotal") values))
        ∷ share (codes "mem_swap_usage") (used_share swap (value_of (codes "SwapTotal") values))
        ∷ size (codes "mem_used") used
        ∷ size (codes "mem_swap_used") swap
        ∷ size (codes "mem_buffers") (value_of (codes "MemBuffers") values)
        ∷ size (codes "mem_cached") (value_of (codes "MemCached") values)
        ∷ [])
    where
      share : Bytes → W → Entry W
      share label value = double (record {
        measurement = label;
        tags = (codes "level", codes "node") ∷ [];
        value = value;
        ts = ts;
      })

      size : Bytes → ℤ → Entry W
      size label value = int64 (record {
        measurement = label;
        tags = (codes "level", codes "node") ∷ [];
        value = value;
        ts = ts;
      })

  unfoldable pub read_proc : ℕ → Option Bytes → Outcome (List (Entry W))
  unfolding read_values entries_of
  read_proc ts file = do values ← read_values file; entries_of ts values
