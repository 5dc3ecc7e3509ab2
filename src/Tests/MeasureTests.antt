-- ===== src/Tests/MeasureTests.antt =====
-- The loops of `measure` and the database writer: runs, and the theorems applied.
use xbat_ginkgo.Base.{
  ℕ, ◌%◌, ◌^◌, ◌≡◌, refl, true, false, List, [], ◌∷◌, Option, none, some, Bytes, codes, arith,
  get_elem?,
}
use xbat_ginkgo.Base.Int.{pos}
use xbat_ginkgo.Base.Maps.{lookup_or, lookup, insert, bytes_eq, bytes_lt, bytes_key}
use xbat_ginkgo.Base.Outcome.{done}
use xbat_ginkgo.Interconnect.{Adapters, CounterDir, Reading, read_infiniband}
use xbat_ginkgo.Interconnect.Sums.{sum_devices, read_infiniband_lem}
use xbat_ginkgo.Measure.{Round}
use xbat_ginkgo.Memory.{read_proc}
use xbat_ginkgo.Memory.Zeros.{zero_size, read_proc-HasZeros}
use xbat_ginkgo.Queue.{Entry, IlpEntries}
use xbat_ginkgo.Tests.Whole.{whole}
use xbat_ginkgo.Text.{trim_whitespaces, split_str, filter_lines_not_containing, ends_with}
use xbat_ginkgo.Text.Numbers.{stoull, stoll}
use xbat_ginkgo.Writer.{write_to_db}
use xbat_ginkgo.Writer.Delivery.{IsDelivered, poll_rows, write_to_db_lem}

abbrev pub round_of : {S : Type 0} → S → S → Round S
round_of first second = record {
  stop_head = false;
  now = 12_000_000_000;
  flag = λ _. false;
  stop_first = false;
  first = first;
  sleep_now = 12_000_000_000;
  sleep_flag = λ _. false;
  stop_second = false;
  second = second;
  heartbeat = 15;
}

abbrev pub stat_rounds : List (Round (Option Bytes))
stat_rounds =
    round_of (some (codes "cpu 0 0 0 0 0 0 0 0 0 0\n")) (some (codes "cpu 9 1 2 80 5 0 1 2 3 0\n"))
    ∷ round_of none none
    ∷ []

abbrev port : CounterDir
port = (codes "port_rcv_data", some (codes "7\n")) ∷ []

-- One device with two ports.
abbrev adapters : Adapters
adapters = some (some port ∷ some port ∷ []) ∷ []

abbrev meminfo : Bytes
meminfo =
    codes "MemTotal: 100 kB\nMemAvailable: 40 kB\nBuffers: 5 kB\nSwapTotal: 8 kB\nSwapFree: 8 kB\n"

abbrev sums : Reading
sums = (codes "port_rcv_data", 14) ∷ []

read_infiniband_lem_example :
    lookup_or 0 (codes "port_rcv_data") sums % 2 ^ 64
    ≡ sum_devices (codes "port_rcv_data") adapters % 2 ^ 64
unfolding read_infiniband lookup insert bytes_eq bytes_lt lookup_or trim_whitespaces stoull
read_infiniband_lem_example = read_infiniband_lem (codes "port_rcv_data") adapters sums refl

abbrev report : List (Entry ℕ)
report = elim (read_proc {W = ℕ} 7 (some meminfo)) [ done es ↦ es | _ ↦ [] ]

report_read : read_proc {W = ℕ} 7 (some meminfo) ≡ done report
unfolding read_proc split_str filter_lines_not_containing trim_whitespaces stoll ends_with lookup_or
    insert bytes_lt
report_read = refl

-- The 5 kB of buffers are reported as 0.
read_proc-HasZeros_example :
    (get_elem? report 4 ≡ some (zero_size 7 (codes "mem_buffers")))
    × (get_elem? report 5 ≡ some (zero_size 7 (codes "mem_cached")))
read_proc-HasZeros_example = read_proc-HasZeros 7 (some meminfo) report report_read

abbrev polls : List (Option (IlpEntries ℕ))
polls =
    none
    ∷ some (record {
      ilp_int64_t =
          record { measurement = codes "mem_used"; tags = []; value = pos 3; ts = 7 } ∷ [];
      ilp_double = [];
    })
    ∷ []

write_to_db_lem_example :
    IsDelivered
      (poll_rows (codes "1") (codes "n1") polls)
      (write_to_db (λ _. true) (λ _ _. true) (codes "1") (codes "n1") polls)
write_to_db_lem_example =
    write_to_db_lem (λ _. true) (λ _ _. true) (codes "1") (codes "n1") polls (omega arith, tt)
