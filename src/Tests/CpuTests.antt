-- ===== src/Tests/CpuTests.antt =====
-- CCpuStat.cpp: runs, and the theorems applied.
use xbat_ginkgo.Base.{ℕ, ◌+◌, ◌≤◌, ◌≡◌, refl, false, List, [], ◌∷◌, some, codes, arith}
use xbat_ginkgo.Base.Outcome.{done}
use xbat_ginkgo.Cpu.{
  Threads, Reading, Counters, counters, read_proc, strip_cpu, calculate_usage, no_thread,
}
use xbat_ginkgo.Cpu.Shares.{counters-total}
use xbat_ginkgo.Queue.{Entry}
use xbat_ginkgo.Base.Maps.{insert, bytes_eq, bytes_lt}
use xbat_ginkgo.Text.{get_lines, is_prefix, split_str, trim_whitespaces}
use xbat_ginkgo.Text.Numbers.{stoull}
use xbat_ginkgo.Tests.Whole.{whole}

strip_runs : strip_cpu 0 (codes "cpu12") ≡ codes "12"
unfolding strip_cpu
strip_runs = refl

read_runs :
    read_proc (some (codes "cpu  1 2\ncpu0 1 2\nintr 9\n"))
    ≡ done ((codes "cpu", 1 ∷ 2 ∷ []) ∷ (codes "cpu0", 1 ∷ 2 ∷ []) ∷ [])
unfolding read_proc get_lines is_prefix split_str trim_whitespaces stoull insert bytes_eq bytes_lt
read_runs = refl

counters-total_example :
    (c : Counters) × (counters (9 ∷ 1 ∷ 2 ∷ 80 ∷ 5 ∷ 0 ∷ 1 ∷ 2 ∷ 3 ∷ 0 ∷ []) ≡ done c)
    × (c.total ≡ 100)
    × (c.user + c.nice + c.idle + c.sys + c.virt + 2 ≡ c.total)
    × (c.user + c.virt + c.nice ≡ 10)
    × (c.iowait ≤ c.idle)
    × (c.idle ≤ c.total)
counters-total_example =
    counters-total 9 1 2 80 5 0 1 2 3 0 [] (omega arith) (omega arith) (omega arith)

abbrev pub one_thread : Threads
one_thread = record { smt = false; hw_threads = (0, no_thread) ∷ [] }

abbrev before : Reading
before = (codes "cpu", 0 ∷ 0 ∷ 0 ∷ 0 ∷ 0 ∷ 0 ∷ 0 ∷ 0 ∷ 0 ∷ 0 ∷ []) ∷ []

abbrev after : Reading
after = (codes "cpu", 9 ∷ 1 ∷ 2 ∷ 80 ∷ 5 ∷ 0 ∷ 1 ∷ 2 ∷ 3 ∷ 0 ∷ []) ∷ []

abbrev usage : List (Entry ℕ)
usage = elim (calculate_usage {W = ℕ} one_thread 7 before after) [ done es ↦ es | _ ↦ [] ]
