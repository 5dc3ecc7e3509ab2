-- ===== src/Tests/DiskTests.antt =====
-- CIOStat.cpp: runs, and the theorems applied.
use xbat_ginkgo.Base.{ℕ, ◌≡◌, refl, List, [], ◌∷◌, codes, length}
use xbat_ginkgo.Base.Maps.{lookup, bytes_eq}
use xbat_ginkgo.Base.Outcome.{done}
use xbat_ginkgo.Disk.{Report, disks, parse_io_stat}
use xbat_ginkgo.Queue.{Entry}
use xbat_ginkgo.Tests.Whole.{whole}
use xbat_ginkgo.Text.{occurs}

-- A disk with a known and an unknown key, and a loop device.
abbrev report : Report ℕ
report = disks (
    record { device = codes "sda"; items = (codes "rkB/s", 5) ∷ (codes "x", 1) ∷ [] }
    ∷ record { device = codes "loop0"; items = (codes "rkB/s", 7) ∷ [] }
    ∷ [])

abbrev entries : List (Entry ℕ)
entries = elim (parse_io_stat 7 report) [ done es ↦ es | _ ↦ [] ]

entries_run : length entries ≡ 1
unfolding parse_io_stat lookup bytes_eq occurs
entries_run = refl
