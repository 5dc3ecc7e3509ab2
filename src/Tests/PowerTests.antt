-- ===== src/Tests/PowerTests.antt =====
-- CEnergyIpmi.cpp and CXilinx.cpp: runs, and the theorems applied.
use xbat_ginkgo.Base.{ℕ, ◌≡◌, refl, ◌↔◌, List, [], ◌∷◌, none, some, Bytes, codes, All}
use xbat_ginkgo.Base.Int.{pos}
use xbat_ginkgo.Base.Outcome.{done, fails}
use xbat_ginkgo.Measure.{Round}
use xbat_ginkgo.Power.{DeviceFile, get_command_output, read_fpga}
use xbat_ginkgo.Power.Fpga.{IsUnreadable, read_fpga_fails_iff}
use xbat_ginkgo.Tests.MeasureTests.{round_of}
use xbat_ginkgo.Tests.Whole.{whole}
use xbat_ginkgo.Text.{find}
use xbat_ginkgo.Text.Numbers.{stoi}

command_runs : get_command_output (codes "n1\n#RETVAL# 0\n") ≡ done (codes "n1\n", pos 0)
unfolding get_command_output find stoi
command_runs = refl

abbrev standard : Bytes
standard = codes "#RETVAL# 1\n"

abbrev request : Bytes
request = codes "Instantaneous power reading: 200 Watts\n#RETVAL# 0\n"

abbrev pub energy_rounds : List (Round (Bytes × Bytes))
energy_rounds = round_of (standard, request) ([], []) ∷ round_of (standard, request) ([], []) ∷ []

-- One device whose file cannot be read, and one whose path is missing.
abbrev devices : List (Bytes × DeviceFile)
devices = (codes "a1:00.1", some none) ∷ (codes "a2:00.1", none) ∷ []

read_fpga_fails_iff_example : (read_fpga {W = ℕ} 7 devices ≡ fails) ↔ All IsUnreadable devices
read_fpga_fails_iff_example = read_fpga_fails_iff 7 devices
