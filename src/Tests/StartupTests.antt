-- ===== src/Tests/StartupTests.antt =====
-- threadhelper.cpp: runs, and the theorem applied.
use xbat_ginkgo.Base.{◌≡◌, refl, codes, length}
use xbat_ginkgo.Base.Outcome.{done}
use xbat_ginkgo.Power.{get_command_output, if_succeeded}
use xbat_ginkgo.Startup.Time.{start_time}
use xbat_ginkgo.Text.{find, split_str, trim_whitespaces}
use xbat_ginkgo.Text.Numbers.{stoi}

start_time_run :
    start_time length (codes "   StartTime=2024-01-01T00:00:00 EndTime=x\n#RETVAL# 0\n") 7 ≡ done 19
unfolding start_time get_command_output if_succeeded find split_str trim_whitespaces stoi
start_time_run = refl
