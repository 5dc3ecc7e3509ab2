-- ===== src/Startup/Time.antt =====
-- The start time of the job, from what scontrol prints.
use xbat_ginkgo.Base.{ℕ, false, List, [], ◌∷◌, none, some, Bytes, codes}
use xbat_ginkgo.Base.Outcome.{Outcome, done, faults, or_fault, ◌>>=◌}
use xbat_ginkgo.Power.{get_command_output, if_succeeded}
use xbat_ginkgo.Text.{split_str, trim_whitespaces}

-- Reading past the end of a vector is undefined.
unfoldable pub first_of : List Bytes → Outcome Bytes
first_of [] = faults
first_of (s ∷ rest) = done s

unfoldable pub second_of : List Bytes → Outcome Bytes
second_of (s0 ∷ s1 ∷ rest) = done s1
second_of _ = faults

module _ (parse_time : Bytes → ℕ) where
  -- The value of "StartTime=", or the clock's reading if the command fails.
  unfoldable pub start_time : Bytes → ℕ → Outcome ℕ
  unfolding first_of second_of
  start_time text now = do
    r ← get_command_output text
    elim (if_succeeded r) [
      | none ↦ done now
      | some output ↦ (do
        times ← or_fault (split_str (trim_whitespaces output false) (codes " "))
        time ← first_of times
        values ← or_fault (split_str time (codes "="))
        value ← second_of values
        done (parse_time value))
    ]
