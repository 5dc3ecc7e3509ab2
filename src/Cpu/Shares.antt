-- ===== src/Cpu/Shares.antt =====
-- The sums that the shares of the CPU time are taken from.
use xbat_ginkgo.Base.{ℕ, ◌+◌, ◌%◌, ◌^◌, ◌≤◌, ◌<◌, ◌≡◌, refl, List, ◌∷◌, arith}
use xbat_ginkgo.Base.Outcome.{done}
use xbat_ginkgo.Cpu.{sub64, Counters, counters}

-- The difference of two readings is the increment between them, also if the counter wrapped round.
pub sub64_increment : (p n : ℕ) → p < 2 ^ 64 → n < 2 ^ 64 → sub64 ((p + n) % 2 ^ 64) p ≡ n
unfolding sub64
sub64_increment p n hp hn = omega arith

-- If the guest times are contained in user and nice time, and the first eight differences add up to
-- less than 2^64, nothing wraps: the total is that sum; user, nice, idle, system, virtual and steal
-- time add up to it; user and nice time are split into virtual time and the rest; and I/O wait is a
-- part of the idle time.
pub counters-total :
    (v0 v1 v2 v3 v4 v5 v6 v7 v8 v9 : ℕ) (rest : List ℕ)
    → v8 ≤ v0
    → v9 ≤ v1
    → v0 + v1 + v2 + v3 + v4 + v5 + v6 + v7 < 2 ^ 64
    → (c : Counters) × (counters (v0 ∷ v1 ∷ v2 ∷ v3 ∷ v4 ∷ v5 ∷ v6 ∷ v7 ∷ v8 ∷ v9 ∷ rest) ≡ done c)
      × (c.total ≡ v0 + v1 + v2 + v3 + v4 + v5 + v6 + v7)
      × (c.user + c.nice + c.idle + c.sys + c.virt + v7 ≡ c.total)
      × (c.user + c.virt + c.nice ≡ v0 + v1)
      × (c.iowait ≤ c.idle)
      × (c.idle ≤ c.total)
unfolding counters
counters-total v0 v1 v2 v3 v4 v5 v6 v7 v8 v9 rest h8 h9 small =
    (_, refl, omega arith, omega arith, omega arith, omega arith, omega arith)

-- Whatever the ten differences are, the total is the sum of the first eight modulo 2^64: the guest
-- times, taken out of user and nice time and added as virtual time, cancel also where that wraps.
pub counters_wrap :
    (v0 v1 v2 v3 v4 v5 v6 v7 v8 v9 : ℕ) (rest : List ℕ)
    → (c : Counters) × (counters (v0 ∷ v1 ∷ v2 ∷ v3 ∷ v4 ∷ v5 ∷ v6 ∷ v7 ∷ v8 ∷ v9 ∷ rest) ≡ done c)
      × (c.total ≡ (v0 + v1 + v2 + v3 + v4 + v5 + v6 + v7) % 2 ^ 64)
unfolding counters
counters_wrap v0 v1 v2 v3 v4 v5 v6 v7 v8 v9 rest = (_, refl, omega arith)
