-- ===== src/Bench/Sizes.antt =====
-- The sizes that benchmarkSystem asks for.
use xbat_ginkgo.Base.{
  ℕ, ◌-◌, ◌*◌, ◌/◌, ◌^◌, ◌≤◌, ◌<◌, ◌≡◌, refl, true, false, codes, ◌++◌, arith, ltb,
}
use xbat_ginkgo.Bench.{int_text, cache_size, mem}
use xbat_ginkgo.Text.Numbers.{to_string}
use xbat_ginkgo.Topology.{CpuTopology, w32}

int_text-small : (d bits : ℕ) → bits < 2 ^ 31 → int_text d bits ≡ to_string (bits / d)
unfolding int_text
int_text-small d bits small = let e : ltb bits (2 ^ 31) ≡ true = ground arith in rw e refl

int_text-large :
    (d bits : ℕ)
    → 2 ^ 31 ≤ bits
    → bits < 2 ^ 32
    → d ≤ 2 ^ 32 - bits
    → int_text d bits ≡ codes "-" ++ to_string ((2 ^ 32 - bits) / d)
unfolding int_text
int_text-large d bits large within enough =
    let e : ltb bits (2 ^ 31) ≡ false = ground arith in
    let e' : ltb (2 ^ 32 - bits) d ≡ false = ground arith in rw (e, e') refl

-- The memory benchmark asks for four times the caches, in KB, as long as all caches of the node have
-- less than 512 MB; from there to 1 GB, less 256 bytes, it asks for a negative size.
pub cache_size-mem :
    (topology : CpuTopology)
    → (topology.cache_total < 2 ^ 29
        → int_text 1024 (cache_size topology mem) ≡ to_string (topology.cache_total * 4 / 1024))
      × (2 ^ 29 ≤ topology.cache_total
          → topology.cache_total ≤ 2 ^ 30 - 256
          → int_text 1024 (cache_size topology mem)
            ≡ codes "-" ++ to_string ((2 ^ 32 - topology.cache_total * 4) / 1024))
unfolding cache_size
cache_size-mem topology =
    let exact : topology.cache_total < 2 ^ 30
        → w32 (topology.cache_total * 4) ≡ topology.cache_total * 4 =
      λ h. omega (arith, h) in
    (
      (λ h. rw (exact (omega (arith, h))) (int_text-small 1024 _ (omega (arith, h)))),
      (λ h h'.
          rw (exact (omega (arith, h, h')))
            (int_text-large 1024 _ (omega (arith, h)) (omega (arith, h')) (omega (arith, h, h')))),
    )
