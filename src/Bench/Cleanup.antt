-- ===== src/Bench/Cleanup.antt =====
-- What benchmarkSystem leaves in the file system.
use xbat_ginkgo.Base.{
  ◌≡◌, ◌⊎◌, inl, inr, false, [], ◌∷◌, Option, none, some, Bytes, arith, if◌then◌else◌, codes,
  Bool-cases,
}
use xbat_ginkgo.Base.Float.{Double}
use xbat_ginkgo.Base.Maps.{Map, lookup, insert, lookup-insert, bytes_key, bytes_eq, bytes_eq_iff}
use xbat_ginkgo.Base.Outcome.{◌>>=◌, Outcome, done, Ensures, Ensures-bind, Ensures-done}
use xbat_ginkgo.Bench.{status_path, run_all, clean, benchmark_marked, benchmark_system}
use xbat_ginkgo.Files.{Files, Access, without, delete_file, write_to_file}
use xbat_ginkgo.Power.{get_command_output, if_succeeded}
use xbat_ginkgo.Topology.{CpuTopology}

lookup-without :
    (path p : Bytes) (files : Files)
    → lookup p (without path files) ≡ (if bytes_eq path p then none else lookup p files)
unfolding without lookup
lookup-without path p [] = ground arith
lookup-without path p ((q, text) ∷ files) =
    ground (
      arith,
      lookup-without path p files,
      bytes_eq_iff path p,
      bytes_eq_iff q path,
      bytes_eq_iff q p,
    )

-- The status file is gone, and every other file is as it was.
abbrev pub IsCleaned : Files → Files → Type 0
IsCleaned files files' =
    (lookup status_path files' ≡ none)
    × ((p : Bytes) → bytes_eq status_path p ≡ false → lookup p files' ≡ lookup p files)

inserted-IsCleaned :
    (text : Bytes) (files : Files)
    → IsCleaned files (without status_path (insert status_path text files))
inserted-IsCleaned text files = (
  ground (
    arith,
    lookup-without status_path status_path (insert status_path text files),
    bytes_eq_iff status_path status_path,
  ),
  (λ p other. ground (
    arith,
    other,
    lookup-without status_path p (insert status_path text files),
    lookup-insert status_path p text files,
  )),
)

-- Where `deleteFile` returns, it has removed the file.
clean-IsCleaned :
    (access : Access) (text : Bytes) (files : Files)
    → Ensures (IsCleaned files) (clean access (insert status_path text files))
unfolding clean delete_file
clean-IsCleaned access text files =
    let there : lookup status_path (insert status_path text files) ≡ some text = ground (
      arith,
      lookup-insert status_path status_path text files,
      bytes_eq_iff status_path status_path,
    ) in
    elim (Bool-cases (access.can_remove status_path)) [
      | inl e ↦
          rw (there, clean, delete_file)
            (rw (e, clean, delete_file) (inserted-IsCleaned text files))
      | inr e ↦ rw (there, clean, delete_file) (rw (e, clean, delete_file) tt)
    ]

module _ {W : Type 0} ⦃d : Double W⦄ (stod : Bytes → Option W) (prints : Bytes → Bytes)
    (access : Access) (topology : CpuTopology) where
  abbrev Cleans : Files → Map Bytes W × Files → Type 0
  Cleans files (values, files') = IsCleaned files files'

  cleaned :
      (values : Map Bytes W) (text : Bytes) (files : Files)
      → Ensures
          (Cleans files)
          (clean access (insert status_path text files) >>= (λ files'. done (values, files')))
  cleaned values text files =
      Ensures-bind (Cleans files) (clean access (insert status_path text files)) _
        (λ files' e. Ensures-done (IsCleaned files) _ (clean-IsCleaned access text files) e)

  listed :
      (o : Option Bytes) (text : Bytes) (files : Files)
      → Ensures (Cleans files) (elim o [
        | none ↦ (clean access (insert status_path text files) >>= (λ files'. done ([], files')))
        | some available ↦
            (run_all stod prints topology available >>= (λ values.
              clean access (insert status_path text files) >>= (λ files'. done (values, files'))))
      ])
  listed none text files = cleaned [] text files
  listed (some available) text files =
      Ensures-bind (Cleans files) (run_all stod prints topology available) _
        (λ values _. cleaned values text files)

  benchmark_marked_lem :
      (text : Bytes) (files : Files)
      → Ensures
          (Cleans files)
          (benchmark_marked stod prints access topology (insert status_path text files))
  unfolding benchmark_marked
  benchmark_marked_lem text files =
      Ensures-bind (Cleans files)
        (get_command_output (prints (codes "/usr/local/share/xbatd/bin/likwid-bench -a"))) _
        (λ r _. listed (if_succeeded r) text files)

-- However far the benchmarks come, if `benchmarkSystem` returns, it has either not been able to write
-- the status file, and gives no value, or the status file is gone; in both cases every other file is
-- as it was.
pub benchmark_system_lem :
    {W : Type 0} ⦃d : Double W⦄ (stod : Bytes → Option W) (prints : Bytes → Bytes) (access : Access)
    (topology : CpuTopology) (files files' : Files) (values : Map Bytes W)
    → benchmark_system stod prints access topology files ≡ done (values, files')
    → IsCleaned files files' ⊎ ((values ≡ []) × (files' ≡ files))
unfolding benchmark_system write_to_file
benchmark_system_lem {W} stod prints access topology files files' values h =
    elim (Bool-cases (access.can_write status_path)) [
      | inl e ↦
          let h' : benchmark_marked stod prints access topology (insert status_path [] files)
              ≡ done (values, files') =
            rw (e, write_to_file, benchmark_system) at h in
          inl (
            Ensures-done (Cleans stod prints access topology files) _
              (benchmark_marked_lem stod prints access topology [] files) h')
      | inr e ↦
          let h' : ◌≡◌ {A = Outcome (Map Bytes W × Files)} (done ([], files))
              (done (values, files')) =
            rw (e, write_to_file, benchmark_system) at h in
          inr (cc, cc)
    ]
