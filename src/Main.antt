-- ===== src/Main.antt =====
-- main and sigHandler of src/xbatd/src/main.cpp: the daemon's way from its arguments to the threads of a
-- job. The command line, the parser of the configuration and what the commands print are arguments.
pub mod Logout
pub mod Started
use xbat_ginkgo.Base.{
  ℕ, zero, suc, ◌+◌, ◌-◌, ◌%◌, ◌^◌, Bool, true, false, List, [], ◌∷◌, ◌++◌, Option, none, some,
  Bytes, codes, ◌==◌, if◌then◌else◌,
}
use xbat_ginkgo.Base.Float.{Double}
use xbat_ginkgo.Base.Int.{ℤ, pos, negsuc}
use xbat_ginkgo.Base.Maps.{Map}
use xbat_ginkgo.Config.{
  ConfigMap, Ini, get_flag, read_config, add_job, add_answer, log_levels, client_settings,
}
use xbat_ginkgo.SystemInfo.{Document, Uts, Printed, set_in}
use xbat_ginkgo.SystemInfo.Gather.{gather_system_info, hashable_system_info}
use xbat_ginkgo.Text.Encoding.{md5}
use xbat_ginkgo.Base.Outcome.{Outcome, done, fails, faults, or_fault, ◌>>=◌}
use xbat_ginkgo.Bench.{benchmark_system}
use xbat_ginkgo.Files.{Files, Access, read_file_to_string}
use xbat_ginkgo.Power.{get_command_output, if_succeeded}
use xbat_ginkgo.Rest.{
  Json, CurlClient, Server, construct, login, logout, register_job, register_node,
}
use xbat_ginkgo.Text.{trim_whitespaces}
use xbat_ginkgo.Text.Numbers.{stoi, to_string}
use xbat_ginkgo.Topology.{CpuTopology, Likwid, get_cpu_topology}

-- `canceled` afterwards; `none` is the end of the process.
unfoldable pub sig_handler : Bool → Option Bool
sig_handler true = none
sig_handler false = some true

-- JOB_INFO_PATH
abbrev pub job_info_path : Bytes
job_info_path = codes "/run/xbatd/job"

-- What main finds around it: whether the command line is accepted and asks for no help, its values,
-- the parser of the configuration (`none` is an exception), the files, what the commands print and
-- what uname gives, a number as JSON, the digest of OpenSSL, and likwid.
pub record Setup (J W : Type 0) : Type 0 where
  pub cli_accepted : Bool
  pub conf_path : Bytes
  pub job_id : ℕ
  pub parse_ini : Bytes → Option Ini
  pub files : Files
  pub access : Access
  pub prints : Bytes → Bytes
  pub stod : Bytes → Option W
  pub uts : Uts
  pub printed : Printed
  pub of_double : W → J
  pub digest : Bytes → Option Bytes
  pub topology_init : Bool
  pub likwid : Likwid
  pub topology : CpuTopology

-- How main ends: its status, the client if there was one, and the configuration if the measurements
-- were started.
pub record End : Type 0 where
  pub status : ℤ
  pub client : Option CurlClient
  pub started : Option ConfigMap

-- EXIT_FAILURE
abbrev pub failure : Option CurlClient → End
failure client = record { status = pos 1; client = client; started = none }

unfoldable pub as_uint : ℤ → ℕ
as_uint (pos n) = n % 2 ^ 32
as_uint (negsuc n) = 2 ^ 32 - 1 - n % 2 ^ 32

-- The job of the command line, or of the file; a file without a number throws.
unfoldable pub read_job_id : Access → Files → ℕ → Outcome ℕ
unfolding read_file_to_string as_uint
read_job_id access files zero = do
  text ← read_file_to_string access job_info_path files
  id ← or_fault (stoi (trim_whitespaces text false))
  done (as_uint id)
read_job_id access files (suc n) = done (suc n)

-- An error of a step before is EXIT_FAILURE.
unfoldable pub or_failure : {A : Type 0} → Outcome A → (A → Outcome End) → Outcome End
or_failure (done a) rest = rest a
or_failure fails rest = done (failure none)
or_failure faults rest = faults

module _ {J : Type 0} (json : Json J) (encode64 : Bytes → Bytes) (server : Server) where
  -- From the last `logout` on.
  unfoldable pub leave : ConfigMap → CurlClient → Outcome End
  unfolding logout get_flag
  leave config client = do
    (client', _) ← or_fault (logout json encode64 server client)
    monitoring ← or_fault (get_flag (codes "enableMonitoring") config)
    done (record {
      status = pos 0;
      client = some client';
      started = if monitoring then some config else none;
    })

module _ {J : Type 0} (doc : Document J) where
  -- The results of the benchmarks, under "benchmarks".
  unfoldable pub add_benchmarks : {W : Type 0} → (W → J) → Map Bytes W → J → Outcome J
  unfolding set_in
  add_benchmarks of_double [] info = done info
  add_benchmarks of_double ((name, value) ∷ values) info = do
    info' ← or_fault (set_in doc (codes "benchmarks") name (of_double value) info)
    add_benchmarks of_double values info'

-- The information on the system with the short host name, and its hash.
pub record Gathered (J : Type 0) : Type 0 where
  pub info : J
  pub hash : Bytes

module _ {J W : Type 0} (json : Json J) (doc : Document J) ⦃d : Double W⦄ (encode64 : Bytes → Bytes)
    (server : Server) where
  unfoldable pub gather : Setup J W → Bytes → Outcome (Gathered J)
  unfolding gather_system_info hashable_system_info set_in
  gather s hostname = do
    system_info ← gather_system_info doc s.uts s.printed
    info ← or_fault (set_in doc (codes "os") (codes "hostname") (doc.text hostname) system_info)
    hashable ← hashable_system_info doc hostname system_info
    done (record { info = info; hash = md5 s.digest (json.dump hashable) })

  -- The client after the benchmark and the registration of the node, if they are required.
  unfoldable pub benchmark_node :
      Setup J W → Gathered J → Bool → CpuTopology → CurlClient → Outcome CurlClient
  unfolding benchmark_system register_node add_benchmarks
  benchmark_node s g false topology client = done client
  benchmark_node s g true topology client = do
    (values, _) ← benchmark_system s.stod s.prints s.access topology s.files
    info ← add_benchmarks doc s.of_double values g.info
    (client', _) ← or_fault (register_node json encode64 server client g.hash info)
    done client'

  -- Behind `getCpuTopology`.
  unfoldable pub with_topology :
      Setup J W → Gathered J → J → ConfigMap → Outcome CpuTopology → CurlClient → Outcome End
  unfolding benchmark_node leave logout
  with_topology s g job config (done topology) client = do
    required ← or_fault (json.get_bool job (codes "benchmarkRequired"))
    client' ← benchmark_node s g required topology client
    leave json encode64 server config client'
  with_topology s g job config fails client = do
    (client', _) ← or_fault (logout json encode64 server client)
    done (failure (some client'))
  with_topology s g job config faults client = faults

  -- With the answer to `registerJob`.
  unfoldable pub with_job : Setup J W → Gathered J → J → ConfigMap → CurlClient → Outcome End
  unfolding get_cpu_topology with_topology add_answer
  with_job s g job config client = do
    interval ← or_fault (json.get_number job (codes "interval"))
    monitoring ← or_fault (json.get_bool job (codes "enableMonitoring"))
    likwid ← or_fault (json.get_bool job (codes "enableLikwid"))
    with_topology s g job (add_answer interval monitoring likwid config)
        (get_cpu_topology s.topology_init s.likwid s.topology) client

  -- From the construction of the client on. The result of `login` is not looked at.
  unfoldable pub with_client : Setup J W → Gathered J → ℕ → Bytes → ConfigMap → Outcome End
  unfolding login register_job with_job client_settings construct
  with_client s g job_id hostname config = do
    (url, id, secret) ← client_settings config
    (client, _) ← or_fault (login json encode64 server (construct url id secret))
    (client', job) ← or_fault (register_job json encode64 server client job_id hostname g.hash)
    with_job s g job config client'

  -- With the configuration and the job.
  unfoldable pub with_config : Setup J W → ConfigMap → ℕ → Outcome End
  unfolding get_command_output if_succeeded with_client gather add_job
  with_config s config job_id = do
    r ← get_command_output (s.prints (codes "hostname -s"))
    elim (if_succeeded r) [
      | none ↦ done (failure none)
      | some output ↦ (do
        let hostname = trim_whitespaces output false
        g ← gather s hostname
        with_client s g job_id hostname (add_job job_id hostname config))
    ]

  -- The parsed configuration; initLogging reads it.
  unfoldable pub configure : Setup J W → Bytes → Outcome ConfigMap
  unfolding read_config log_levels
  configure s text = do
    ini ← or_fault (s.parse_ini text)
    config ← read_config ini
    levels ← log_levels config
    done config

  unfoldable pub main : Setup J W → Outcome End
  unfolding read_job_id read_file_to_string with_config or_failure configure
  main s =
      if s.cli_accepted
      then or_failure (read_file_to_string s.access s.conf_path s.files) (λ text.
        or_failure (configure s text) (λ config.
          or_failure (read_job_id s.access s.files s.job_id)
            (λ job_id. with_config s config job_id)))
      else done (failure none)
