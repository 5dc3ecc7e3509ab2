-- ===== src/Main/Started.antt =====
-- With what configuration main starts the measurements.
use xbat_ginkgo.Base.{
  ℕ, ◌≡◌, refl, Bool, true, false, Option, none, some, Bytes, codes, ap, ◌∙◌, if◌then◌else◌,
}
use xbat_ginkgo.Base.Float.{Double}
use xbat_ginkgo.Base.Outcome.{
  Outcome, done, fails, faults, or_fault, Ensures, Ensures-bind, Ensures-or_fault, Ensures-done,
  Ensures-if, Ensures-elim,
}
use xbat_ginkgo.Config.Reads.{Reads, read_config-Reads}
use xbat_ginkgo.Config.{
  ConfigMap, get_flag, read_config, log_levels, add_job, add_answer, client_settings,
  database_settings, init_settings,
}
use xbat_ginkgo.Files.{read_file_to_string}
use xbat_ginkgo.Main.Logout.{or_failure_lem}
use xbat_ginkgo.Main.{
  Setup, Gathered, gather, configure, End, leave, benchmark_node, with_topology, with_job,
  with_client, with_config, or_failure, read_job_id, main,
}
use xbat_ginkgo.Power.{get_command_output, if_succeeded}
use xbat_ginkgo.Rest.{Json, construct, login, logout, register_job, Server, CurlClient}
use xbat_ginkgo.SystemInfo.{Document}
use xbat_ginkgo.Text.{trim_whitespaces}
use xbat_ginkgo.Topology.{CpuTopology, get_cpu_topology}

-- The threads of the measurements can read what they need, and monitoring is switched on.
pub record IsReady (config : ConfigMap) : Type 0 where
  pub monitoring : get_flag (codes "enableMonitoring") config ≡ some true
  pub database : (r : Bytes × Bytes × Bytes) × (database_settings config ≡ done r)
  pub init : (r : ℕ × ℕ × Bool) × (init_settings config ≡ done r)

abbrev StartsReady : Option ConfigMap → Type 0
StartsReady none = Unit
StartsReady (some config) = IsReady config

abbrev pub IsReadyEnd : End → Type 0
IsReadyEnd e = StartsReady e.started

-- As main leaves the configuration to `measure`.
abbrev Readable : ConfigMap → Type 0
Readable config =
    (job_id interval : ℕ) (hostname : Bytes) (m l : Bool)
    → Reads job_id interval hostname m l config

if-StartsReady :
    (b : Bool) (config : ConfigMap)
    → (b ≡ true → IsReady config)
    → StartsReady (if b then some config else none)
if-StartsReady true config h = h refl
if-StartsReady false config h = tt

module _ {J : Type 0} (json : Json J) (encode64 : Bytes → Bytes) (server : Server) where
  leave-IsReadyEnd :
      (config : ConfigMap) (client : CurlClient) (job_id interval : ℕ) (hostname : Bytes)
      (m l : Bool)
      → Readable config
      → Ensures IsReadyEnd (
          leave json encode64 server
            (add_answer interval m l (add_job job_id hostname config))
            client)
  unfolding leave
  leave-IsReadyEnd config client job_id interval hostname m l r =
      let reads = r job_id interval hostname m l in
      Ensures-bind IsReadyEnd (or_fault (logout json encode64 server client)) _ λ (c, b) _.
        rw reads.monitoring (
          if-StartsReady m (add_answer interval m l (add_job job_id hostname config)) λ on. record {
            monitoring = reads.monitoring ∙ ap some on;
            database = (_, reads.database.1);
            init = (_, reads.init);
          })

module _ {J W : Type 0} (json : Json J) (doc : Document J) ⦃d : Double W⦄ (encode64 : Bytes → Bytes)
    (server : Server) (s : Setup J W) where
  with_topology-IsReadyEnd :
      (g : Gathered J) (job : J) (config : ConfigMap) (o : Outcome CpuTopology)
      (client : CurlClient)
      → ((c : CurlClient) → Ensures IsReadyEnd (leave json encode64 server config c))
      → Ensures IsReadyEnd (with_topology json doc encode64 server s g job config o client)
  unfolding with_topology
  with_topology-IsReadyEnd g job config (done topology) client h =
      Ensures-bind IsReadyEnd (or_fault (json.get_bool job (codes "benchmarkRequired"))) _
        λ required _.
          Ensures-bind IsReadyEnd
            (benchmark_node json doc encode64 server s g required topology client) _
            λ client' _. h client'
  with_topology-IsReadyEnd g job config fails client h =
      Ensures-bind IsReadyEnd (or_fault (logout json encode64 server client)) _ (λ r e. tt)
  with_topology-IsReadyEnd g job config faults client h = tt

  with_client-IsReadyEnd :
      (g : Gathered J) (job_id : ℕ) (hostname : Bytes) (config : ConfigMap)
      → Readable config
      → Ensures IsReadyEnd (
          with_client json doc encode64 server s g job_id hostname (add_job job_id hostname config))
  unfolding with_client with_job
  with_client-IsReadyEnd g job_id hostname config r =
      Ensures-bind IsReadyEnd (client_settings (add_job job_id hostname config)) _
        λ (url, id, secret) _.
          Ensures-bind IsReadyEnd (or_fault (login json encode64 server (construct url id secret)))
            _
            λ (c, b) _.
              Ensures-bind IsReadyEnd
                (or_fault (register_job json encode64 server c job_id hostname g.hash)) _
                λ (c', job) _.
                  Ensures-bind IsReadyEnd (or_fault (json.get_number job (codes "interval"))) _
                    λ interval _.
                      Ensures-bind IsReadyEnd
                        (or_fault (json.get_bool job (codes "enableMonitoring"))) _
                        λ m _.
                          Ensures-bind IsReadyEnd
                            (or_fault (json.get_bool job (codes "enableLikwid"))) _
                            λ l _.
                              with_topology-IsReadyEnd g job
                                (add_answer interval m l (add_job job_id hostname config))
                                (get_cpu_topology s.topology_init s.likwid s.topology) c'
                                λ client.
                                  leave-IsReadyEnd json encode64 server config client job_id
                                    interval hostname m l r

  with_config-IsReadyEnd :
      (config : ConfigMap) (job_id : ℕ)
      → Readable config
      → Ensures IsReadyEnd (with_config json doc encode64 server s config job_id)
  unfolding with_config
  with_config-IsReadyEnd config job_id r =
      Ensures-bind IsReadyEnd (get_command_output (s.prints (codes "hostname -s"))) _ λ printed _.
        Ensures-elim IsReadyEnd (if_succeeded printed) _ _ (λ _. tt)
          λ output _.
            let hostname = trim_whitespaces output false in
            Ensures-bind IsReadyEnd (gather json doc encode64 server s hostname) _
              λ g _. with_client-IsReadyEnd g job_id hostname config r

  configure-Readable : (text : Bytes) → Ensures Readable (configure json doc encode64 server s text)
  unfolding configure
  configure-Readable text = Ensures-or_fault Readable (s.parse_ini text) _ λ ini _.
      Ensures-bind Readable (read_config ini) _ λ config e.
        Ensures-bind Readable (log_levels config) _ λ levels _. read_config-Reads ini config e

  configured :
      (o : Outcome ConfigMap) (rest : ConfigMap → Outcome End)
      → Ensures Readable o
      → ((config : ConfigMap) → Readable config → Ensures IsReadyEnd (rest config))
      → Ensures IsReadyEnd (or_failure o rest)
  unfolding or_failure
  configured (done config) rest r h = h config r
  configured fails rest r h = tt
  configured faults rest r h = tt

  -- If main starts the measurements, then monitoring is enabled in the configuration that it hands on,
  -- and no read of it by the database writer or by `init` throws: each setting is there, with the
  -- type at which it is read.
  pub main-IsReadyEnd : (e : End) → main json doc encode64 server s ≡ done e → IsReadyEnd e
  unfolding main
  main-IsReadyEnd e h =
      Ensures-done IsReadyEnd _
        (Ensures-if IsReadyEnd s.cli_accepted _ _
          (λ _.
            or_failure_lem IsReadyEnd (read_file_to_string s.access s.conf_path s.files) _ tt
              λ text.
                configured (configure json doc encode64 server s text) _ (configure-Readable text)
                  λ config r.
                    or_failure_lem IsReadyEnd (read_job_id s.access s.files s.job_id) _ tt
                      λ job_id. with_config-IsReadyEnd config job_id r)
          (λ _. tt))
        h
