-- ===== src/Main/Logout.antt =====
-- That main logs out.
use xbat_ginkgo.Base.{ℕ, ◌≡◌, refl, [], Bool, false, Option, none, some, Bytes, codes}
use xbat_ginkgo.Base.Float.{Double}
use xbat_ginkgo.Base.Outcome.{
  Outcome, done, fails, faults, or_fault, Ensures, Ensures-bind, Ensures-done, Ensures-if,
  Ensures-elim,
}
use xbat_ginkgo.Main.{
  Setup, Gathered, gather, configure, End, failure, leave, benchmark_node, with_topology, with_job,
  with_client, with_config, or_failure, read_job_id, main,
}
use xbat_ginkgo.Config.{ConfigMap, get_flag, add_job, add_answer, client_settings}
use xbat_ginkgo.SystemInfo.{Document}
use xbat_ginkgo.Files.{read_file_to_string}
use xbat_ginkgo.Power.{get_command_output, if_succeeded}
use xbat_ginkgo.Rest.{
  Json, CurlClient, construct, Request, post, post_request, record_request, urlencoded, store_token,
  response, Server, login, logout, register_job,
}
use xbat_ginkgo.Rest.Session.{logout-IsCleared}
use xbat_ginkgo.Text.{trim_whitespaces}
use xbat_ginkgo.Topology.{CpuTopology, get_cpu_topology}

abbrev HasNoToken : Option CurlClient → Type 0
HasNoToken none = Unit
HasNoToken (some client) = client.token ≡ []

-- A client that main leaves behind has no token.
abbrev pub IsLoggedOut : End → Type 0
IsLoggedOut e = HasNoToken e.client

or_fault-done {ℓ} : {A : Type ℓ} {a : A} (o : Option A) → or_fault o ≡ done a → o ≡ some a
or_fault-done none h = cc
or_fault-done (some a) h = cc

pub or_failure_lem :
    (P : End → Type 0) {A : Type 0} (o : Outcome A) (rest : A → Outcome End)
    → P (failure none)
    → ((a : A) → Ensures P (rest a))
    → Ensures P (or_failure o rest)
unfolding or_failure
or_failure_lem P (done a) rest p h = h a
or_failure_lem P fails rest p h = p
or_failure_lem P faults rest p h = tt

module _ {J W : Type 0} (json : Json J) (doc : Document J) ⦃d : Double W⦄ (encode64 : Bytes → Bytes)
    (server : Server) (s : Setup J W) (P : End → Type 0) (p : P (failure none)) where
  -- What holds of all that follows the construction of the client holds of main.
  with_config_lem :
      ((g : Gathered J) (job_id : ℕ) (hostname : Bytes) (config : ConfigMap)
        → Ensures P (with_client json doc encode64 server s g job_id hostname config))
      → (config : ConfigMap) (job_id : ℕ)
      → Ensures P (with_config json doc encode64 server s config job_id)
  unfolding with_config
  with_config_lem h config job_id =
      Ensures-bind P (get_command_output (s.prints (codes "hostname -s"))) _ λ r _.
        Ensures-elim P (if_succeeded r) _ _ (λ _. p)
          λ output _.
            let hostname = trim_whitespaces output false in
            Ensures-bind P (gather json doc encode64 server s hostname) _
              λ g _. h g job_id hostname (add_job job_id hostname config)

  main-Ensures :
      ((g : Gathered J) (job_id : ℕ) (hostname : Bytes) (config : ConfigMap)
        → Ensures P (with_client json doc encode64 server s g job_id hostname config))
      → Ensures P (main json doc encode64 server s)
  unfolding main
  main-Ensures h =
      Ensures-if P s.cli_accepted _ _
        (λ _. or_failure_lem P (read_file_to_string s.access s.conf_path s.files) _ p (λ text.
          or_failure_lem P (configure json doc encode64 server s text) _ p (λ config.
            or_failure_lem P (read_job_id s.access s.files s.job_id) _ p
              (λ job_id. with_config_lem h config job_id))))
        (λ _. p)

module _ {J : Type 0} (json : Json J) (encode64 : Bytes → Bytes) (server : Server) where
  logout_token :
      (client : CurlClient) (r : CurlClient × Bool)
      → or_fault (logout json encode64 server client) ≡ done r
      → r.0.token ≡ []
  logout_token client r h =
      let (cleared, _, _) = logout-IsCleared json encode64 server client r (or_fault-done _ h) in
      cleared

  leave_lem :
      (config : ConfigMap) (client : CurlClient)
      → Ensures IsLoggedOut (leave json encode64 server config client)
  unfolding leave
  leave_lem config client =
      Ensures-bind IsLoggedOut (or_fault (logout json encode64 server client)) _ λ r e.
        Ensures-bind IsLoggedOut (or_fault (get_flag (codes "enableMonitoring") config)) _
          λ m _. logout_token client r e

module _ {J W : Type 0} (json : Json J) (doc : Document J) ⦃d : Double W⦄ (encode64 : Bytes → Bytes)
    (server : Server) (s : Setup J W) (g : Gathered J) where
  with_topology_lem :
      (job : J) (config : ConfigMap) (o : Outcome CpuTopology) (client : CurlClient)
      → Ensures IsLoggedOut (with_topology json doc encode64 server s g job config o client)
  unfolding with_topology
  with_topology_lem job config (done topology) client =
      Ensures-bind IsLoggedOut (or_fault (json.get_bool job (codes "benchmarkRequired"))) _
        λ required _.
          Ensures-bind IsLoggedOut
            (benchmark_node json doc encode64 server s g required topology client) _
            λ client' _. leave_lem json encode64 server config client'
  with_topology_lem job config fails client =
      Ensures-bind IsLoggedOut (or_fault (logout json encode64 server client)) _
        (λ r e. logout_token json encode64 server client r e)
  with_topology_lem job config faults client = tt

  with_job_lem :
      (job : J) (config : ConfigMap) (client : CurlClient)
      → Ensures IsLoggedOut (with_job json doc encode64 server s g job config client)
  unfolding with_job
  with_job_lem job config client =
      Ensures-bind IsLoggedOut (or_fault (json.get_number job (codes "interval"))) _ λ interval _.
        Ensures-bind IsLoggedOut (or_fault (json.get_bool job (codes "enableMonitoring"))) _
          λ monitoring _.
            Ensures-bind IsLoggedOut (or_fault (json.get_bool job (codes "enableLikwid"))) _
              λ likwid _.
                with_topology_lem job (add_answer interval monitoring likwid config)
                  (get_cpu_topology s.topology_init s.likwid s.topology) client

  with_client_lem :
      (job_id : ℕ) (hostname : Bytes) (config : ConfigMap)
      → Ensures IsLoggedOut (with_client json doc encode64 server s g job_id hostname config)
  unfolding with_client
  with_client_lem job_id hostname config =
      Ensures-bind IsLoggedOut (client_settings config) _ λ (url, id, secret) _.
        Ensures-bind IsLoggedOut (or_fault (login json encode64 server (construct url id secret))) _
          λ (c, b) _.
            Ensures-bind IsLoggedOut
              (or_fault (register_job json encode64 server c job_id hostname g.hash)) _
              λ (c', job) _. with_job_lem job config c'

-- Whenever main returns a status, it has made no client of the REST backend, or the client that it
-- leaves has no token.
pub main-IsLoggedOut :
    {J W : Type 0} (json : Json J) (doc : Document J) ⦃d : Double W⦄ (encode64 : Bytes → Bytes)
    (server : Server) (s : Setup J W) (e : End)
    → main json doc encode64 server s ≡ done e
    → IsLoggedOut e
main-IsLoggedOut json doc encode64 server s e h =
    Ensures-done IsLoggedOut _
      (main-Ensures json doc encode64 server s IsLoggedOut tt λ g job_id hostname config.
        with_client_lem json doc encode64 server s g job_id hostname config)
      h

module _ {J : Type 0} (json : Json J) (encode64 : Bytes → Bytes) (server : Server)
    (unreached : (r : Request) → server r ≡ none) where
  post-unreached :
      (client : CurlClient) (path text content_type : Bytes)
      → post json encode64 server client path text content_type
        ≡ some
            (record_request client (post_request encode64 client path text content_type), json.null)
  unfolding post response
  post-unreached client path text content_type =
      rw (unreached (post_request encode64 client path text content_type)) refl

  login-unreached :
      (client : CurlClient)
      → (c : CurlClient) × (login json encode64 server client ≡ some (c, false))
  unfolding login store_token
  login-unreached client =
      let sent =
        post-unreached client (codes "/oauth/token") (codes "grant_type=client_credentials")
          urlencoded in
      (
        record_request client (
            post_request encode64 client (codes "/oauth/token")
              (codes "grant_type=client_credentials") urlencoded),
        rw (sent, json.contains-null (codes "access_token")) refl,
      )

  register_job-unreached :
      (client : CurlClient) (id : ℕ) (hostname hash : Bytes)
      → (c : CurlClient) × (register_job json encode64 server client id hostname hash
          ≡ some (c, json.null))
  unfolding register_job
  register_job-unreached client id hostname hash = (_, post-unreached client _ _ _)

  with_client-unreached :
      {W : Type 0} (doc : Document J) ⦃d : Double W⦄ (s : Setup J W) (g : Gathered J) (job_id : ℕ)
      (hostname : Bytes) (config : ConfigMap)
      → Ensures
          (λ e. e ≡ failure none)
          (with_client json doc encode64 server s g job_id hostname config)
  unfolding with_client with_job
  with_client-unreached doc s g job_id hostname config =
      Ensures-bind (λ e. e ≡ failure none) (client_settings config) _
        λ (url, id, secret) _.
          let (c, logged_in) = login-unreached (construct url id secret) in
          let (c', registered) = register_job-unreached c job_id hostname g.hash in
          rw (logged_in, registered, json.get_number-null (codes "interval")) tt

-- If the REST backend is never reached, main does not get past the registration of the job: it returns
-- a failure before it makes a client, or ends by an exception that it does not catch.
pub main-unreached :
    {J W : Type 0} (json : Json J) (doc : Document J) ⦃d : Double W⦄ (encode64 : Bytes → Bytes)
    (server : Server) (s : Setup J W) (e : End)
    → ((r : Request) → server r ≡ none)
    → main json doc encode64 server s ≡ done e
    → e ≡ failure none
main-unreached json doc encode64 server s e unreached h =
    Ensures-done (λ e. e ≡ failure none) _
      (main-Ensures json doc encode64 server s (λ e. e ≡ failure none) refl
        λ g job_id hostname config.
          with_client-unreached json encode64 server unreached doc s g job_id hostname config)
      h
