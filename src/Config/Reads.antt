-- ===== src/Config/Reads.antt =====
-- Every read of the configuration finds what main has put there.
use xbat_ginkgo.Base.{ℕ, ◌≡◌, refl, Bool, [], some, Bytes, codes}
use xbat_ginkgo.Base.Maps.{lookup, lookup_or, insert, bytes_key, bytes_eq, bytes_lt}
use xbat_ginkgo.Base.Outcome.{done, Ensures, Ensures-bind, Ensures-or_fail, Ensures-done}
use xbat_ginkgo.Text.Numbers.{to_string}
use xbat_ginkgo.Config.{
  ConfigMap, text, uint, Ini, read_config, uint_at, add_job, add_answer, get_flag, setting,
  log_levels, client_settings, database_settings, init_settings, get_text, get_uint,
}

-- The reads of the threads, and what they find.
pub record Reads (job_id interval : ℕ) (hostname : Bytes) (m l : Bool) (config : ConfigMap)
    : Type 0 where
  pub levels : (r : Bytes × Bytes) × (log_levels config ≡ done r)
  pub client :
      (r : Bytes × Bytes × Bytes) × (client_settings (add_job job_id hostname config) ≡ done r)
  pub monitoring :
      get_flag (codes "enableMonitoring") (add_answer interval m l (add_job job_id hostname config))
      ≡ some m
  pub database :
      (conf : Bytes) × (database_settings (add_answer interval m l (add_job job_id hostname config))
        ≡ done (conf, to_string job_id, hostname))
  pub init :
      init_settings (add_answer interval m l (add_job job_id hostname config))
      ≡ done (job_id, interval, l)

abbrev AllReads : ConfigMap → Type 0
AllReads config =
    (job_id interval : ℕ) (hostname : Bytes) (m l : Bool)
    → Reads job_id interval hostname m l config

config_of :
    (log_level log_level_file restapi_host : Bytes) (restapi_port : ℕ)
    (id secret questdb_host : Bytes) (questdb_port : ℕ) (questdb_database user password : Bytes)
    → AllReads (
        insert (codes "questdb_password") (text password) (
          insert (codes "questdb_user") (text user) (
            insert (codes "questdb_database") (text questdb_database) (
              insert (codes "questdb_port") (uint questdb_port) (
                insert (codes "questdb_host") (text questdb_host) (
                  insert (codes "restapi_client_secret") (text secret) (
                    insert (codes "restapi_client_id") (text id) (
                      insert (codes "restapi_port") (uint restapi_port) (
                        insert (codes "restapi_host") (text restapi_host) (
                          insert
                            (codes "log_level_file")
                            (text log_level_file)
                            (insert (codes "log_level") (text log_level) [])))))))))))
unfolding lookup insert lookup_or bytes_eq bytes_lt add_job add_answer log_levels client_settings
    database_settings init_settings get_flag get_text get_uint setting
config_of log_level log_level_file restapi_host restapi_port id secret questdb_host questdb_port
      questdb_database user password job_id interval hostname m l =
    record {
      levels = (_, refl);
      client = (_, refl);
      monitoring = refl;
      database = (_, refl);
      init = refl;
    }

read_config-AllReads : (ini : Ini) → Ensures AllReads (read_config ini)
unfolding read_config
read_config-AllReads ini =
    Ensures-or_fail AllReads (ini.tree (codes "general.log_level")) _ λ log_level _.
      Ensures-or_fail AllReads (ini.tree (codes "general.log_level_file")) _ λ log_level_file _.
        Ensures-or_fail AllReads (ini.tree (codes "restapi.host")) _ λ restapi_host _.
          Ensures-bind AllReads (uint_at ini (codes "restapi.port")) _ λ restapi_port _.
            Ensures-or_fail AllReads (ini.tree (codes "restapi.client_id")) _ λ id _.
              Ensures-or_fail AllReads (ini.tree (codes "restapi.client_secret")) _ λ secret _.
                Ensures-or_fail AllReads (ini.tree (codes "questdb.host")) _ λ questdb_host _.
                  Ensures-bind AllReads (uint_at ini (codes "questdb.port")) _ λ questdb_port _.
                    Ensures-or_fail AllReads (ini.tree (codes "questdb.database")) _
                      λ questdb_database _.
                        Ensures-or_fail AllReads (ini.tree (codes "questdb.user")) _ λ user _.
                          Ensures-or_fail AllReads (ini.tree (codes "questdb.password")) _
                            λ password _.
                              config_of log_level log_level_file restapi_host restapi_port id secret
                                questdb_host questdb_port questdb_database user password

-- Once main has read its configuration file, no read of the configuration throws: initLogging finds its
-- two levels, the client of the REST backend its settings, writeToDb and init theirs once the job and
-- the answer of the backend are added; and the job, the host name, the interval and the two switches
-- are read as they were put in.
pub read_config-Reads :
    (ini : Ini) (config : ConfigMap)
    → read_config ini ≡ done config
    → (job_id interval : ℕ) (hostname : Bytes) (m l : Bool)
    → Reads job_id interval hostname m l config
read_config-Reads ini config h =
    Ensures-done AllReads (read_config ini) (read_config-AllReads ini) h
