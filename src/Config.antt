-- ===== src/Config.antt =====
-- src/xbatd/src/definitions.hpp: what main of src/xbatd/src/main.cpp puts into the configuration, and
-- what it, initLogging of CLogging.cpp, writeToDb and ThreadHelper::init take out of it. The parser of
-- the file is a parameter.
pub mod Reads
use xbat_ginkgo.Base.{ℕ, Bool, [], ◌∷◌, ◌++◌, Option, none, some, Bytes, codes}
use xbat_ginkgo.Base.Maps.{Map, lookup_or, insert, bytes_key}
use xbat_ginkgo.Base.Outcome.{Outcome, done, or_fault, or_fail, ◌>>=◌}
use xbat_ginkgo.Text.Numbers.{to_string}

-- std::variant<std::string, uint, bool>
pub data Setting : Type 0 where
  text : Bytes → Setting
  uint : ℕ → Setting
  flag : Bool → Setting

-- config_map
abbrev pub ConfigMap : Type 0
ConfigMap = Map Bytes Setting

-- `config[key]`: a missing key gets the first alternative, the empty text.
unfoldable pub setting : Bytes → ConfigMap → Setting
unfolding lookup_or
setting key config = lookup_or (text []) key config

abbrev pub text_of : Setting → Option Bytes
text_of (text s) = some s
text_of (uint n) = none
text_of (flag b) = none

abbrev pub uint_of : Setting → Option ℕ
uint_of (uint n) = some n
uint_of (text s) = none
uint_of (flag b) = none

abbrev pub flag_of : Setting → Option Bool
flag_of (flag b) = some b
flag_of (text s) = none
flag_of (uint n) = none

-- `std::get` throws std::bad_variant_access at another alternative: `none`.
unfoldable pub get_text : Bytes → ConfigMap → Option Bytes
unfolding setting
get_text key config = text_of (setting key config)

unfoldable pub get_uint : Bytes → ConfigMap → Option ℕ
unfolding setting
get_uint key config = uint_of (setting key config)

unfoldable pub get_flag : Bytes → ConfigMap → Option Bool
unfolding setting
get_flag key config = flag_of (setting key config)

-- The parsed file: what stands under a path, and how a text is read as a number.
pub record Ini : Type 0 where
  pub tree : Bytes → Option Bytes
  pub to_uint : Bytes → Option ℕ

-- `pt.get<uint>`: a missing path is ptree_bad_path, which main catches, and a text that is no number is
-- ptree_bad_data, which it does not.
unfoldable pub uint_at : Ini → Bytes → Outcome ℕ
uint_at ini path = do value ← or_fail (ini.tree path); or_fault (ini.to_uint value)

unfoldable pub read_config : Ini → Outcome ConfigMap
unfolding uint_at
read_config ini = do
  log_level ← or_fail (ini.tree (codes "general.log_level"))
  log_level_file ← or_fail (ini.tree (codes "general.log_level_file"))
  restapi_host ← or_fail (ini.tree (codes "restapi.host"))
  restapi_port ← uint_at ini (codes "restapi.port")
  restapi_client_id ← or_fail (ini.tree (codes "restapi.client_id"))
  restapi_client_secret ← or_fail (ini.tree (codes "restapi.client_secret"))
  questdb_host ← or_fail (ini.tree (codes "questdb.host"))
  questdb_port ← uint_at ini (codes "questdb.port")
  questdb_database ← or_fail (ini.tree (codes "questdb.database"))
  questdb_user ← or_fail (ini.tree (codes "questdb.user"))
  questdb_password ← or_fail (ini.tree (codes "questdb.password"))
  done (
      insert (codes "questdb_password") (text questdb_password) (
        insert (codes "questdb_user") (text questdb_user) (
          insert (codes "questdb_database") (text questdb_database) (
            insert (codes "questdb_port") (uint questdb_port) (
              insert (codes "questdb_host") (text questdb_host) (
                insert (codes "restapi_client_secret") (text restapi_client_secret) (
                  insert (codes "restapi_client_id") (text restapi_client_id) (
                    insert (codes "restapi_port") (uint restapi_port) (
                      insert (codes "restapi_host") (text restapi_host) (
                        insert (codes "log_level_file") (text log_level_file)
                          (insert (codes "log_level") (text log_level) [])))))))))))

-- What main adds before the measurements.
unfoldable pub add_job : ℕ → Bytes → ConfigMap → ConfigMap
add_job job_id hostname config =
    insert (codes "hostname") (text hostname) (insert (codes "jobId") (uint job_id) config)

unfoldable pub add_answer : ℕ → Bool → Bool → ConfigMap → ConfigMap
add_answer interval enable_monitoring enable_likwid config =
    insert (codes "enableLikwid") (flag enable_likwid) (
      insert (codes "enableMonitoring") (flag enable_monitoring)
        (insert (codes "interval") (uint interval) config))

-- The names of the levels that initLogging takes.
unfoldable pub log_levels : ConfigMap → Outcome (Bytes × Bytes)
unfolding get_text
log_levels config = do
  file ← or_fault (get_text (codes "log_level_file") config)
  console ← or_fault (get_text (codes "log_level") config)
  done (file, console)

-- The arguments of the client of the REST backend.
unfoldable pub client_settings : ConfigMap → Outcome (Bytes × Bytes × Bytes)
unfolding get_text get_uint
client_settings config = do
  host ← or_fault (get_text (codes "restapi_host") config)
  port ← or_fault (get_uint (codes "restapi_port") config)
  id ← or_fault (get_text (codes "restapi_client_id") config)
  secret ← or_fault (get_text (codes "restapi_client_secret") config)
  done (codes "https://" ++ (host ++ (codes ":" ++ to_string port)), id, secret)

-- `confStr`, `jobId` and `hostname` of writeToDb.
unfoldable pub database_settings : ConfigMap → Outcome (Bytes × Bytes × Bytes)
unfolding get_text get_uint
database_settings config = do
  host ← or_fault (get_text (codes "questdb_host") config)
  port ← or_fault (get_uint (codes "questdb_port") config)
  user ← or_fault (get_text (codes "questdb_user") config)
  password ← or_fault (get_text (codes "questdb_password") config)
  job_id ← or_fault (get_uint (codes "jobId") config)
  hostname ← or_fault (get_text (codes "hostname") config)
  done (
    codes "http::addr="
        ++ (host
            ++ (codes ":"
                ++ (to_string port
                    ++ (codes ";username="
                        ++ (user
                            ++ (codes ";password="
                                ++ (password ++ codes ";retry_timeout=15000;"))))))),
    to_string job_id,
    hostname,
  )

-- The job, the interval and whether likwid is enabled, as ThreadHelper::init takes them.
unfoldable pub init_settings : ConfigMap → Outcome (ℕ × ℕ × Bool)
unfolding get_uint get_flag
init_settings config = do
  job_id ← or_fault (get_uint (codes "jobId") config)
  interval ← or_fault (get_uint (codes "interval") config)
  likwid ← or_fault (get_flag (codes "enableLikwid") config)
  done (job_id, interval, likwid)
