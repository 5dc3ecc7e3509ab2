-- ===== src/Tests/DaemonTests.antt =====
-- The daemon as a whole: main, the benchmark, LIKWID, and the way from the queue to the database.
use xbat_ginkgo.Base.{
  ℕ, ◌-◌, ◌*◌, ◌/◌, ◌^◌, ◌≤◌, ◌<◌, ◌≡◌, ◌⊎◌, refl, true, false, ◌&&◌, List, [], ◌∷◌, ◌++◌, none,
  some, Bytes, arith, codes, length,
}
use xbat_ginkgo.Base.Int.{pos}
use xbat_ginkgo.Base.Maps.{Map, lookup, insert, bytes_eq, bytes_lt, bytes_key}
use xbat_ginkgo.Base.Outcome.{done}
use xbat_ginkgo.Bench.{benchmark_system, int_text, cache_size, mem}
use xbat_ginkgo.Bench.Cleanup.{IsCleaned, benchmark_system_lem}
use xbat_ginkgo.Bench.Sizes.{cache_size-mem}
use xbat_ginkgo.Collector.{sleep_milliseconds_and_check}
use xbat_ginkgo.Files.{Files, Access}
use xbat_ginkgo.Likwid.{
  Answers, Prepared, default_sets, contains, get_available_groups, prepare_measurements,
}
use xbat_ginkgo.Likwid.Budget.{count_sets_lem}
use xbat_ginkgo.Likwid.Preparation.{HasIds, prepare_measurements_lem}
use xbat_ginkgo.Likwid.Sets.{SetRun, count_sets, set_time_of}
use xbat_ginkgo.Config.{Ini}
use xbat_ginkgo.Rest.{Json}
use xbat_ginkgo.Tests.SystemInfoTests.{
  Doc, null, text, number, get_string, document, uts, all_failed,
}
use xbat_ginkgo.Main.Started.{IsReadyEnd, main-IsReadyEnd}
use xbat_ginkgo.Main.{Setup, End, failure, main}
use xbat_ginkgo.Main.Logout.{IsLoggedOut, main-IsLoggedOut, main-unreached}
use xbat_ginkgo.Pipeline.{Operation, pushing, popping, run_operations}
use xbat_ginkgo.Pipeline.Refinement.{boxes_of, specified, pipeline_lem}
use xbat_ginkgo.Queue.{Entry, int64, no_entries}
use xbat_ginkgo.Tests.RestTests.{plain, server, unreached, unset, two_sockets}
use xbat_ginkgo.Tests.Whole.{whole}
use xbat_ginkgo.Text.{find}
use xbat_ginkgo.Text.Numbers.{to_string, stoi}
use xbat_ginkgo.Writer.{write_to_db}
use xbat_ginkgo.Writer.Delivery.{IsDelivered, poll_rows}

abbrev reading : ℕ → Entry ℕ
reading n = int64 (record { measurement = codes "mem_used"; tags = []; value = pos n; ts = 7 })

-- A push, a poll that takes it, and one that times out.
abbrev operations : List (Operation ℕ)
operations =
    pushing (reading 1 ∷ reading 2 ∷ [])
    ∷ popping (record { found = []; timed_out = false })
    ∷ popping (record { found = []; timed_out = true })
    ∷ []

pipeline_lem_example :
    ((run_operations operations []).0 ≡ (specified operations no_entries).0)
    × (boxes_of (run_operations operations []).1 ≡ (specified operations no_entries).1)
    × IsDelivered (poll_rows (codes "1") (codes "n1") (specified operations no_entries).0) (
        write_to_db
          (λ _. true)
          (λ _ _. true)
          (codes "1")
          (codes "n1")
          (run_operations operations []).0)
pipeline_lem_example =
    pipeline_lem (λ _. true) (λ _ _. true) (codes "1") (codes "n1") operations (omega arith, tt)

abbrev everything : Access
everything = record { can_read = λ _. true; can_write = λ _. true; can_remove = λ _. true }

abbrev prints : Bytes → Bytes
prints command = codes "n1\n#RETVAL# 0\n"

abbrev conf_files : Files
conf_files = (codes "c", codes "x") ∷ []

-- Every answer of the backend is a text; a text holds every member.
abbrev doc_json : Json Doc
doc_json = record {
  null = null;
  parse = λ s. some (text s);
  contains = λ j key. elim (get_string j) [ none ↦ false | some s ↦ true ];
  get_string = λ j key. get_string j;
  get_number = λ j key. elim (get_string j) [ none ↦ none | some s ↦ some 5 ];
  get_bool = λ j key. elim (get_string j) [ none ↦ none | some s ↦ some true ];
  object = λ members. text (codes "o");
  dump = λ j. codes "{}";
  contains-null = λ key. refl;
  get_number-null = λ key. refl;
}

abbrev ini : Ini
ini = record { tree = λ path. some (codes "v"); to_uint = λ value. some 443 }

abbrev setup : Setup Doc ℕ
setup = record {
  cli_accepted = true;
  conf_path = codes "c";
  job_id = 3;
  parse_ini = λ text. some ini;
  files = conf_files;
  access = everything;
  prints = prints;
  stod = λ text. none;
  uts = uts;
  printed = all_failed;
  of_double = λ value. number (pos value);
  digest = λ text. none;
  topology_init = true;
  likwid = two_sockets;
  topology = unset;
}

abbrev ended : End
ended = elim (main doc_json document plain server setup) [ done e ↦ e | _ ↦ failure none ]

main_ends : main doc_json document plain server setup ≡ done ended
unfolding main lookup insert bytes_eq bytes_lt find stoi
main_ends = refl

main_succeeds : ended.status ≡ pos 0
unfolding main lookup insert bytes_eq bytes_lt find stoi
main_succeeds = refl

main-IsLoggedOut_example : IsLoggedOut ended
main-IsLoggedOut_example = main-IsLoggedOut doc_json document plain server setup ended main_ends

main-IsReadyEnd_example : IsReadyEnd ended
main-IsReadyEnd_example = main-IsReadyEnd doc_json document plain server setup ended main_ends

-- The command for the host's name does not succeed.
abbrev no_host : Setup Doc ℕ
no_host = record setup { prints = λ command. codes "hostname: not found\n#RETVAL# 127\n" }

no_host_fails : main doc_json document plain unreached no_host ≡ done (failure none)
unfolding main lookup insert bytes_eq bytes_lt find stoi
no_host_fails = refl

main-unreached_example : failure none ≡ failure none
main-unreached_example =
    main-unreached doc_json document plain unreached no_host (failure none) (λ r. refl)
      no_host_fails

abbrev benchmarked : Map Bytes ℕ × Files
benchmarked = elim (benchmark_system {W = ℕ} (λ text. some 2) prints everything unset conf_files) [
  | done r ↦ r
  | _ ↦ ([], [])
]

benchmark_system_lem_example :
    IsCleaned conf_files benchmarked.1 ⊎ ((benchmarked.0 ≡ []) × (benchmarked.1 ≡ conf_files))
unfolding benchmark_system lookup insert bytes_eq bytes_lt find stoi
benchmark_system_lem_example =
    benchmark_system_lem (λ text. some 2) prints everything unset conf_files benchmarked.1
      benchmarked.0 refl

cache_size-mem_example :
    (unset.cache_total < 2 ^ 29
      → int_text 1024 (cache_size unset mem) ≡ to_string (unset.cache_total * 4 / 1024))
    × (2 ^ 29 ≤ unset.cache_total
        → unset.cache_total ≤ 2 ^ 30 - 256
        → int_text 1024 (cache_size unset mem)
          ≡ codes "-" ++ to_string ((2 ^ 32 - unset.cache_total * 4) / 1024))
cache_size-mem_example = cache_size-mem unset

abbrev answers : Answers
answers = record {
  topology_init = true;
  thread_pool = (true, 0) ∷ (false, 1) ∷ [];
  hpm_init = true;
  perfmon_init = λ cpus. true;
  groups = some (some (codes "L3") ∷ none ∷ some (codes "DATA") ∷ []);
  add_event_set = λ set. some (length set);
}

abbrev prepared : Prepared
prepared = record { cpus = 0 ∷ []; set_list = codes "DATA" ∷ codes "L3" ∷ []; gids = 4 ∷ 2 ∷ [] }

prepare_measurements_lem_example :
    (0 < length prepared.gids)
    × (length prepared.gids ≡ length prepared.set_list)
    × HasIds answers.add_event_set prepared.set_list prepared.gids
    × ((s : Bytes)
        → contains s prepared.set_list
          ≡ (contains s default_sets && contains s (get_available_groups answers.groups)))
unfolding prepare_measurements bytes_eq
prepare_measurements_lem_example = prepare_measurements_lem answers prepared refl

abbrev quiet : SetRun
quiet = record {
  terminate = false;
  setup_ok = true;
  start_ok = true;
  overhead_before = 30;
  sleep_flag = λ _. false;
  stop_ok = true;
  overhead_after = 10;
}

count_sets_lem_example : (2000 ≤ 2001) × (0 < length prepared.gids)
unfolding set_time_of count_sets sleep_milliseconds_and_check
count_sets_lem_example = count_sets_lem 2001 1000 80 2000 (λ _. quiet) prepared.gids refl refl
