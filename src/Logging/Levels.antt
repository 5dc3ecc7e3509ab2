-- ===== src/Logging/Levels.antt =====
-- severityMapping of src/xbatd/src/CLogging.cpp: what the names of the levels let through.
use xbat_ginkgo.Base.{◌≡◌, refl, none, Bytes, leb, true, arith}
use xbat_ginkgo.Base.Maps.{lookup, lookup_or, bytes_key, bytes_eq}
use xbat_ginkgo.Logging.{
  SeverityLevel, debug, info, warning, error, LogRecord, rank, level_name, severity_mapping,
  severity_of, passes,
}

unknown-IsDebug : (name : Bytes) → lookup name severity_mapping ≡ none → severity_of name ≡ debug
unfolding severity_of lookup_or
unknown-IsDebug name e = rw (e, lookup_or) refl

-- A name that is not one of the four, for instance in capital letters, lets every record through.
unknown-passes :
    (name : Bytes) (r : LogRecord)
    → lookup name severity_mapping ≡ none
    → passes (severity_of name) r ≡ true
unfolding passes
unknown-passes name r e = rw (unknown-IsDebug name e) (ground arith)

-- The mapping and the operator `<<` agree.
severity_of-level_name : (level : SeverityLevel) → severity_of (level_name level) ≡ level
unfolding severity_of lookup_or lookup bytes_eq
severity_of-level_name debug = refl
severity_of-level_name info = refl
severity_of-level_name warning = refl
severity_of-level_name error = refl

-- So under the name of a level, a sink has the records of that level and above.
passes-level_name :
    (level : SeverityLevel) (r : LogRecord)
    → passes (severity_of (level_name level)) r ≡ leb (rank level) (rank r.severity)
unfolding passes
passes-level_name level r = rw (severity_of-level_name level) refl
