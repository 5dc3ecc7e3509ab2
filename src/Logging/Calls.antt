-- ===== src/Logging/Calls.antt =====
-- CLogging::log of src/xbatd/src/CLogging.cpp: calls that do not overlap.
use xbat_ginkgo.Base.{
  ◌≡◌, refl, List, [], ◌∷◌, ◌++◌, map, append_assoc, append-nil, none, some, Option, Bytes,
}
use xbat_ginkgo.Base.Outcome.{done}
use xbat_ginkgo.Logging.{
  SeverityLevel, LogRecord, Attributes, Call, Logger, call_of, module_key, call_step, emit, log,
  log_all,
}

-- The attribute "Module" of the thread, and the arguments of `log`.
abbrev pub Line : Type 0
Line = Option Bytes × Bytes × SeverityLevel × Bytes

abbrev pub call_for : {H : Type 0} → Line → Call H
call_for (thread, name, level, text) = call_of thread name level text

abbrev pub record_for : Line → LogRecord
record_for (thread, name, level, text) = record {
  severity = level;
  mod_name = some name;
  message = text;
}

module _ {S H : Type 0} (at : Attributes S H) where
  open at use {value_at}

  -- One call.
  log_lem :
      (line : Line) (l : Logger S H)
      → value_at module_key l.attributes ≡ none
      → log at (call_for line) l ≡ done (record l { records = l.records ++ record_for line ∷ [] })
  unfolding log call_step emit
  log_lem (thread, name, level, text) l none_there =
      rw
        (
          at.add_attribute_new module_key name l.attributes none_there,
          at.remove_attribute-add_attribute module_key name l.attributes none_there,
        )
        refl

  -- Calls of `log(name, level, message)` that follow each other, on a logger without the attribute
  -- "Module": all of them return, each adds one record, in order, with its own name, level and message,
  -- whatever the attribute "Module" of its thread, and the attributes are left as they were.
  pub log_all_lem :
      (lines : List Line) (l : Logger S H)
      → value_at module_key l.attributes ≡ none
      → log_all at (map call_for lines) l
        ≡ done (record l { records = l.records ++ map record_for lines })
  unfolding log_all
  log_all_lem [] l none_there = rw (append-nil l.records) refl
  log_all_lem (line ∷ lines) l none_there =
      let l' = record l { records = l.records ++ record_for line ∷ [] } in
      rw (log_lem line l none_there) (
        rw (log_all_lem lines l' none_there)
          (rw (append_assoc l.records (record_for line ∷ []) (map record_for lines)) refl))
