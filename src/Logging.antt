-- ===== src/Logging.antt =====
-- src/xbatd/src/CLogging.hpp and CLogging.cpp. The attributes of the logger that all threads share
-- (boost::log) are an interface; the time of a record is an argument.
pub mod Calls
pub mod Order
mod Levels
use mathlib.Core.Option
use xbat_ginkgo.Base.{
  ℕ, ◌≡◌, Bool, true, false, List, [], ◌∷◌, ◌++◌, Option, none, some, Bytes, codes, leb,
  if◌then◌else◌, get_elem?, set,
}
use xbat_ginkgo.Base.Maps.{Map, lookup_or, bytes_key}
use xbat_ginkgo.Base.Outcome.{Outcome, done, fails, faults, or_fault, or_fail, ◌>>=◌}
use xbat_ginkgo.Config.{ConfigMap, log_levels}

pub data SeverityLevel : Type 0 where
  debug : SeverityLevel
  info : SeverityLevel
  warning : SeverityLevel
  error : SeverityLevel

-- The value of the enumerator.
abbrev pub rank : SeverityLevel → ℕ
rank debug = 0
rank info = 1
rank warning = 2
rank error = 3

abbrev pub level_name : SeverityLevel → Bytes
level_name debug = codes "debug"
level_name info = codes "info"
level_name warning = codes "warning"
level_name error = codes "error"

abbrev pub severity_mapping : Map Bytes SeverityLevel
severity_mapping =
    (codes "debug", debug)
    ∷ (codes "error", error)
    ∷ (codes "info", info)
    ∷ (codes "warning", warning)
    ∷ []

-- `severityMapping[name]`, which is `debug` for any other name.
unfoldable pub severity_of : Bytes → SeverityLevel
unfolding lookup_or
severity_of name = lookup_or debug name severity_mapping

-- The thresholds of the file and of the console.
pub record Sinks : Type 0 where
  pub file : SeverityLevel
  pub console : SeverityLevel

unfoldable pub init_logging : ConfigMap → Outcome Sinks
unfolding log_levels severity_of
init_logging config = do
  (file_level, console_level) ← log_levels config
  done (record { file = severity_of file_level; console = severity_of console_level })

-- A record, with the attribute "Module" if the logger or the thread had it when the record was opened.
pub record LogRecord : Type 0 where
  pub severity : SeverityLevel
  pub mod_name : Option Bytes
  pub message : Bytes

-- The filter of a sink.
unfoldable pub passes : SeverityLevel → LogRecord → Bool
passes threshold r = leb (rank threshold) (rank r.severity)

abbrev pub in_brackets : Bytes → Bytes
in_brackets s = codes "[" ++ s ++ codes "]"

unfoldable pub format : Bytes → LogRecord → Bytes
format time r =
    in_brackets time
    ++ in_brackets (level_name r.severity)
    ++ (elim r.mod_name [ none ↦ [] | some m ↦ in_brackets m ])
    ++ codes ": "
    ++ r.message

-- The attributes of a logger. `add_attribute` does not replace an attribute of that name, and gives the
-- place of the one that is there; to remove what is no longer there is undefined: `none`.
pub record Attributes (S H : Type 0) : Type 0 where
  pub value_at : Bytes → S → Option Bytes
  pub add_attribute : Bytes → Bytes → S → S × H
  pub remove_attribute : H → S → Option S
  pub add_attribute_new :
      (k v : Bytes) (s : S) → value_at k s ≡ none → value_at k (add_attribute k v s).0 ≡ some v
  pub add_attribute_old :
      (k v w : Bytes) (s : S) → value_at k s ≡ some w → (add_attribute k v s).0 ≡ s
  pub add_attribute_again :
      (k v w : Bytes) (s : S)
      → value_at k s ≡ none
      → (add_attribute k w (add_attribute k v s).0).1 ≡ (add_attribute k v s).1
  pub remove_attribute-add_attribute :
      (k v : Bytes) (s : S)
      → value_at k s ≡ none
      → remove_attribute (add_attribute k v s).1 (add_attribute k v s).0 ≡ some s
  pub remove_attribute_again :
      (k v : Bytes) (s : S)
      → value_at k s ≡ none
      → remove_attribute (add_attribute k v s).1 s ≡ none

-- setModule: the attribute "Module" of the calling thread, which is not replaced if it is there.
unfoldable pub set_module : Bytes → Option Bytes → Option Bytes
set_module name none = some name
set_module name (some old) = some old

-- How far a call of `log` has come.
pub data Progress (H : Type 0) : Type 0 where
  called : Progress H
  added : H → Progress H
  emitted : H → Progress H
  left : Progress H

-- `thread` is the attribute "Module" of the thread that makes the call.
pub record Call (H : Type 0) : Type 0 where
  pub thread : Option Bytes
  pub name : Bytes
  pub level : SeverityLevel
  pub text : Bytes
  pub progress : Progress H

-- The logger with the calls that threads make, and the records so far.
pub record Logger (S H : Type 0) : Type 0 where
  pub attributes : S
  pub calls : List (Call H)
  pub records : List LogRecord

abbrev pub module_key : Bytes
module_key = codes "Module"

abbrev pub call_of : {H : Type 0} → Option Bytes → Bytes → SeverityLevel → Bytes → Call H
call_of thread name level text = record {
  thread = thread;
  name = name;
  level = level;
  text = text;
  progress = called;
}

module _ {S H : Type 0} (at : Attributes S H) where
  open at use {value_at, add_attribute, remove_attribute}

  -- `log(level, message)`, and the line of the other `log` that opens the record: an attribute of the
  -- logger goes before one of the thread.
  unfoldable pub emit : S → Option Bytes → SeverityLevel → Bytes → LogRecord
  emit s thread level text = record {
    severity = level;
    mod_name = elim (value_at module_key s) [ none ↦ thread | some name ↦ some name ];
    message = text;
  }

  -- One statement of `log(name, level, message)`; the lock of the logger is held for it alone.
  unfoldable pub call_step : Progress H → Call H → Logger S H → Outcome (Call H × Logger S H)
  unfolding emit
  call_step called c l =
      let r = add_attribute module_key c.name l.attributes in
      done (record c { progress = added r.1 }, record l { attributes = r.0 })
  call_step (added h) c l = done (
    record c { progress = emitted h },
    record l { records = l.records ++ emit l.attributes c.thread c.level c.text ∷ [] },
  )
  call_step (emitted h) c l = do
    s ← or_fault (remove_attribute h l.attributes)
    done (record c { progress = left }, record l { attributes = s })
  call_step left c l = fails

  -- The thread of call `i` moves.
  unfoldable pub log_step : ℕ → Logger S H → Outcome (Logger S H)
  unfolding call_step
  log_step i l = do
    c ← or_fail (get_elem? l.calls i)
    (c', l') ← call_step c.progress c l
    done (record l' { calls = set l'.calls i c' })

  unfoldable pub log_run : List ℕ → Logger S H → Outcome (Logger S H)
  unfolding log_step
  log_run [] l = done l
  log_run (i ∷ is) l = do l' ← log_step i l; log_run is l'

  -- `log(name, level, message)` on a thread that is alone.
  unfoldable pub log : Call H → Logger S H → Outcome (Logger S H)
  unfolding call_step
  log c l = do
    (c1, l1) ← call_step c.progress c l
    (c2, l2) ← call_step c1.progress c1 l1
    (c3, l3) ← call_step c2.progress c2 l2
    done l3

  -- Calls one after another.
  unfoldable pub log_all : List (Call H) → Logger S H → Outcome (Logger S H)
  unfolding log
  log_all [] l = done l
  log_all (c ∷ cs) l = do l' ← log c l; log_all cs l'
