-- ===== src/Logging/Order.antt =====
-- CLogging::log of src/xbatd/src/CLogging.cpp: calls on two threads that overlap.
use xbat_ginkgo.Base.{
  ℕ, append_assoc, ◌≡◌, refl, Bool, true, false, ◌++◌, List, [], ◌∷◌, none, some, Bytes,
}
use xbat_ginkgo.Base.Outcome.{done, faults}
use xbat_ginkgo.Logging.Calls.{Line, call_for}
use xbat_ginkgo.Logging.{
  LogRecord, Attributes, Call, Logger, emitted, module_key, call_step, emit, log_step, log_run,
}

-- The record of a call, under another name.
abbrev pub record_as : Bytes → Line → LogRecord
record_as name (thread, own, level, text) = record {
  severity = level;
  mod_name = some name;
  message = text;
}

abbrev pub name_of : Line → Bytes
name_of (thread, name, level, text) = name

-- Which of the two opens its record first.
abbrev pub order_of : Bool → List ℕ
order_of true = 0 ∷ 1 ∷ []
order_of false = 1 ∷ 0 ∷ []

abbrev pub records_of : Bool → Bytes → Line → Line → List LogRecord
records_of true name a b = record_as name a ∷ record_as name b ∷ []
records_of false name a b = record_as name b ∷ record_as name a ∷ []

module _ {S H : Type 0} (at : Attributes S H) where
  open at use {value_at, add_attribute}

  abbrev after : Logger S H → Line → Line → List (Call H) → Bool → Logger S H
  after l a b others first =
      let (s', h) = add_attribute module_key (name_of a) l.attributes in
      record {
        attributes = s';
        calls =
            record (call_for a) { progress = emitted h }
            ∷ record (call_for b) { progress = emitted h }
            ∷ others;
        records = l.records ++ records_of first (name_of a) a b;
      }

  -- Both have added their attributes, the first call first, and opened their records.
  opened :
      (l : Logger S H) (a b : Line) (others : List (Call H))
      → value_at module_key l.attributes ≡ none
      → l.calls ≡ call_for a ∷ call_for b ∷ others
      → (first : Bool) → log_run at (0 ∷ 1 ∷ order_of first) l ≡ done (after l a b others first)
  unfolding log_run log_step call_step emit
  opened l a b others none_there e true =
      let s' = (add_attribute module_key (name_of a) l.attributes).0 in
      let there = at.add_attribute_new module_key (name_of a) l.attributes none_there in
      let kept = at.add_attribute_old module_key (name_of b) (name_of a) s' there in
      let same =
        at.add_attribute_again module_key (name_of a) (name_of b) l.attributes none_there in
      let own = record_as (name_of a) a ∷ [] in
      rw (e, log_step)
        (rw (kept, same, there)
          (rw (append_assoc l.records own (record_as (name_of a) b ∷ [])) refl))
  opened l a b others none_there e false =
      let s' = (add_attribute module_key (name_of a) l.attributes).0 in
      let there = at.add_attribute_new module_key (name_of a) l.attributes none_there in
      let kept = at.add_attribute_old module_key (name_of b) (name_of a) s' there in
      let same =
        at.add_attribute_again module_key (name_of a) (name_of b) l.attributes none_there in
      let own = record_as (name_of a) b ∷ [] in
      rw (e, log_step)
        (rw (kept, same, there)
          (rw (append_assoc l.records own (record_as (name_of a) a ∷ [])) refl))

  removed :
      (l : Logger S H) (a b : Line) (others : List (Call H))
      → value_at module_key l.attributes ≡ none
      → (first second : Bool) → log_run at (order_of second) (after l a b others first) ≡ faults
  unfolding log_run log_step call_step
  removed l a b others none_there first true =
      let gone = at.remove_attribute-add_attribute module_key (name_of a) l.attributes none_there in
      let again = at.remove_attribute_again module_key (name_of a) l.attributes none_there in
      rw gone (rw (again, log_step) refl)
  removed l a b others none_there first false =
      let gone = at.remove_attribute-add_attribute module_key (name_of a) l.attributes none_there in
      let again = at.remove_attribute_again module_key (name_of a) l.attributes none_there in
      rw gone (rw (again, log_step) refl)

  -- Two threads call `log(name, level, message)` on a logger without the attribute "Module", whatever
  -- was recorded before, and whatever other calls there are that make no step meanwhile. If both add
  -- their attribute before either opens its record, and both open their records before either removes
  -- the attribute, then, in whichever order the records are opened, both have the name of the call that
  -- added first; and whichever of the two removes the attribute first, the other one removes it through
  -- an iterator that is no longer valid, which is undefined.
  pub overlapping_calls_fault :
      (l : Logger S H) (a b : Line) (others : List (Call H)) (first second : Bool)
      → value_at module_key l.attributes ≡ none
      → l.calls ≡ call_for a ∷ call_for b ∷ others
      → (l' : Logger S H) × (log_run at (0 ∷ 1 ∷ order_of first) l ≡ done l')
        × (l'.records ≡ l.records ++ records_of first (name_of a) a b)
        × (log_run at (order_of second) l' ≡ faults)
  overlapping_calls_fault l a b others first second none_there e = (
    after l a b others first,
    opened l a b others none_there e first,
    refl,
    removed l a b others none_there first second,
  )
