-- ===== src/Files.antt =====
-- readFileToString, writeToFile and deleteFile of src/xbatd/src/helper.cpp. Which files can be opened
-- and removed is a parameter.
use xbat_ginkgo.Base.{Bool, [], ◌∷◌, ◌++◌, none, some, Bytes, if◌then◌else◌}
use xbat_ginkgo.Base.Maps.{Map, lookup, lookup_or, insert, bytes_key, bytes_eq}
use xbat_ginkgo.Base.Outcome.{Outcome, done, fails, faults}

-- The content of each file.
abbrev pub Files : Type 0
Files = Map Bytes Bytes

-- What the system lets the daemon do.
pub record Access : Type 0 where
  pub can_read : Bytes → Bool
  pub can_write : Bytes → Bool
  pub can_remove : Bytes → Bool

unfoldable pub without : Bytes → Files → Files
without path [] = []
without path ((p, text) ∷ files) =
    if bytes_eq p path then without path files else (p, text) ∷ without path files

unfoldable pub read_file_to_string : Access → Bytes → Files → Outcome Bytes
read_file_to_string access path files = elim (lookup path files) [
  | none ↦ fails
  | some text ↦ if access.can_read path then done text else fails
]

unfoldable pub write_to_file : Access → Bytes → Bytes → Bool → Files → Outcome Files
write_to_file access path text append files =
    if access.can_write path
    then done (insert path (if append then lookup_or [] path files ++ text else text) files)
    else fails

-- `fs::remove` throws where it cannot remove a file: `faults`. It returns false only for a file that is
-- not there, and so not behind the test.
unfoldable pub delete_file : Access → Bytes → Files → Outcome Files
unfolding without
delete_file access path files = elim (lookup path files) [
  | none ↦ done files
  | some text ↦ if access.can_remove path then done (without path files) else faults
]
