-- ===== src/Memory/Keys.antt =====
-- A key with which no name of an entry begins is not read from /proc/meminfo.
use xbat_ginkgo.Base.{
  ◌≡◌, refl, sym, ◌≢◌, ◌∙◌, ap, subst, inl, inr, true, false, List, [], ◌∷◌, ◌++◌, none, some,
  Option, Bytes, codes, arith, All, Bool-cases,
}
use xbat_ginkgo.Base.Maps.{lookup, lookup-insert, bytes_key, bytes_eq, bytes_eq_iff}
use xbat_ginkgo.Base.Outcome.{
  Ensures, Ensures-bind, Ensures-or_fail, Ensures-or_fault, Ensures-done,
}
use xbat_ginkgo.Memory.{
  Values, entry_names, add_value, add_lines, read_values, erase_unit, scaled, factor_of,
}
use xbat_ginkgo.Text.Heads.{
  Begins, is_prefix-Begins, is_prefix-append, split_str-head, fields-printed,
  trim_whitespaces-Begins,
}
use xbat_ginkgo.Text.Lines.{
  printed, select, any, select-All, get_lines-IsLine, filter_lines-printed, keeps_not_containing,
  IsLine,
}
use xbat_ginkgo.Text.RoundTrip.{IsField, split_str-fields}
use xbat_ginkgo.Text.Numbers.{stoll}
use xbat_ginkgo.Text.{is_prefix, occurs, keeps_line, split_str, get_lines, trim_whitespaces}

module _ (key : Bytes) where
  -- A word with which `key` does not begin.
  abbrev pub IsOther : Bytes → Type 0
  IsOther n =
      (n ≢ [])
      × All (λ c. c ≢ b':') n
      × All (λ c. c ≢ b' ') n
      × All (λ c. c ≢ b'\n') n
      × (is_prefix n key ≡ false)

  -- A text that begins with such a word is not `key`.
  abbrev BeginsOther : Bytes → Type 0
  BeginsOther s = (n : Bytes) × IsOther n × Begins n s

  BeginsOther-ne : (s : Bytes) → BeginsOther s → bytes_eq s key ≡ false
  BeginsOther-ne s (n, other, (r, e)) = elim (Bool-cases (bytes_eq s key)) [
    | inl h ↦
        let whole : n ++ r ≡ key = sym e ∙ (bytes_eq_iff s key).0 h in
        let begins : is_prefix n key ≡ true =
          subst (λ x. is_prefix n x ≡ true) whole (is_prefix-append n r) in
        cc (begins, other.4)
    | inr h ↦ h
  ]

  abbrev pub IsAbsent : Values → Type 0
  IsAbsent values = lookup key values ≡ none

  add_value-IsAbsent :
      (k : Bytes) (rest : List Bytes) (values : Values)
      → BeginsOther k
      → IsAbsent values
      → Ensures IsAbsent (add_value (k ∷ rest) values)
  unfolding add_value
  add_value-IsAbsent k [] values b h = h
  add_value-IsAbsent k (v ∷ w ∷ rest) values b h = h
  add_value-IsAbsent k (v ∷ []) values (n, other, begins) h =
      let trimmed = trim_whitespaces-Begins n k other.0 other.2 other.3 begins in
      let ne = BeginsOther-ne (trim_whitespaces k false) (n, other, trimmed) in
      Ensures-bind IsAbsent (erase_unit (trim_whitespaces v false)) _ λ text _.
        Ensures-or_fault IsAbsent (stoll (trim_whitespaces text false)) _ λ number _.
          Ensures-bind IsAbsent (scaled number (factor_of (trim_whitespaces v false))) _
            λ size _. lookup-insert (trim_whitespaces k false) key size values ∙ (rw ne h)

  add_lines-IsAbsent :
      (ls : List Bytes) (values : Values)
      → All BeginsOther ls
      → IsAbsent values
      → Ensures IsAbsent (add_lines ls values)
  unfolding add_lines
  add_lines-IsAbsent [] values bs h = h
  add_lines-IsAbsent (l ∷ ls) values ((n, other, begins), bs) h =
      let (k, rest, parts) = split_str-head b':' n l (other.0, other.1) begins in
      rw parts (
        Ensures-bind IsAbsent (add_value ((n ++ k) ∷ rest) values) (add_lines ls) λ values' e.
          add_lines-IsAbsent ls values' bs (
            Ensures-done IsAbsent _
              (add_value-IsAbsent (n ++ k) rest values (n, other, (k, refl)) h) e))

  any-BeginsOther :
      (names : List Bytes) (line : Bytes)
      → All IsOther names
      → any (λ name. occurs true name line) names ≡ true
      → BeginsOther line
  unfolding occurs
  any-BeginsOther [] line hs e = cc
  any-BeginsOther (name ∷ names) line (h, hs) e = elim (Bool-cases (is_prefix name line)) [
    | inl b ↦ (name, h, is_prefix-Begins name line b)
    | inr b ↦ any-BeginsOther names line hs (ground arith)
  ]

  select-BeginsOther :
      (names ls : List Bytes)
      → All IsOther names
      → All BeginsOther (select (keeps_line names true false) ls)
  select-BeginsOther names [] hs = tt
  select-BeginsOther names (l ∷ ls) hs = elim (Bool-cases (keeps_line names true false l)) [
    | inl e ↦ rw e (
      any-BeginsOther names l hs (sym (keeps_not_containing names true l) ∙ e),
      select-BeginsOther names ls hs,
    )
    | inr e ↦ rw e (select-BeginsOther names ls hs)
  ]

  BeginsOther-full : (s : Bytes) → BeginsOther s → s ≢ []
  BeginsOther-full s ([], other, (r, e)) = absurd (other.0 refl)
  BeginsOther-full s (c ∷ n, other, (r, e)) = λ q. cc (e, q)

  IsField-lines : (ls : List Bytes) → All BeginsOther ls → All IsLine ls → All (IsField b'\n') ls
  IsField-lines [] bs hs = tt
  IsField-lines (l ∷ ls) (b, bs) (h, hs) = ((BeginsOther-full l b, h), IsField-lines ls bs hs)

  -- The lines that are read are those that begin with an entry's name.
  pub read_values-IsAbsent :
      (file : Option Bytes) → All IsOther entry_names → Ensures IsAbsent (read_values file)
  unfolding read_values lookup
  read_values-IsAbsent file hs = Ensures-or_fail IsAbsent file _ λ content _.
      let all = get_lines [] content in
      let ls = select (keeps_line entry_names true false) all in
      let bs = select-BeginsOther entry_names all hs in
      let is =
        select-All IsLine (keeps_line entry_names true false) all
          (get_lines-IsLine [] content tt) in
      let split =
        ap (λ x. split_str x (codes "\n")) (filter_lines-printed entry_names content true)
        ∙ split_str-fields b'\n' (printed ls)
        ∙ ap some (fields-printed ls (IsField-lines ls bs is)) in
      rw split (add_lines-IsAbsent ls [] bs refl)
