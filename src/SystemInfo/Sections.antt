-- ===== src/SystemInfo/Sections.antt =====
-- What `parseDmidecode` makes of the lines of dmidecode.
use xbat_ginkgo.Base.{
  ◌≡◌, refl, ◌≢◌, ◌∙◌, ap, inl, inr, true, false, List, [], ◌∷◌, map, none, some, Bytes, codes,
  arith, All, if◌then◌else◌, Bool-cases,
}
use xbat_ginkgo.Base.Maps.{lookup, bytes_key, bytes_eq_iff}
use xbat_ginkgo.Base.Outcome.{done}
use xbat_ginkgo.SystemInfo.Laws.{get-put_self, get-put_other}
use xbat_ginkgo.SystemInfo.{Document, line_value, set_in, parse_lines, parse_dmidecode}
use xbat_ginkgo.Text.Lines.{printed, IsLine, get_lines-printed}
use xbat_ginkgo.Text.RoundTrip.{IsField, split_str-join_vector}
use xbat_ginkgo.Text.{join_vector}

-- A line's first part, and the others.
abbrev pub Parts : Type 0
Parts = Bytes × List Bytes

abbrev pub line_of : Parts → Bytes
line_of (key, others) = join_vector (key ∷ others) (codes "=") []

abbrev pub IsEntry : Parts → Type 0
IsEntry (key, others) =
    All (IsField b'=') (key ∷ others) × IsLine (join_vector (key ∷ others) (codes "=") [])

-- The key and the value of a line.
abbrev pub item_of : Parts → Bytes × Bytes
item_of (key, others) = (key, line_value (key ∷ others))

module _ {J : Type 0} (doc : Document J) (name : Bytes) where
  open doc use {null, text, accepts, contains, get, put, accepts-put, contains-put, get-put}

  -- The value under a key of the section: the first line with the key gives it, if the section does not
  -- hold the key before.
  abbrev pub first_wins : J → List (Bytes × Bytes) → Bytes → J
  first_wins section items key =
      if contains section key
      then get key section
      else elim (lookup key items) [ none ↦ get key section | some v ↦ text v ]

  -- The document after the lines.
  pub record Filled (j : J) (items : List (Bytes × Bytes)) (j' : J) : Type 0 where
    pub section : (key : Bytes) → get key (get name j') ≡ first_wins (get name j) items key
    pub others : (other : Bytes) → name ≢ other → get other j' ≡ get other j

  first_wins-nil : (s : J) (key : Bytes) → get key s ≡ first_wins s [] key
  unfolding lookup
  first_wins-nil s key = ground arith

  first_wins-held :
      (s : J) (key k : Bytes) (v : Bytes) (items : List (Bytes × Bytes))
      → contains s key ≡ true
      → first_wins s items k ≡ first_wins s ((key, v) ∷ items) k
  unfolding lookup
  first_wins-held s key k v items h = ground (arith, bytes_eq_iff key k)

  first_wins-put :
      (s : J) (key k : Bytes) (v : Bytes) (items : List (Bytes × Bytes))
      → contains s key ≡ false
      → first_wins (put key (text v) s) items k ≡ first_wins s ((key, v) ∷ items) k
  unfolding lookup
  first_wins-put s key k v items h =
      ground (arith, bytes_eq_iff key k, contains-put key k (text v) s, get-put key k (text v) s)

  -- One line.
  parse_lines-held :
      (e : Parts) (ls : List Bytes) (j : J)
      → IsEntry e
      → accepts j ≡ true
      → contains (get name j) e.0 ≡ true
      → parse_lines doc name (line_of e ∷ ls) j ≡ parse_lines doc name ls j
  unfolding parse_lines
  parse_lines-held (key, others) ls j (h, l) a c =
      let parts = split_str-join_vector b'=' (key ∷ others) h in
      rw (parts, parse_lines) (rw (a, c) refl)

  parse_lines-new :
      (e : Parts) (ls : List Bytes) (j : J)
      → IsEntry e
      → accepts j ≡ true
      → accepts (get name j) ≡ true
      → contains (get name j) e.0 ≡ false
      → parse_lines doc name (line_of e ∷ ls) j
        ≡ parse_lines doc name ls (put name (put e.0 (text (item_of e).1) (get name j)) j)
  unfolding set_in parse_lines
  parse_lines-new (key, others) ls j (h, l) a b c =
      let parts = split_str-join_vector b'=' (key ∷ others) h in
      rw (parts, parse_lines) (rw (a, b, c) refl)

  parse_lines_lem :
      (es : List Parts) (j : J)
      → accepts j ≡ true
      → accepts (get name j) ≡ true
      → All IsEntry es
      → (j' : J) × (parse_lines doc name (map line_of es) j ≡ done j')
        × Filled j (map item_of es) j'
  unfolding parse_lines
  parse_lines_lem [] j a b h = (
    j,
    refl,
    record { section = λ key. first_wins-nil (get name j) key; others = λ other ne. refl },
  )
  parse_lines_lem (e ∷ es) j a b (h, hs) = elim (Bool-cases (contains (get name j) e.0)) [
    | inl held ↦
        let (j', r, f) = parse_lines_lem es j a b hs in
        (
          j',
          parse_lines-held e (map line_of es) j h a held ∙ r,
          record {
            section = λ k.
                f.section k
                ∙ first_wins-held (get name j) e.0 k (item_of e).1 (map item_of es) held;
            others = f.others;
          },
        )
    | inr new ↦
        let s = put e.0 (text (item_of e).1) (get name j) in
        let own = get-put_self doc name s j in
        let (j', r, f) =
          parse_lines_lem es (put name s j) (accepts-put name s j)
            (ap accepts own ∙ accepts-put e.0 (text (item_of e).1) (get name j)) hs in
        (
          j',
          parse_lines-new e (map line_of es) j h a b new ∙ r,
          record {
            section = λ k.
                f.section k
                ∙ ap (λ x. first_wins x (map item_of es) k) own
                ∙ first_wins-put (get name j) e.0 k (item_of e).1 (map item_of es) new;
            others = λ other ne. f.others other ne ∙ get-put_other doc name other s j ne;
          },
        )
  ]

  entries-IsLine : (es : List Parts) → All IsEntry es → All IsLine (map line_of es)
  entries-IsLine [] h = tt
  entries-IsLine (e ∷ es) (h, hs) = (h.1, entries-IsLine es hs)

  -- `parseDmidecode` on lines of parts that are joined by "=" ends without an exception, for a document
  -- whose section is an object or missing. In the section each key that it did not hold before has
  -- the value of the first line with this key, which is empty unless the line has two parts; the keys
  -- that it held keep their values, and so do all other sections.
  pub parse_dmidecode_lem :
      (es : List Parts) (j : J)
      → accepts j ≡ true
      → accepts (get name j) ≡ true
      → All IsEntry es
      → (j' : J) × (parse_dmidecode doc (printed (map line_of es)) j name ≡ done j')
        × Filled j (map item_of es) j'
  unfolding parse_dmidecode
  parse_dmidecode_lem es j a b h =
      let lines = get_lines-printed (map line_of es) (entries-IsLine es h) in
      rw lines (parse_lines_lem es j a b h)
