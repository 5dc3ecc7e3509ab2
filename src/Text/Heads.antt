-- ===== src/Text/Heads.antt =====
-- The operations on texts keep the beginning of a text.
use xbat_ginkgo.Base.{
  ℕ, ◌≡◌, refl, sym, ap, ◌≢◌, ◌∙◌, inl, inr, Bool, true, false, List, [], ◌∷◌, ◌++◌, some, Bytes,
  arith, ◌==◌, All, Bool-cases, append_assoc, append-nil,
}
use xbat_ginkgo.Text.{
  is_prefix, is_empty, get_lines, split_str, spaces, replace_spaces, trim_lines, trim_whitespaces,
}
use xbat_ginkgo.Text.Lines.{printed, get_lines-append}
use xbat_ginkgo.Text.RoundTrip.{
  fields, fields-append, fields_at_sep, consed, consed_full, split_str-fields, IsField,
}

-- The text begins with `n`.
abbrev pub Begins : Bytes → Bytes → Type 0
Begins n s = (r : Bytes) × (s ≡ n ++ r)

is_prefix_step :
    (d c : ℕ) (n s : Bytes) → is_prefix (d ∷ n) (c ∷ s) ≡ true → (c ≡ d) × (is_prefix n s ≡ true)
unfolding is_prefix
is_prefix_step d c n s h = ground arith

pub is_prefix-Begins : (n s : Bytes) → is_prefix n s ≡ true → Begins n s
is_prefix-Begins [] s h = (s, refl)
is_prefix-Begins (d ∷ n) [] h = unfold is_prefix in cc
is_prefix-Begins (d ∷ n) (c ∷ s) h =
    let (same, more) = is_prefix_step d c n s h in
    let (r, e) = is_prefix-Begins n s more in (r, cc (same, e))

pub is_prefix-append : (n r : Bytes) → is_prefix n (n ++ r) ≡ true
unfolding is_prefix
is_prefix-append [] r = refl
is_prefix-append (d ∷ n) r = ground (arith, is_prefix-append n r)

-- The first line, and the first part, begin as the text does.
get_lines-head :
    (n x s : Bytes)
    → n ≢ []
    → (k : Bytes) × (rest : List Bytes) × (get_lines (n ++ x) s ≡ (n ++ k) ∷ rest)
unfolding get_lines is_empty
get_lines-head [] x s ne = absurd (ne refl)
get_lines-head (c ∷ n) x [] ne = (x, [], refl)
get_lines-head (c ∷ n) x (d ∷ s) ne = elim (Bool-cases (d == b'\n')) [
  | inl e ↦ rw e (x, get_lines [] s, refl)
  | inr e ↦
      let (k, rest, q) = get_lines-head (c ∷ n) (x ++ d ∷ []) s ne in
      rw e (k, rest, ap (λ line. get_lines line s) (append_assoc (c ∷ n) x (d ∷ [])) ∙ q)
]

fields-head :
    (sep : ℕ) (n x s : Bytes)
    → n ≢ []
    → (k : Bytes) × (rest : List Bytes) × (fields sep (n ++ x) s ≡ (n ++ k) ∷ rest)
unfolding fields
fields-head sep [] x s ne = absurd (ne refl)
fields-head sep (c ∷ n) x [] ne = (x, [], refl)
fields-head sep (c ∷ n) x (d ∷ s) ne = elim (Bool-cases (d == sep)) [
  | inl e ↦ rw e (x, fields sep [] s, refl)
  | inr e ↦
      let (k, rest, q) = fields-head sep (c ∷ n) (x ++ d ∷ []) s ne in
      rw e (k, rest, ap (λ cur. fields sep cur s) (append_assoc (c ∷ n) x (d ∷ [])) ∙ q)
]

-- The first part of a text that begins with a word begins with it.
pub split_str-head :
    (sep : ℕ) (n s : Bytes)
    → IsField sep n
    → Begins n s
    → (k : Bytes) × (rest : List Bytes) × (split_str s (sep ∷ []) ≡ some ((n ++ k) ∷ rest))
split_str-head sep n s (ne, h) (r, e) =
    let (k, rest, q) = fields-head sep n [] r ne in
    (
      k,
      rest,
      split_str-fields sep s
          ∙ ap some (
              ap (fields sep []) e
              ∙ fields-append sep [] n r h
              ∙ ap (λ cur. fields sep cur r) (sym (append-nil n))
              ∙ q),
    )

-- Lines that are not empty are what a text of lines is split into.
pub fields-printed : (ls : List Bytes) → All (IsField b'\n') ls → fields b'\n' [] (printed ls) ≡ ls
fields-printed [] h = unfold fields in refl
fields-printed (l ∷ ls) ((ne, h), hs) =
    fields-append b'\n' [] l (b'\n' ∷ printed ls) h
    ∙ fields_at_sep b'\n' l (printed ls)
    ∙ ap (consed l) (fields-printed ls hs)
    ∙ consed_full b'\n' l ls ne

-- A word: no space, no line break, no colon, and not empty.
abbrev NoSpace : Bytes → Type 0
NoSpace = All (λ c. c ≢ b' ')

replace_spaces_word :
    (begin : Bool) (c : ℕ) (s : Bytes)
    → c ≢ b' '
    → replace_spaces begin 0 (c ∷ s) ≡ c ∷ replace_spaces false 0 s
unfolding replace_spaces spaces
replace_spaces_word begin c s h = ground arith

replace_spaces-append :
    (n s : Bytes) → NoSpace n → replace_spaces false 0 (n ++ s) ≡ n ++ replace_spaces false 0 s
replace_spaces-append [] s h = refl
replace_spaces-append (c ∷ n) s (hc, h) =
    replace_spaces_word false c (n ++ s) hc ∙ ap (◌∷◌ c) (replace_spaces-append n s h)

trim_lines-Begins :
    (ls : List Bytes) (n out : Bytes) → Begins n out → Begins n (trim_lines ls false out)
unfolding trim_lines
trim_lines-Begins [] n out h = h
trim_lines-Begins (l ∷ ls) n out (r, e) =
    trim_lines-Begins ls n (out ++ replace_spaces true 0 l)
      (r ++ replace_spaces true 0 l, rw e (append_assoc n r (replace_spaces true 0 l)))

-- `trimWhitespaces` keeps a word at the beginning.
pub trim_whitespaces-Begins :
    (n s : Bytes)
    → n ≢ []
    → NoSpace n
    → All (λ c. c ≢ b'\n') n
    → Begins n s
    → Begins n (trim_whitespaces s false)
unfolding trim_whitespaces
trim_whitespaces-Begins [] s ne h l b = absurd (ne refl)
trim_whitespaces-Begins (c ∷ n) s ne (hc, h) l (r, e) =
    let (k, rest, q) = get_lines-head (c ∷ n) [] r ne in
    let read =
      ap (get_lines []) e
      ∙ get_lines-append [] (c ∷ n) r l
      ∙ ap (λ line. get_lines line r) (sym (append-nil (c ∷ n)))
      ∙ q in
    let first = replace_spaces_word true c (n ++ k) hc ∙ ap (◌∷◌ c) (replace_spaces-append n k h) in
    rw read (
      trim_lines-Begins rest (c ∷ n) (replace_spaces true 0 (c ∷ (n ++ k)))
        (replace_spaces false 0 k, first))
