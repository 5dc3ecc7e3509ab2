-- ===== src/Text/Trim.antt =====
-- `trimWhitespaces` on a line, against `splitStr` and `joinVector` at the space.
use mathlib.Core.List.{concat-ne-nil}
use xbat_ginkgo.Base.{
  ltb, ℕ, suc, ◌-◌, ◌≡◌, some_inj, refl, sym, subst, ◌≢◌, ◌∙◌, inl, inr, Bool, true, false, List,
  [], ◌∷◌, ◌++◌, some, Bytes, arith, ◌==◌, if◌then◌else◌, drop, All, Bool-cases, append_assoc,
  append-nil, ==_iff,
}
use xbat_ginkgo.Text.{is_empty, spaces, replace_spaces, split_str, join_vector}
use xbat_ginkgo.Text.RoundTrip.{
  fields, fields_at_sep, joined, consed_full, split_str-fields, split_str-join_vector, IsField,
  fields-IsField, join_loop-joined,
}

abbrev sp : ℕ
sp = b' '

-- The text from its first byte that is not a space.
abbrev skip_spaces : Bytes → Bytes
skip_spaces [] = []
skip_spaces (c ∷ s) = if c == sp then skip_spaces s else c ∷ s

drop-spaces : (s : Bytes) → drop (spaces s) s ≡ skip_spaces s
unfolding spaces
drop-spaces [] = refl
drop-spaces (c ∷ s) = elim (Bool-cases (c == sp)) [ inl e ↦ rw e (drop-spaces s) | inr e ↦ rw e ]

replace_spaces_skip :
    (s : Bytes) → replace_spaces false (spaces s) s ≡ replace_spaces false 0 (skip_spaces s)
unfolding replace_spaces
replace_spaces_skip [] = refl
replace_spaces_skip (c ∷ s) = elim (Bool-cases (c == sp)) [
  | inl e ↦ rw e (replace_spaces_skip s)
  | inr e ↦ rw e
]

-- What the words after a gap print to.
abbrev gap : Bytes → Bytes
gap [] = []
gap (c ∷ s) = sp ∷ replace_spaces false 0 (c ∷ s)

-- The replacement for `n + 1` spaces within the line, before `t`.
gap_out :
    (n : ℕ) (t : Bytes)
    → (if suc n == 0
          then sp ∷ []
          else if is_empty t
          then []
          else if ltb 1 (suc n)
          then sp ∷ []
          else sp ∷ [])
        ++ replace_spaces false 0 t
      ≡ gap t
unfolding replace_spaces
gap_out n [] = ground arith
gap_out n (c ∷ t) = ground arith

one_less : (n : ℕ) → suc n - 1 ≡ n
one_less n = omega arith

replace_spaces-gap : (s : Bytes) → replace_spaces false 0 (sp ∷ s) ≡ gap (skip_spaces s)
unfolding replace_spaces
replace_spaces-gap s =
    rw (drop-spaces s, one_less (spaces s), replace_spaces_skip s)
      (gap_out (spaces s) (skip_spaces s))

replace_spaces_other :
    (begin : Bool) (c : ℕ) (s : Bytes)
    → (c == sp) ≡ false
    → replace_spaces begin 0 (c ∷ s) ≡ c ∷ replace_spaces false 0 s
unfolding replace_spaces
replace_spaces_other begin c s e = rw e

abbrev words : Bytes → Bytes → List Bytes
words = fields sp

words_other :
    (cur : Bytes) (c : ℕ) (s : Bytes)
    → (c == sp) ≡ false
    → words cur (c ∷ s) ≡ words (cur ++ c ∷ []) s
unfolding fields
words_other cur c s e = rw e

words_ne : (cur s : Bytes) → cur ≢ [] → words cur s ≢ []
unfolding fields
words_ne [] s h = absurd (h refl)
words_ne (c ∷ cur) [] h = λ e. cc
words_ne (c ∷ cur) (d ∷ s) h = ground (arith, words_ne (c ∷ cur ++ d ∷ []) s)

joined_cons : (v : Bytes) (vs : List Bytes) → vs ≢ [] → joined sp (v ∷ vs) ≡ v ++ sp ∷ joined sp vs
joined_cons v [] h = absurd (h refl)
joined_cons v (w ∷ vs) h = refl

words_end : (cur : Bytes) → cur ≢ [] → words cur [] ≡ cur ∷ []
unfolding fields
words_end cur h = consed_full sp cur [] h

words_at_space : (cur s : Bytes) → cur ≢ [] → words cur (sp ∷ s) ≡ cur ∷ words [] s
words_at_space cur s h = fields_at_sep sp cur s ∙ consed_full sp cur (words [] s) h

replace_spaces_nil : (begin : Bool) → replace_spaces begin 0 [] ≡ []
unfolding replace_spaces
replace_spaces_nil begin = refl

words_nil : words [] [] ≡ []
unfolding fields
words_nil = refl

-- Within the word `cur`, and in a gap behind it.
abbrev Follows : Bytes → Bytes → Type 0
Follows s cur =
    (joined sp (words cur s) ≡ cur ++ replace_spaces false 0 s)
    × (joined sp (cur ∷ words [] s) ≡ cur ++ gap (skip_spaces s))

Follows-space : (s cur : Bytes) → cur ≢ [] → Follows s cur → Follows (sp ∷ s) cur
Follows-space s cur h ih =
    (rw (words_at_space cur s h, replace_spaces-gap s) ih.1, rw (fields_at_sep sp [] s) ih.1)

Follows-other :
    (c : ℕ) (s cur : Bytes)
    → cur ≢ []
    → (c == sp) ≡ false
    → joined sp (words (cur ++ c ∷ []) s) ≡ (cur ++ c ∷ []) ++ replace_spaces false 0 s
    → joined sp (words (c ∷ []) s) ≡ c ∷ replace_spaces false 0 s
    → Follows (c ∷ s) cur
Follows-other c s cur h e here new =
    let other = replace_spaces_other false c s e in
    (
      rw (words_other cur c s e, other) (here ∙ append_assoc cur (c ∷ []) _),
      rw (words_other [] c s e, joined_cons cur _ (words_ne (c ∷ []) s (λ e. cc)), new, e, other)
          refl,
    )

Follows-words : (s cur : Bytes) → cur ≢ [] → Follows s cur
Follows-words [] cur h = (
  rw (words_end cur h, replace_spaces_nil) (sym (append-nil cur)),
  rw words_nil (sym (append-nil cur)),
)
Follows-words (c ∷ s) cur h = elim (Bool-cases (c == sp)) [
  | inl e ↦ rw ((==_iff c sp).0 e) (Follows-space s cur h (Follows-words s cur h))
  | inr e ↦
      Follows-other c s cur h e (Follows-words s (cur ++ c ∷ []) (concat-ne-nil c cur)).0
        (Follows-words s (c ∷ []) (λ e. cc)).0
]

start_word :
    (begin : Bool) (c : ℕ) (s : Bytes)
    → (c == sp) ≡ false
    → replace_spaces begin 0 (c ∷ s) ≡ joined sp (words [] (c ∷ s))
start_word begin c s e =
    rw (replace_spaces_other begin c s e, words_other [] c s e)
      (sym (Follows-words s (c ∷ []) (λ e. cc)).0)

skipped : (s : Bytes) → replace_spaces false 0 (skip_spaces s) ≡ joined sp (words [] s)
skipped [] = rw (replace_spaces_nil false, words_nil)
skipped (c ∷ s) = elim (Bool-cases (c == sp)) [
  | inl e ↦ rw ((==_iff c sp).0 e, fields_at_sep sp [] s) (skipped s)
  | inr e ↦ rw e (start_word false c s e)
]

begin_out : (n : ℕ) (r : Bytes) → (if suc n == 0 then sp ∷ [] else []) ++ r ≡ r
begin_out n r = ground arith

replace_spaces_begin :
    (s : Bytes) → replace_spaces true 0 (sp ∷ s) ≡ replace_spaces false 0 (skip_spaces s)
unfolding replace_spaces
replace_spaces_begin s = rw (one_less (spaces s)) (begin_out (spaces s) _ ∙ replace_spaces_skip s)

start_of_line : (s : Bytes) → replace_spaces true 0 s ≡ joined sp (words [] s)
start_of_line [] = rw (replace_spaces_nil true, words_nil)
start_of_line (c ∷ s) = elim (Bool-cases (c == sp)) [
  | inl e ↦ rw ((==_iff c sp).0 e, replace_spaces_begin s, fields_at_sep sp [] s) (skipped s)
  | inr e ↦ start_word true c s e
]

-- The replacement that `trimWhitespaces` makes in a line is `joinVector` at a space of what
-- `splitStr` splits the line into at spaces: no space at either end, and one between two words.
pub trim-join_vector :
    (line : Bytes)
    → (ws : List Bytes) × (split_str line (sp ∷ []) ≡ some ws)
      × (replace_spaces true 0 line ≡ join_vector ws (sp ∷ []) [])
unfolding join_vector
trim-join_vector line = (
  words [] line,
  split_str-fields sp line,
  start_of_line line ∙ sym (join_loop-joined sp (words [] line) []),
)

-- So splitting the trimmed line at spaces gives the words of the line as it was.
pub split_str-trim :
    (line : Bytes) → split_str (replace_spaces true 0 line) (sp ∷ []) ≡ split_str line (sp ∷ [])
split_str-trim line =
    let (ws, parts, joins) = trim-join_vector line in
    rw (joins, parts) (split_str-join_vector sp ws (all_fields ws parts))
  where
    all_fields : (ws : List Bytes) → split_str line (sp ∷ []) ≡ some ws → All (IsField sp) ws
    all_fields ws parts =
        subst (All (IsField sp)) (some_inj (sym (split_str-fields sp line) ∙ parts))
          (fields-IsField sp [] line tt)

-- And trimming a trimmed line changes nothing.
pub trim-trim :
    (line : Bytes) → replace_spaces true 0 (replace_spaces true 0 line) ≡ replace_spaces true 0 line
trim-trim line =
    let (ws, parts, joins) = trim-join_vector line in
    let (vs, parts', joins') = trim-join_vector (replace_spaces true 0 line) in
    let same : vs ≡ ws = some_inj (sym parts' ∙ split_str-trim line ∙ parts) in
    joins' ∙ rw same (sym joins)
