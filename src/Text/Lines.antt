-- ===== src/Text/Lines.antt =====
-- `filterLines`, its two wrappers and `eraseLinesFromStart`, as operations on the lines of a text.
use xbat_ginkgo.Base.{
  ℕ, zero, suc, ◌+◌, ◌≤◌, ◌≡◌, refl, sym, ap, ◌≢◌, ◌∙◌, inl, inr, Bool, true, false, not, List, [],
  ◌∷◌, ◌++◌, none, some, Bytes, arith, ◌==◌, if◌then◌else◌, drop, All, All-append, Bool-cases,
  Option-cases, append_assoc, append-nil, ==_iff,
}
use xbat_ginkgo.Text.{
  find, occurs, keeps_line, filter_loop, filter_lines, filter_lines_not_containing,
  filter_lines_containing, get_lines, erase_line, erase_lines_from_start,
}
use xbat_ginkgo.Text.RoundTrip.{is_prefix_one}
use xbat_ginkgo.Text.Find.{find_step, find_step_none, find_nil}

abbrev pub nl : ℕ
nl = b'\n'

-- The elements that pass a test, and whether some element does.
module _ {ℓ} {A : Type ℓ} (p : A → Bool) where
  abbrev pub select : List A → List A
  select [] = []
  select (x ∷ xs) = if p x then x ∷ select xs else select xs

  abbrev pub any : List A → Bool
  any [] = false
  any (x ∷ xs) = if p x then true else any xs

abbrev pub IsLine : Bytes → Type 0
IsLine = All (λ c. c ≢ nl)

-- Lines as they are printed.
abbrev pub printed : List Bytes → Bytes
printed [] = []
printed (l ∷ ls) = l ++ nl ∷ printed ls

get_lines_step :
    (line s : Bytes) (c : ℕ) → c ≢ nl → get_lines line (c ∷ s) ≡ get_lines (line ++ c ∷ []) s
unfolding get_lines
get_lines_step line s c h = ground arith

get_lines_break : (line s : Bytes) → get_lines line (nl ∷ s) ≡ line ∷ get_lines [] s
unfolding get_lines
get_lines_break line s = refl

pub get_lines-append :
    (line l rest : Bytes) → IsLine l → get_lines line (l ++ rest) ≡ get_lines (line ++ l) rest
get_lines-append line [] rest h = rw append-nil
get_lines-append line (c ∷ l) rest (hc, h) =
    get_lines_step line (l ++ rest) c hc
    ∙ get_lines-append (line ++ c ∷ []) l rest h
    ∙ ap (λ p. get_lines p rest) (append_assoc line (c ∷ []) l)

pub get_lines-printed : (ls : List Bytes) → All IsLine ls → get_lines [] (printed ls) ≡ ls
get_lines-printed [] h = unfold get_lines in refl
get_lines-printed (l ∷ ls) (hl, h) =
    get_lines-append [] l (nl ∷ printed ls) hl
    ∙ get_lines_break l (printed ls)
    ∙ ap (◌∷◌ l) (get_lines-printed ls h)

pub get_lines-IsLine : (line s : Bytes) → IsLine line → All IsLine (get_lines line s)
unfolding get_lines
get_lines-IsLine [] [] h = tt
get_lines-IsLine (d ∷ line) [] h = (h, tt)
get_lines-IsLine line (c ∷ s) h = elim (Bool-cases (c == nl)) [
  | inl e ↦ rw e (h, get_lines-IsLine [] s tt)
  | inr e ↦ rw e (
      get_lines-IsLine (line ++ c ∷ []) s
        (All-append _ line (c ∷ []) h ((λ q. cc (e, (==_iff c nl).1 q)), tt)))
]

pub select-All {ℓ κ} :
    {A : Type ℓ} (P : A → Type κ) (p : A → Bool) (xs : List A) → All P xs → All P (select p xs)
select-All P p [] h = tt
select-All P p (x ∷ xs) (hx, h) = elim (Bool-cases (p x)) [
  | inl e ↦ rw e (hx, select-All P p xs h)
  | inr e ↦ rw e (select-All P p xs h)
]

pub filter_loop-printed :
    (entries ls : List Bytes) (from_start add_containing : Bool) (input : Bytes)
    → filter_loop entries ls from_start add_containing input
      ≡ input ++ printed (select (keeps_line entries from_start add_containing) ls)
unfolding filter_loop
filter_loop-printed entries [] from_start add_containing input = sym (append-nil input)
filter_loop-printed entries (l ∷ ls) from_start add_containing input =
    elim (Bool-cases (keeps_line entries from_start add_containing l)) [
      | inl e ↦
          rw e (filter_loop-printed entries ls from_start add_containing _ ∙ simp append_assoc)
      | inr e ↦ rw e (filter_loop-printed entries ls from_start add_containing input)
    ]

pub filter_lines-printed :
    (entries : List Bytes) (input : Bytes) (from_start : Bool)
    → filter_lines_not_containing entries input from_start
      ≡ printed (select (keeps_line entries from_start false) (get_lines [] input))
unfolding filter_lines_not_containing filter_lines
filter_lines-printed entries input from_start =
    filter_loop-printed entries (get_lines [] input) from_start false []

lines-filter_lines :
    (entries : List Bytes) (input : Bytes) (from_start add_containing : Bool)
    → get_lines [] (filter_lines entries input from_start add_containing)
      ≡ select (keeps_line entries from_start add_containing) (get_lines [] input)
unfolding filter_lines
lines-filter_lines entries input from_start add_containing =
    ap (get_lines [])
      (filter_loop-printed entries (get_lines [] input) from_start add_containing [])
    ∙ get_lines-printed _ (select-All IsLine _ (get_lines [] input) (get_lines-IsLine [] input tt))

pub keeps_not_containing :
    (entries : List Bytes) (from_start : Bool) (line : Bytes)
    → keeps_line entries from_start false line ≡ any (λ name. occurs from_start name line) entries
unfolding keeps_line
keeps_not_containing [] from_start line = refl
keeps_not_containing (name ∷ names) from_start line =
    ground (arith, keeps_not_containing names from_start line)

keeps_containing :
    (entries : List Bytes) (from_start : Bool) (line : Bytes)
    → keeps_line entries from_start true line
      ≡ any (λ name. not (occurs from_start name line)) entries
unfolding keeps_line
keeps_containing [] from_start line = refl
keeps_containing (name ∷ names) from_start line =
    ground (arith, keeps_containing names from_start line)

select_ext {ℓ} :
    {A : Type ℓ} (p q : A → Bool) (xs : List A) → ((x : A) → p x ≡ q x) → select p xs ≡ select q xs
select_ext p q [] h = refl
select_ext p q (x ∷ xs) h = rw (h x, select_ext p q xs h)

-- `filterLinesNotContaining` keeps, in their order, exactly the lines in which some entry occurs (at
-- the start of the line if `from_start` is set).
pub lines-filter_lines_not_containing :
    (entries : List Bytes) (input : Bytes) (from_start : Bool)
    → get_lines [] (filter_lines_not_containing entries input from_start)
      ≡ select (λ line. any (λ name. occurs from_start name line) entries) (get_lines [] input)
unfolding filter_lines_not_containing
lines-filter_lines_not_containing entries input from_start =
    lines-filter_lines entries input from_start false
    ∙ select_ext _ _ (get_lines [] input) (keeps_not_containing entries from_start)

-- `filterLinesContaining` keeps, in their order, exactly the lines in which some entry does not
-- occur: a line goes only if all the entries occur in it.
pub lines-filter_lines_containing :
    (entries : List Bytes) (input : Bytes) (from_start : Bool)
    → get_lines [] (filter_lines_containing entries input from_start)
      ≡ select
          (λ line. any (λ name. not (occurs from_start name line)) entries)
          (get_lines [] input)
unfolding filter_lines_containing
lines-filter_lines_containing entries input from_start =
    lines-filter_lines entries input from_start true
    ∙ select_ext _ _ (get_lines [] input) (keeps_containing entries from_start)

-- The line breaks of a text.
abbrev pub breaks : Bytes → ℕ
breaks [] = 0
breaks (c ∷ s) = if c == nl then suc (breaks s) else breaks s

find-none-breaks : (s : Bytes) → find (nl ∷ []) s ≡ none → breaks s ≡ 0
find-none-breaks [] h = refl
find-none-breaks (c ∷ s) h =
    let (q, n) = find_step_none (nl ∷ []) s c h in
    ground (arith, is_prefix_one nl c s, find-none-breaks s n)

-- What a first line break at `i` says of the text.
abbrev BreaksAt : Bytes → Bytes → ℕ → Type 0
BreaksAt line s i =
    (suc (breaks (drop (i + 1) s)) ≡ breaks s)
    × (first : Bytes) × (get_lines line s ≡ first ∷ get_lines [] (drop (i + 1) s))

suc_one : (j : ℕ) → suc j + 1 ≡ suc (j + 1)
suc_one j = omega arith

found_break : (line s : Bytes) (i : ℕ) → find (nl ∷ []) s ≡ some i → BreaksAt line s i
found_break line [] i h = absurd (find_nil (nl ∷ []) i (λ e. cc) h)
found_break line (c ∷ s) i h = elim (find_step (nl ∷ []) s c i h) [
  | inl (p, e) ↦
      let at : c ≡ nl = ground (arith, is_prefix_one nl c s) in
      rw (e, at) (refl, line, get_lines_break line s)
  | inr (q, j, f, e) ↦
      let off : (c == nl) ≡ false = ground (arith, is_prefix_one nl c s) in
      let (count, first, rest) = found_break (line ++ c ∷ []) s j f in
      rw (e, off, suc_one j)
        (count, first, get_lines_step line s c (λ eq. cc (off, (==_iff c nl).1 eq)) ∙ rest)
]

erase_line_lem :
    (text : Bytes)
    → 1 ≤ breaks text
    → (suc (breaks (erase_line text)) ≡ breaks text)
      × (first : Bytes) × (get_lines [] text ≡ first ∷ get_lines [] (erase_line text))
unfolding erase_line
erase_line_lem text h = elim (Option-cases (find (nl ∷ []) text)) [
  | inl e ↦ absurd (omega (arith, find-none-breaks text e))
  | inr (i, e) ↦ rw (e, erase_line) (found_break [] text i e)
]

erase_line_none : (text : Bytes) → breaks text ≡ 0 → erase_line text ≡ text
unfolding erase_line
erase_line_none text h = elim (Option-cases (find (nl ∷ []) text)) [
  | inl e ↦ rw (e, erase_line)
  | inr (i, e) ↦ absurd (omega (arith, (found_break [] text i e).0))
]

erase_lines_lem :
    (text : Bytes) (line_count : ℕ)
    → line_count ≤ breaks text
    → (get_lines [] (erase_lines_from_start text line_count) ≡ drop line_count (get_lines [] text))
      × (breaks (erase_lines_from_start text line_count) + line_count ≡ breaks text)
unfolding erase_lines_from_start
erase_lines_lem text zero h = (refl, omega arith)
erase_lines_lem text (suc line_count) h =
    let (count, first, split) = erase_line_lem text (omega arith) in
    let (rest, left) = erase_lines_lem (erase_line text) line_count (omega arith) in
    (rw split rest, omega arith)

erase_lines_none :
    (text : Bytes) (line_count : ℕ)
    → breaks text ≡ 0
    → erase_lines_from_start text line_count ≡ text
unfolding erase_lines_from_start
erase_lines_none text zero h = refl
erase_lines_none text (suc line_count) h =
    rw (erase_line_none text h) (erase_lines_none text line_count h)

-- `eraseLinesFromStart` erases as many lines as it is told if the text has so many line breaks. A
-- text with no line break is left as it is, so the last line stays if no line break ends it.
pub lines-erase_lines_from_start :
    (text : Bytes) (line_count : ℕ)
    → line_count ≤ breaks text
    → (get_lines [] (erase_lines_from_start text line_count) ≡ drop line_count (get_lines [] text))
      × (breaks (erase_lines_from_start text line_count) + line_count ≡ breaks text)
      × ((n : ℕ) → breaks text ≡ 0 → erase_lines_from_start text n ≡ text)
lines-erase_lines_from_start text line_count h =
    let (rest, left) = erase_lines_lem text line_count h in
    (rest, left, λ n. erase_lines_none text n)
