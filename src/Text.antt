-- ===== src/Text.antt =====
-- The text functions of src/xbatd/src/helper.{hpp,cpp}, and what they use of std::string: `find`,
-- `substr`, `getline` and the one pattern that `trimWhitespaces` hands to std::regex_replace.
pub mod Encoding
pub mod Find
pub mod Split
pub mod RoundTrip
pub mod Trim
pub mod Lines
pub mod Heads
pub mod Numbers
use mathlib.Core.Option
use xbat_ginkgo.Base.Maps.{bytes_eq}
use xbat_ginkgo.Base.{
  ℕ, zero, suc, ◌+◌, ◌-◌, Bool, true, false, not, ◌&&◌, ◌||◌, List, [], ◌∷◌, ◌++◌, Option, none,
  some, Bytes, codes, ltb, leb, ◌==◌, if◌then◌else◌, ◌>>=◌, length, take, drop,
}

module _ {ℓ} {A : Type ℓ} where
  unfoldable pub is_empty : List A → Bool
  is_empty [] = true
  is_empty (x ∷ xs) = false

-- Whether the second text begins with the first.
unfoldable pub is_prefix : Bytes → Bytes → Bool
is_prefix [] s = true
is_prefix (d ∷ ds) [] = false
is_prefix (d ∷ ds) (c ∷ s) = d == c && is_prefix ds s

-- Helper::startsWith(str, prefix)
unfoldable pub starts_with : Bytes → Bytes → Bool
unfolding bytes_eq
starts_with str prefix =
    leb (length prefix) (length str) && bytes_eq (take (length prefix) str) prefix

-- Helper::endsWith(str, suffix)
unfoldable pub ends_with : Bytes → Bytes → Bool
unfolding bytes_eq
ends_with str suffix =
    leb (length suffix) (length str)
    && bytes_eq (take (length suffix) (drop (length str - length suffix) str)) suffix

-- The least position at which the first text occurs in the second.
unfoldable pub find : Bytes → Bytes → Option ℕ
unfolding is_prefix is_empty
find d [] = if is_empty d then some 0 else none
find d (c ∷ s) = if is_prefix d (c ∷ s) then some 0 else Option.map suc (find d s)

-- `if (v.length()) ret.push_back(v)`
pub push_nonempty : List Bytes → Bytes → List Bytes
unfolding is_empty
push_nonempty ret v = if is_empty v then ret else ret ++ v ∷ []

-- The loop of `splitStr` and what follows it; `rest` is the text from `posStartSearch` on. `none`
-- means that the fuel ran out.
pub split_loop : ℕ → Bytes → Bytes → List Bytes → Option (List Bytes)
unfolding find push_nonempty
split_loop zero delimiter rest ret = none
split_loop (suc fuel) delimiter rest ret = elim (find delimiter rest) [
  | none ↦ some (push_nonempty ret rest)
  | some i ↦
      split_loop fuel delimiter (drop (i + length delimiter) rest) (push_nonempty ret (take i rest))
]

unfoldable pub split_str : Bytes → Bytes → Option (List Bytes)
unfolding split_loop
split_str input delimiter = split_loop (length input + 1) delimiter input []

pub join_loop : List Bytes → Bytes → Bytes → Bytes
unfolding is_empty
join_loop [] separator output = output
join_loop (v ∷ vs) separator output =
    join_loop vs separator (if is_empty vs then output ++ v else (output ++ v) ++ separator)

unfoldable pub join_vector : List Bytes → Bytes → Bytes → Bytes
unfolding join_loop
join_vector vec separator output = join_loop vec separator output

-- The lines that repeated `getline` reads; `line` is what it has read of the current one.
unfoldable pub get_lines : Bytes → Bytes → List Bytes
unfolding is_empty
get_lines line [] = if is_empty line then [] else line ∷ []
get_lines line (c ∷ s) =
    let rest = get_lines [] s in
    let more = get_lines (line ++ c ∷ []) s in if c == b'\n' then line ∷ rest else more

pub spaces : Bytes → ℕ
spaces [] = 0
spaces (c ∷ s) = if c == b' ' then suc (spaces s) else 0

-- `regex_replace(line, regex("^ +| +$|( ) +"), "$1")`. With `n` spaces ahead the first alternative
-- matches at the start of the line, the second if nothing follows the spaces, and the third if
-- there are two or more; else the byte is copied. `skip` counts the bytes of a match yet to pass.
pub replace_spaces : Bool → ℕ → Bytes → Bytes
unfolding spaces is_empty
replace_spaces begin skip [] = []
replace_spaces begin (suc skip) (c ∷ s) = replace_spaces false skip s
replace_spaces begin zero (c ∷ s) =
    let n = spaces (c ∷ s) in
    let out =
      if n == 0
      then c ∷ []
      else if begin
      then []
      else if is_empty (drop n (c ∷ s))
      then []
      else if ltb 1 n
      then b' ' ∷ []
      else c ∷ [] in
    out ++ replace_spaces false (n - 1) s

trim_lines : List Bytes → Bool → Bytes → Bytes
unfolding replace_spaces
trim_lines [] add_new_line output = output
trim_lines (line ∷ ls) add_new_line output =
    let output' = output ++ replace_spaces true 0 line in
    trim_lines ls add_new_line (if add_new_line then output' ++ b'\n' ∷ [] else output')

unfoldable pub trim_whitespaces : Bytes → Bool → Bytes
unfolding trim_lines get_lines
trim_whitespaces input add_new_line = trim_lines (get_lines [] input) add_new_line []

-- `data.erase(0, data.find("\n") + 1)`: with no line break, `npos + 1` is 0 and nothing is erased.
pub erase_line : Bytes → Bytes
unfolding find
erase_line text = elim (find (b'\n' ∷ []) text) [ none ↦ text | some i ↦ drop (i + 1) text ]

unfoldable pub erase_lines_from_start : Bytes → ℕ → Bytes
unfolding erase_line
erase_lines_from_start text zero = text
erase_lines_from_start text (suc line_count) = erase_lines_from_start (erase_line text) line_count

-- `rfind(name, 0)` or `find(name, 0)` succeeds.
unfoldable pub occurs : Bool → Bytes → Bytes → Bool
unfolding is_prefix find
occurs from_start name line =
    if from_start
    then is_prefix name line
    else (elim (find name line) [ none ↦ false | some i ↦ true ])

-- The inner loop: whether some entry causes the line to be added.
pub keeps_line : List Bytes → Bool → Bool → Bytes → Bool
unfolding occurs
keeps_line [] from_start add_containing line = false
keeps_line (name ∷ names) from_start add_containing line =
    let pos = occurs from_start name line in
    let rest = keeps_line names from_start add_containing line in
    if not add_containing && pos then true else if add_containing && not pos then true else rest

pub filter_loop : List Bytes → List Bytes → Bool → Bool → Bytes → Bytes
unfolding keeps_line
filter_loop entries [] from_start add_containing input = input
filter_loop entries (line ∷ ls) from_start add_containing input =
    filter_loop entries ls from_start add_containing (
      if keeps_line entries from_start add_containing line
      then (input ++ line) ++ b'\n' ∷ []
      else input)

pub filter_lines : List Bytes → Bytes → Bool → Bool → Bytes
unfolding filter_loop get_lines
filter_lines entries input from_start add_containing =
    filter_loop entries (get_lines [] input) from_start add_containing []

unfoldable pub filter_lines_not_containing : List Bytes → Bytes → Bool → Bytes
unfolding filter_lines
filter_lines_not_containing entries input from_start = filter_lines entries input from_start false

unfoldable pub filter_lines_containing : List Bytes → Bytes → Bool → Bytes
unfolding filter_lines
filter_lines_containing entries input from_start = filter_lines entries input from_start true

unfoldable pub is_digit : ℕ → Bool
is_digit c = leb b'0' c && leb c b'9'

-- The bytes of `numbers`, with ".," if floats are allowed.
is_number_byte : Bool → ℕ → Bool
unfolding is_digit
is_number_byte allow_float c = is_digit c || (allow_float && (c == b'.' || c == b','))

-- From `find_first_of` on, up to `find_first_not_of`.
number_run : Bool → Bytes → Bytes
unfolding is_number_byte
number_run allow_float [] = []
number_run allow_float (c ∷ s) =
    if is_number_byte allow_float c then c ∷ number_run allow_float s else []

unfoldable pub extract_number : Bytes → Bool → Bytes
unfolding number_run
extract_number [] allow_float = []
extract_number (c ∷ s) allow_float =
    if is_number_byte allow_float c
    then number_run allow_float (c ∷ s)
    else extract_number s allow_float

to_lower_byte : ℕ → ℕ
to_lower_byte c = if leb b'A' c && leb c b'Z' then c + 32 else c

unfoldable pub to_lower : Bytes → Bytes
unfolding to_lower_byte
to_lower [] = []
to_lower (c ∷ s) = to_lower_byte c ∷ to_lower s
