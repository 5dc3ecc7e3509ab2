-- ===== src/Tests/TextTests.antt =====
-- src/xbatd/src/helper.cpp: runs on short texts, and the theorems about the text functions applied.
use xbat_ginkgo.Base.{◌≡◌, refl, true, false, List, [], ◌∷◌, some, Bytes, codes, arith}
use xbat_ginkgo.Text.{
  split_str, join_vector, replace_spaces, trim_whitespaces, filter_lines_containing,
  filter_lines_not_containing, erase_lines_from_start, extract_number, ends_with, starts_with,
  to_lower,
}
use xbat_ginkgo.Text.RoundTrip.{split_str-join_vector}
use xbat_ginkgo.Text.Trim.{trim-join_vector}

split_runs : split_str (codes "=a==bc=") (codes "=") ≡ some (codes "a" ∷ codes "bc" ∷ [])
unfolding split_str
split_runs = refl

trim_runs : trim_whitespaces (codes "  a   b c  \n  \nd ") true ≡ codes "a b c\n\nd\n"
unfolding trim_whitespaces
trim_runs = refl

filter_runs :
    filter_lines_not_containing (codes "b" ∷ []) (codes "ab\nc\nb") false ≡ codes "ab\nb\n"
unfolding filter_lines_not_containing
filter_runs = refl

-- The doc comment of `filterLinesContaining` has both lines removed; neither is.
containing_runs :
    filter_lines_containing (codes "a" ∷ codes "b" ∷ []) (codes "a\nb\nab\n") false ≡ codes "a\nb\n"
unfolding filter_lines_containing
containing_runs = refl

erase_runs : erase_lines_from_start (codes "ab\nc\nb") 1 ≡ codes "c\nb"
unfolding erase_lines_from_start
erase_runs = refl

extract_runs : extract_number (codes " 15 Watts 3") false ≡ codes "15"
unfolding extract_number
extract_runs = refl

ends : ends_with (codes "1 mB") (codes " mB") ≡ true
unfolding ends_with
ends = refl

starts : starts_with (codes "lo: 1") (codes "lo") ≡ true
unfolding starts_with
starts = refl

lower : to_lower (codes "GPU 1a") ≡ codes "gpu 1a"
unfolding to_lower
lower = refl

split_str-join_vector_example :
    split_str (join_vector (codes "ab" ∷ codes "c" ∷ []) (b',' ∷ []) []) (b',' ∷ [])
    ≡ some (codes "ab" ∷ codes "c" ∷ [])
split_str-join_vector_example =
    split_str-join_vector b',' (codes "ab" ∷ codes "c" ∷ [])
      (((λ e. cc), omega arith), (((λ e. cc), omega arith), tt))

trim-join_vector_example :
    (ws : List Bytes) × (split_str (codes "  a   b ") (b' ' ∷ []) ≡ some ws)
    × (replace_spaces true 0 (codes "  a   b ") ≡ join_vector ws (b' ' ∷ []) [])
trim-join_vector_example = trim-join_vector (codes "  a   b ")
