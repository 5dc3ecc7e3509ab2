-- ===== src/Text/Split.antt =====
-- `splitStr` ends, and what its parts are.
use xbat_ginkgo.Base.{
  ℕ, zero, suc, ◌+◌, ◌-◌, ◌<◌, ◌≡◌, refl, ◌≢◌, inl, inr, List, [], ◌∷◌, none, some, Bytes, arith,
  length, take, drop, All, All-append, Option-cases,
}
use xbat_ginkgo.Text.{find, push_nonempty, split_loop, split_str}
use xbat_ginkgo.Text.Find.{find_bound, find-take}

-- A part: it is not empty and does not contain the delimiter.
abbrev pub IsPart : Bytes → Bytes → Type 0
IsPart delimiter v = (v ≢ []) × (find delimiter v ≡ none)

push-All :
    (d : Bytes) (ret : List Bytes) (v : Bytes)
    → All (IsPart d) ret
    → find d v ≡ none
    → All (IsPart d) (push_nonempty ret v)
unfolding push_nonempty
push-All d ret [] h n = h
push-All d ret (c ∷ v) h n = All-append (IsPart d) ret ((c ∷ v) ∷ []) h (((λ e. cc), n), tt)

pub length-drop : (n : ℕ) (xs : Bytes) → length (drop n xs) ≡ length xs - n
length-drop zero xs = omega arith
length-drop (suc n) [] = omega arith
length-drop (suc n) (x ∷ xs) = omega (arith, length-drop n xs)

length_pos : (d : Bytes) → d ≢ [] → 0 < length d
length_pos [] h = absurd (h refl)
length_pos (c ∷ d) h = omega arith

split_loop_lem :
    (fuel : ℕ) (d rest : Bytes) (ret : List Bytes)
    → d ≢ []
    → length rest < fuel
    → All (IsPart d) ret
    → (vs : List Bytes) × (split_loop fuel d rest ret ≡ some vs) × All (IsPart d) vs
unfolding split_loop
split_loop_lem zero d rest ret ne lt h = absurd (omega arith)
split_loop_lem (suc fuel) d rest ret ne lt h = elim (Option-cases (find d rest)) [
  | inl e ↦ (push_nonempty ret rest, rw (e, split_loop), push-All d ret rest h e)
  | inr (i, e) ↦
      let shorter : length (drop (i + length d) rest) < fuel =
        omega (arith, length-drop (i + length d) rest, find_bound d rest i e, length_pos d ne) in
      let (vs, eq, ps) =
        split_loop_lem fuel d (drop (i + length d) rest) (push_nonempty ret (take i rest)) ne
          shorter (push-All d ret (take i rest) h (find-take d rest i ne e)) in
      (vs, rw (e, split_loop) eq, ps)
]

-- With a delimiter that is not empty `splitStr` ends, and each part that it returns is not empty and
-- does not contain the delimiter.
pub split_str-IsPart :
    (input delimiter : Bytes)
    → delimiter ≢ []
    → (vs : List Bytes) × (split_str input delimiter ≡ some vs) × All (IsPart delimiter) vs
unfolding split_str
split_str-IsPart input delimiter ne =
    split_loop_lem (length input + 1) delimiter input [] ne (omega arith) tt

find_empty : (s : Bytes) → find [] s ≡ some 0
unfolding find
find_empty [] = refl
find_empty (c ∷ s) = refl

-- With an empty delimiter the loop makes no progress: it runs out of any fuel.
pub split_loop_empty :
    (fuel : ℕ) (rest : Bytes) (ret : List Bytes) → split_loop fuel [] rest ret ≡ none
unfolding split_loop
split_loop_empty zero rest ret = refl
split_loop_empty (suc fuel) rest ret =
    rw (find_empty rest, split_loop) (split_loop_empty fuel rest ret)
