-- ===== src/Text/RoundTrip.antt =====
-- `splitStr` at a delimiter of one byte, the only kind that the daemon uses, against a description
-- of it that reads the text once; and `joinVector`, which it undoes.
use mathlib.Core.List.{flatten}
use xbat_ginkgo.Base.{
  ℕ, zero, suc, ◌+◌, ◌<◌, ◌≡◌, refl, sym, ap, ◌≢◌, ◌∙◌, inl, inr, List, [], ◌∷◌, ◌++◌, none, some,
  Bytes, arith, ◌==◌, if◌then◌else◌, length, take, drop, All, All-append, Bool-cases, Option-cases,
  append_assoc, append-nil, ==_iff,
}
use xbat_ginkgo.Text.{
  is_empty, is_prefix, find, push_nonempty, split_loop, split_str, join_loop, join_vector,
}
use xbat_ginkgo.Text.Split.{length-drop}
use xbat_ginkgo.Text.Find.{find_step, find_step_none, find_nil, find_bound}

-- The non-empty pieces between the separators; `cur` is what was read of the current piece.
abbrev pub consed : Bytes → List Bytes → List Bytes
consed [] vs = vs
consed (c ∷ v) vs = (c ∷ v) ∷ vs

module _ (sep : ℕ) where
  unfoldable pub fields : Bytes → Bytes → List Bytes
  fields cur [] = consed cur []
  fields cur (c ∷ s) =
      let next = fields [] s in
      let more = fields (cur ++ c ∷ []) s in if c == sep then consed cur next else more

  pub is_prefix_one : (c : ℕ) (s : Bytes) → is_prefix (sep ∷ []) (c ∷ s) ≡ (sep == c)
  unfolding is_prefix
  is_prefix_one c s = ground arith

  fields_found :
      (cur s : Bytes) (i : ℕ)
      → find (sep ∷ []) s ≡ some i
      → fields cur s ≡ consed (cur ++ take i s) (fields [] (drop (i + 1) s))
  unfolding fields
  fields_found cur [] i h = absurd (find_nil (sep ∷ []) i (λ e. cc) h)
  fields_found cur (c ∷ s) i h = elim (find_step (sep ∷ []) s c i h) [
    | inl (p, e) ↦ rw e (ground (arith, is_prefix_one c s, append-nil cur))
    | inr (q, j, f, e) ↦ rw e (
        ground (
          arith,
          is_prefix_one c s,
          fields_found (cur ++ c ∷ []) s j f,
          append_assoc cur (c ∷ []) (take j s),
        ))
  ]

  fields-none : (cur s : Bytes) → find (sep ∷ []) s ≡ none → fields cur s ≡ consed (cur ++ s) []
  unfolding fields
  fields-none cur [] h = rw append-nil
  fields-none cur (c ∷ s) h =
      let (q, n) = find_step_none (sep ∷ []) s c h in
      ground
        (arith, is_prefix_one c s, fields-none (cur ++ c ∷ []) s n, append_assoc cur (c ∷ []) s)

  push-consed : (ret vs : List Bytes) (v : Bytes) → push_nonempty ret v ++ vs ≡ ret ++ consed v vs
  unfolding push_nonempty is_empty
  push-consed ret vs [] = refl
  push-consed ret vs (c ∷ v) = rw append_assoc

  split_loop-fields :
      (fuel : ℕ) (rest : Bytes) (ret : List Bytes)
      → length rest < fuel
      → split_loop fuel (sep ∷ []) rest ret ≡ some (ret ++ fields [] rest)
  unfolding split_loop
  split_loop-fields zero rest ret lt = absurd (omega arith)
  split_loop-fields (suc fuel) rest ret lt = elim (Option-cases (find (sep ∷ []) rest)) [
    | inl e ↦
        rw (e, split_loop, fields-none [] rest e)
          (ap some (sym (append-nil (push_nonempty ret rest)) ∙ push-consed ret [] rest))
    | inr (i, e) ↦
        let shorter : length (drop (i + 1) rest) < fuel =
          omega (arith, length-drop (i + 1) rest, find_bound (sep ∷ []) rest i e) in
        rw (e, split_loop, fields_found [] rest i e)
          (split_loop-fields fuel (drop (i + 1) rest) (push_nonempty ret (take i rest)) shorter
            ∙ ap some (push-consed ret (fields [] (drop (i + 1) rest)) (take i rest)))
  ]

  -- At a delimiter of one byte `splitStr` returns the non-empty pieces between the delimiters.
  pub split_str-fields : (input : Bytes) → split_str input (sep ∷ []) ≡ some (fields [] input)
  unfolding split_str
  split_str-fields input = split_loop-fields (length input + 1) input [] (omega arith)

  -- The text with each separator left out.
  abbrev pub without : Bytes → Bytes
  without [] = []
  without (c ∷ s) = if c == sep then without s else c ∷ without s

  flatten-consed : (v : Bytes) (vs : List Bytes) → flatten (consed v vs) ≡ v ++ flatten vs
  unfolding flatten
  flatten-consed [] vs = refl
  flatten-consed (c ∷ v) vs = refl

  flatten-fields : (cur s : Bytes) → flatten (fields cur s) ≡ cur ++ without s
  unfolding fields flatten
  flatten-fields cur [] = flatten-consed cur []
  flatten-fields cur (c ∷ s) = elim (Bool-cases (c == sep)) [
    | inl e ↦ rw e (flatten-consed cur (fields [] s) ∙ ap (◌++◌ cur) (flatten-fields [] s))
    | inr e ↦ rw e (flatten-fields (cur ++ c ∷ []) s ∙ append_assoc cur (c ∷ []) (without s))
  ]

  -- `splitStr` at a byte loses nothing but the separators: its parts, put together, are the text
  -- without the separators, in order.
  pub flatten-split_str :
      (input : Bytes)
      → (vs : List Bytes) × (split_str input (sep ∷ []) ≡ some vs) × (flatten vs ≡ without input)
  flatten-split_str input = (fields [] input, split_str-fields input, flatten-fields [] input)

  -- Not empty, and free of the separator.
  abbrev pub IsField : Bytes → Type 0
  IsField v = (v ≢ []) × All (λ c. c ≢ sep) v

  pub fields-append :
      (cur v rest : Bytes) → All (λ c. c ≢ sep) v → fields cur (v ++ rest) ≡ fields (cur ++ v) rest
  unfolding fields
  fields-append cur [] rest h = rw append-nil
  fields-append cur (c ∷ v) rest (hc, h) =
      ground (arith, fields-append (cur ++ c ∷ []) v rest h, append_assoc cur (c ∷ []) v)

  pub consed_full : (v : Bytes) (vs : List Bytes) → v ≢ [] → consed v vs ≡ v ∷ vs
  consed_full [] vs h = absurd (h refl)
  consed_full (c ∷ v) vs h = refl

  consed-IsField :
      (v : Bytes) (vs : List Bytes)
      → All (λ c. c ≢ sep) v
      → All IsField vs
      → All IsField (consed v vs)
  consed-IsField [] vs h hs = hs
  consed-IsField (c ∷ v) vs h hs = (((λ e. cc), h), hs)

  pub fields-IsField : (cur s : Bytes) → All (λ c. c ≢ sep) cur → All IsField (fields cur s)
  unfolding fields
  fields-IsField cur [] h = consed-IsField cur [] h tt
  fields-IsField cur (c ∷ s) h = elim (Bool-cases (c == sep)) [
    | inl e ↦ rw e (consed-IsField cur (fields [] s) h (fields-IsField [] s tt))
    | inr e ↦ rw e (
        fields-IsField (cur ++ c ∷ []) s
          (All-append _ cur (c ∷ []) h ((λ q. cc (e, (==_iff c sep).1 q)), tt)))
  ]

  -- What `joinVector` appends.
  abbrev pub joined : List Bytes → Bytes
  joined [] = []
  joined (v ∷ []) = v
  joined (v ∷ w ∷ vs) = v ++ sep ∷ joined (w ∷ vs)

  pub join_loop-joined :
      (vs : List Bytes) (out : Bytes) → join_loop vs (sep ∷ []) out ≡ out ++ joined vs
  unfolding join_loop
  join_loop-joined [] out = sym (append-nil out)
  join_loop-joined (v ∷ []) out = refl
  join_loop-joined (v ∷ w ∷ vs) out =
      join_loop-joined (w ∷ vs) ((out ++ v) ++ sep ∷ []) ∙ simp append_assoc

  pub fields_at_sep : (cur s : Bytes) → fields cur (sep ∷ s) ≡ consed cur (fields [] s)
  unfolding fields
  fields_at_sep cur s = ground arith

  fields-joined : (vs : List Bytes) → All IsField vs → fields [] (joined vs) ≡ vs
  fields-joined [] h = unfold fields in refl
  fields-joined (v ∷ []) ((ne, h), _) =
      ap (fields []) (sym (append-nil v))
      ∙ fields-append [] v [] h
      ∙ unfold fields in consed_full v [] ne
  fields-joined (v ∷ w ∷ vs) ((ne, h), hs) =
      fields-append [] v (sep ∷ joined (w ∷ vs)) h
      ∙ fields_at_sep v (joined (w ∷ vs))
      ∙ ap (consed v) (fields-joined (w ∷ vs) hs)
      ∙ consed_full v (w ∷ vs) ne

  -- Splitting at a byte what `joinVector` has joined with it gives the list back, if each element is
  -- not empty and does not hold the byte.
  pub split_str-join_vector :
      (vs : List Bytes)
      → All IsField vs
      → split_str (join_vector vs (sep ∷ []) []) (sep ∷ []) ≡ some vs
  unfolding join_vector
  split_str-join_vector vs h =
      rw (join_loop-joined vs []) (split_str-fields (joined vs) ∙ ap some (fields-joined vs h))
