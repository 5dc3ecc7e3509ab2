-- ===== src/Text/Numbers.antt =====
-- Numbers in texts: std::stoull, std::stoll and std::stoi over strtoull and strtol, and
-- std::to_string. `none` is the exception that they throw.
use mathlib.Core.Option
use xbat_ginkgo.Base.{
  ℕ, zero, suc, ◌+◌, ◌-◌, ◌*◌, ◌/◌, ◌%◌, ◌^◌, Bool, true, false, ◌&&◌, ◌||◌, [], ◌∷◌, Option, none,
  some, Bytes, ltb, leb, ◌==◌, if◌then◌else◌, ◌>>=◌,
}
use xbat_ginkgo.Base.Int.{ℤ, pos, sub_ℕ}
use xbat_ginkgo.Text.{is_digit}

is_space : ℕ → Bool
is_space c = c == 32 || (leb 9 c && leb c 13)

skip_space : Bytes → Bytes
unfolding is_space
skip_space [] = []
skip_space (c ∷ s) = if is_space c then skip_space s else c ∷ s

-- The digits ahead, behind the number `n`.
digits_value : ℕ → Bytes → ℕ
unfolding is_digit
digits_value n [] = n
digits_value n (c ∷ s) =
    let more = digits_value (n * 10 + (c - b'0')) s in if is_digit c then more else n

-- At least one digit is wanted.
magnitude : Bytes → Option ℕ
unfolding digits_value is_digit
magnitude [] = none
magnitude (c ∷ s) = if is_digit c then some (digits_value 0 (c ∷ s)) else none

-- Whether there is a minus sign, and the magnitude.
signed_number : Bytes → Option (Bool × ℕ)
unfolding magnitude
signed_number [] = none
signed_number (c ∷ s) =
    if c == b'-'
    then Option.map (λ n. (true, n)) (magnitude s)
    else if c == b'+'
    then Option.map (λ n. (false, n)) (magnitude s)
    else Option.map (λ n. (false, n)) (magnitude (c ∷ s))

-- strtoull negates in unsigned arithmetic.
unfoldable pub stoull : Bytes → Option ℕ
unfolding signed_number skip_space
stoull s = do
  (minus, n) ← signed_number (skip_space s)
  if ltb n (2 ^ 64) then some (if minus then (2 ^ 64 - n) % 2 ^ 64 else n) else none

in_range : ℕ → Bool → ℕ → Option ℤ
in_range w minus n =
    if minus
    then (if leb n (2 ^ w) then some (sub_ℕ 0 n) else none)
    else if ltb n (2 ^ w)
    then some (pos n)
    else none

-- A signed number of `w + 1` bits.
sto_signed : ℕ → Bytes → Option ℤ
unfolding signed_number skip_space in_range
sto_signed w s = do (minus, n) ← signed_number (skip_space s); in_range w minus n

unfoldable pub stoll : Bytes → Option ℤ
unfolding sto_signed
stoll s = sto_signed 63 s

unfoldable pub stoi : Bytes → Option ℤ
unfolding sto_signed
stoi s = sto_signed 31 s

-- The digits of `n` before `out`; `n` has at most `fuel` digits.
emit_digits : ℕ → ℕ → Bytes → Bytes
emit_digits zero n out = out
emit_digits (suc fuel) n out =
    let more = emit_digits fuel (n / 10) ((b'0' + n % 10) ∷ out) in
    if ltb n 10 then (b'0' + n) ∷ out else more

-- std::to_string of an unsigned value; 20 digits hold 64 bits.
unfoldable pub to_string : ℕ → Bytes
unfolding emit_digits
to_string n = emit_digits 20 n []
