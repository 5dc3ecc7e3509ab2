-- ===== src/Text/Encoding.antt =====
-- encode64, decode64, md5, boolToStr and strToBool of src/xbatd/src/helper.cpp.
use xbat_ginkgo.Base.{
  ℕ, zero, suc, ◌+◌, ◌-◌, ◌*◌, ◌/◌, ◌%◌, ◌<◌, ◌≡◌, refl, arith, Bool, true, false, [], ◌∷◌, ◌++◌,
  length, length-append, Option, none, some, Bytes, codes, All, ltb, if◌then◌else◌, ◌==◌, ap,
}
use xbat_ginkgo.Text.{is_prefix, to_lower}

abbrev pub replicate : ℕ → ℕ → Bytes
replicate zero c = []
replicate (suc n) c = c ∷ replicate n c

-- `base64_from_binary<transform_width<..., 6, 8>>` is a parameter: a digit for every six bits that
-- are begun.
module _ (digits_of : Bytes → Bytes) where
  unfoldable pub encode64 : Bytes → Bytes
  encode64 val = digits_of val ++ replicate ((3 - length val % 3) % 3) 61

-- `trim_right_copy_if` at zero bytes.
unfoldable pub trim_zeros : Bytes → Bytes
trim_zeros [] = []
trim_zeros (c ∷ s) = elim (trim_zeros s) [ [] ↦ if c == 0 then [] else c ∷ [] | d ∷ t ↦ c ∷ d ∷ t ]

-- `transform_width<binary_from_base64<...>, 8, 6>` is a parameter.
module _ (bytes_of : Bytes → Bytes) where
  unfoldable pub decode64 : Bytes → Bytes
  unfolding trim_zeros
  decode64 val = trim_zeros (bytes_of val)

unfoldable pub hex_digit : ℕ → ℕ
hex_digit n = if ltb n 10 then 48 + n else 87 + n

-- `std::hex << std::setw(2) << std::setfill('0')` for each byte.
unfoldable pub hex : Bytes → Bytes
unfolding hex_digit
hex [] = []
hex (c ∷ s) = hex_digit (c / 16) ∷ hex_digit (c % 16) ∷ hex s

-- OpenSSL is a parameter: the digest, `none` if one of its calls fails.
module _ (digest : Bytes → Option Bytes) where
  unfoldable pub md5 : Bytes → Bytes
  unfolding hex
  md5 text = elim (digest text) [ none ↦ [] | some h ↦ hex h ]

unfoldable pub bool_to_str : Bool → Bytes
bool_to_str true = codes "true"
bool_to_str false = codes "false"

unfoldable pub skip_spaces : Bytes → Bytes
skip_spaces [] = []
skip_spaces (c ∷ s) =
    if c == 32
    then skip_spaces s
    else if ltb c 14
    then (if ltb 8 c then skip_spaces s else c ∷ s)
    else c ∷ s

-- `std::boolalpha` reads false from a text that is no Boolean.
unfoldable pub str_to_bool : Bytes → Bool
unfolding skip_spaces
str_to_bool s = is_prefix (codes "true") (skip_spaces (to_lower s))

length-replicate : (n c : ℕ) → length (replicate n c) ≡ n
length-replicate zero c = refl
length-replicate (suc n) c = ap suc (length-replicate n c)

-- If the base64 digits of a text are one for every six bits that are begun, then `encode64` gives
-- four bytes for every three that are begun.
pub length-encode64 :
    (digits_of : Bytes → Bytes) (val : Bytes)
    → ((s : Bytes) → length (digits_of s) ≡ (length s * 4 + 2) / 3)
    → length (encode64 digits_of val) ≡ (length val + 2) / 3 * 4
unfolding encode64
length-encode64 digits_of val law =
    rw
      (
        length-append (digits_of val) (replicate ((3 - length val % 3) % 3) 61),
        law val,
        length-replicate ((3 - length val % 3) % 3) 61,
      )
      (omega arith)

trim_zeros-replicate : (n : ℕ) → trim_zeros (replicate n 0) ≡ []
unfolding trim_zeros
trim_zeros-replicate zero = refl
trim_zeros-replicate (suc n) = rw (trim_zeros-replicate n) refl

trim_zeros-append : (s : Bytes) (n : ℕ) → trim_zeros (s ++ replicate n 0) ≡ trim_zeros s
unfolding trim_zeros
trim_zeros-append [] n = trim_zeros-replicate n
trim_zeros-append (c ∷ s) n = rw (trim_zeros-append s n) refl

-- If the base64 decoder gives back the bytes of an encoded text, with zero bytes for the padding,
-- then `decode64` of `encode64` is the text without the zero bytes at its end.
pub decode64-encode64 :
    (digits_of bytes_of : Bytes → Bytes) (val : Bytes)
    → ((s : Bytes) → (n : ℕ) × (bytes_of (encode64 digits_of s) ≡ s ++ replicate n 0))
    → decode64 bytes_of (encode64 digits_of val) ≡ trim_zeros val
unfolding decode64
decode64-encode64 digits_of bytes_of val law =
    let (n, e) = law val in rw e (trim_zeros-append val n)

hex_digit_inj : (a b : ℕ) → a < 16 → b < 16 → hex_digit a ≡ hex_digit b → a ≡ b
unfolding hex_digit
hex_digit_inj a b ha hb h = ground arith

hex_step : (c : ℕ) → c < 256 → c / 16 < 16
hex_step c h = omega (arith, h)

hex_inj : (s t : Bytes) → All (λ c. c < 256) s → All (λ c. c < 256) t → hex s ≡ hex t → s ≡ t
unfolding hex
hex_inj [] [] hs ht h = refl
hex_inj [] (d ∷ t) hs ht h = cc
hex_inj (c ∷ s) [] hs ht h = cc
hex_inj (c ∷ s) (d ∷ t) (hc, hs) (hd, ht) h =
    let first : hex_digit (c / 16) ≡ hex_digit (d / 16) = cc in
    let second : hex_digit (c % 16) ≡ hex_digit (d % 16) = cc in
    let rest : hex s ≡ hex t = cc in
    let high = hex_digit_inj (c / 16) (d / 16) (hex_step c hc) (hex_step d hd) first in
    let low = hex_digit_inj (c % 16) (d % 16) (omega arith) (omega arith) second in
    let same : c ≡ d = omega (arith, high, low) in rw (same, hex_inj s t hs ht rest) refl

-- If OpenSSL gives the digests `g` and `h` of two texts, and these are bytes, then `md5` gives equal
-- results only if the digests are equal: the hexadecimal digits lose nothing.
pub md5_lem :
    (digest : Bytes → Option Bytes) (a b g h : Bytes)
    → digest a ≡ some g
    → digest b ≡ some h
    → All (λ c. c < 256) g
    → All (λ c. c < 256) h
    → md5 digest a ≡ md5 digest b
    → g ≡ h
unfolding md5
md5_lem digest a b g h first second small small' same =
    let left : md5 digest a ≡ hex g = rw (first, md5) refl in
    let right : md5 digest b ≡ hex h = rw (second, md5) refl in
    hex_inj g h small small' (cc (left, right, same))
