-- ===== src/Sentence/Numerals.antt =====
-- The numerals of a sentence, decimal and hexadecimal, against `parse_uint8` and `parse_hex8`.
use pgais.Base.{
  ℕ, ◌+◌, ◌-◌, ◌*◌, ◌%◌, ◌^◌, ◌≤◌, ◌<◌, ◌≡◌, ◌↔◌, inl, inr, sym, arith, List, [], ◌∷◌, true, some,
  All, length, bit_or, Option-cases, Bool-cases, leb, ◌&&◌,
}
use mathlib.Core.Path.{subst}
use pgais.Bits.{or_high, or_low}
use pgais.Sentence.{is_digit, parse_digits, parse_uint8, hex_value, parse_hex_digits, parse_hex8}

-- The number that decimal digits add to one before them.
unfoldable pub decimal : List ℕ → ℕ → ℕ
decimal [] v = v
decimal (c ∷ s) v = decimal s (v * 10 + (c - b'0'))

-- The decimal numeral of a byte, with any zeros before it.
pub record IsNumber (text : List ℕ) (v : ℕ) : Type 0 where
  pub some_digit : 1 ≤ length text
  pub digits : All (λ c. is_digit c ≡ true) text
  pub value : decimal text 0 ≡ v
  pub fits : v ≤ 255

decimal-high : (s : List ℕ) (v : ℕ) → v ≤ decimal s v
unfolding decimal
decimal-high [] v = omega arith
decimal-high (c ∷ s) v = omega (arith, decimal-high s (v * 10 + (c - b'0')))

parse_digits-decimal :
    (s : List ℕ) (v : ℕ)
    → v ≤ 255
    → All (λ c. is_digit c ≡ true) s
    → decimal s v ≤ 255
    → parse_digits s v ≡ some (decimal s v)
unfolding parse_digits decimal
parse_digits-decimal [] v h digits k = ground arith
parse_digits-decimal (c ∷ s) v h digits k =
    let grows = decimal-high s (v * 10 + (c - b'0')) in
    let small : (v * 10 + (c - b'0')) % 2 ^ 32 ≡ v * 10 + (c - b'0') = omega arith in
    let digit = digits.0 in
    let rest = parse_digits-decimal s (v * 10 + (c - b'0')) (omega arith) digits.1 k in
    rw small (ground arith)

parse_digits-some :
    (s : List ℕ) (v r : ℕ)
    → v ≤ 255
    → parse_digits s v ≡ some r
    → All (λ c. is_digit c ≡ true) s × (decimal s v ≡ r) × (r ≤ 255)
unfolding parse_digits decimal
parse_digits-some [] v r h e = (tt, ground arith, ground arith)
parse_digits-some (c ∷ s) v r h e =
    let v' = (v * 10 + (c - b'0')) % 2 ^ 32 in
    let digit : is_digit c ≡ true = ground arith in
    let low : v' ≤ 255 = ground arith in
    let rest : parse_digits s v' ≡ some r = ground arith in
    let small : v' ≡ v * 10 + (c - b'0') = ground arith in
    let (digits, value, fits) = parse_digits-some s v' r low rest in
    ((digit, digits), rw (sym small) value, fits)

-- `parse_uint8` reads just the decimal numerals of a byte, as their values.
pub parse_uint8-IsNumber : (text : List ℕ) (v : ℕ) → (parse_uint8 text ≡ some v) ↔ IsNumber text v
unfolding parse_uint8
parse_uint8-IsNumber [] v = (λ e. cc, λ h. absurd (omega (arith, h.some_digit)))
parse_uint8-IsNumber (c ∷ s) v = (
  λ e.
      let (digits, value, fits) = parse_digits-some (c ∷ s) 0 v (omega arith) e in
      record { some_digit = omega arith; digits = digits; value = value; fits = fits },
  λ h.
      rw h.value at
        (parse_digits-decimal (c ∷ s) 0 (omega arith) h.digits (omega (arith, h.value, h.fits))),
)

-- A hexadecimal digit, of either case, and its value.
pub data IsHexDigit (c : ℕ) : ℕ → Type 0 where
  digit : b'0' ≤ c → c ≤ b'9' → IsHexDigit c (c - b'0')
  upper : b'A' ≤ c → c ≤ b'F' → IsHexDigit c (c - b'A' + 10)
  lower : b'a' ≤ c → c ≤ b'f' → IsHexDigit c (c - b'a' + 10)

IsHexDigit-hex_value : (c : ℕ) {v : ℕ} → IsHexDigit c v → hex_value c ≡ some v
unfolding hex_value
IsHexDigit-hex_value c (digit h k) = ground arith
IsHexDigit-hex_value c (upper h k) = ground arith
IsHexDigit-hex_value c (lower h k) = ground arith

hex_value-IsHexDigit : (c v : ℕ) → hex_value c ≡ some v → IsHexDigit c v
unfolding hex_value
hex_value-IsHexDigit c v e = elim (Bool-cases (leb b'0' c && leb c b'9')) [
  | inl p ↦ subst (IsHexDigit c) (ground arith) (digit (ground arith) (ground arith))
  | inr p ↦ elim (Bool-cases (leb b'A' c && leb c b'F')) [
    | inl q ↦ subst (IsHexDigit c) (ground arith) (upper (ground arith) (ground arith))
    | inr q ↦ subst (IsHexDigit c) (ground arith) (lower (ground arith) (ground arith))
  ]
]

-- Two hexadecimal digits and their value.
pub record IsHexByte (c d n : ℕ) : Type 0 where
  pub high : ℕ
  pub low : ℕ
  pub high_digit : IsHexDigit c high
  pub low_digit : IsHexDigit d low
  pub value : n ≡ high * 16 + low

hex_value-lt : (c v : ℕ) → hex_value c ≡ some v → v < 16
unfolding hex_value
hex_value-lt c v h = ground arith

-- Two digits, put together.
two_digits :
    (high low : ℕ)
    → high < 16
    → low < 16
    → bit_or (bit_or 0 high * 2 ^ 4 % 2 ^ 8) low ≡ high * 16 + low
two_digits high low h k =
    let first : bit_or 0 high ≡ high = ground (arith, or_high 0 0 high (omega arith)) in
    let whole : high * 2 ^ 4 % 2 ^ 8 ≡ high * 2 ^ 4 = omega arith in
    rw (first, whole) (or_low 4 low high k)

-- `parse_hex8` reads just the pairs of hexadecimal digits, as their values.
pub parse_hex8-IsHexByte : (c d n : ℕ) → (parse_hex8 (c ∷ d ∷ []) ≡ some n) ↔ IsHexByte c d n
unfolding parse_hex8 parse_hex_digits
parse_hex8-IsHexByte c d n = (
  λ e. elim (Option-cases (hex_value c)) [
    | inl p ↦ absurd (ground arith)
    | inr (high, p) ↦ elim (Option-cases (hex_value d)) [
      | inl q ↦ absurd (ground arith)
      | inr (low, q) ↦ record {
        high = high;
        low = low;
        high_digit = hex_value-IsHexDigit c high p;
        low_digit = hex_value-IsHexDigit d low q;
        value = ground (arith, two_digits high low (hex_value-lt c high p) (hex_value-lt d low q));
      }
    ]
  ],
  λ h.
      let value = h.value in
      let p = IsHexDigit-hex_value c h.high_digit in
      let q = IsHexDigit-hex_value d h.low_digit in
      let both = two_digits h.high h.low (hex_value-lt c h.high p) (hex_value-lt d h.low q) in
      ground arith,
)
