-- ===== src/Bitfield/Sign.antt =====
-- Two's complement fields: the sign extension of `read_int` undoes the cut of `write_int`.
use native.Mathlib.Nat.{
  mod-eq_of_lt, pow-suc, add-mul-mod_self_right, pow-le-pow_right, div-eq_of_lt, div-eq_of_lt-le,
  zero-add,
}
use Prim.Native.Nat.add
use pgais.Base.{
  ℕ, zero, suc, ◌+◌, ◌-◌, ◌*◌, ◌/◌, ◌%◌, ◌^◌, ◌≤◌, ◌<◌, ◌≡◌, ap, ◌∙◌, arith, bit_and, ltb, ltb→lt,
  Bool-cases, inl, inr,
}
use pgais.Base.Int.{ℤ, pos, negsuc, to_unsigned, to_signed, Fits}
use pgais.Bits.{and-one, or_high, two_pow_pos}
use pgais.Bitfield.Reader.{sign_extend}

two_pow_add : (a b : ℕ) → 2 ^ (a + b) ≡ 2 ^ a * 2 ^ b
two_pow_add zero b = rw zero-add (omega arith)
two_pow_add (suc a) b =
    rw (add.suc a b)
      (omega (arith, pow-suc 2 (a + b), two_pow_add a b, ap (λ (t : ℕ). t * 2 ^ b) (pow-suc 2 a)))

-- A word of 64 bits splits into a field of `w` bits and the bits above.
word_split : (w : ℕ) → w ≤ 64 → 2 ^ 64 ≡ 2 ^ (64 - w) * 2 ^ w
word_split w h =
    let whole : 64 ≡ 64 - w + w = omega arith in
    ap (λ (t : ℕ). 2 ^ t) whole ∙ two_pow_add (64 - w) w

one_less : (q w : ℕ) → 1 ≤ q → q * w ≡ (q - 1) * w + w
one_less zero w h = absurd (omega arith)
one_less (suc q) w h = let less : suc q - 1 ≡ q = omega arith in rw less (omega arith)

half_word : (k : ℕ) → suc k ≤ 64 → 2 ^ k ≤ 2 ^ 63
half_word k h = pow-le-pow_right (omega arith) {i = k} {j = 63} (omega arith)

place : (k : ℕ) → suc k - 1 ≡ k
place k = omega arith

module _ (k n : ℕ) (narrow : suc k ≤ 64) (fits : n < 2 ^ k) where
  clear : bit_and (n / 2 ^ (suc k - 1)) 1 ≡ 0
  clear = rw (place k, div-eq_of_lt fits) (and-one 0)

  positive : to_signed 64 (sign_extend (suc k) n) ≡ pos n
  unfolding to_signed sign_extend
  positive = ground (arith, half_word k narrow, clear)

  -- The field of a negative number.
  raw : ℕ
  raw = 2 ^ suc k - 1 - n

  raw_bounds : (2 ^ k ≤ raw) × (raw < 2 ^ suc k) × (raw + 1 + n ≡ 2 ^ suc k)
  unfolding raw
  raw_bounds = omega (arith, pow-suc 2 k)

  high : ℕ
  high = 2 ^ (64 - suc k) - 1

  high_lem : 2 ^ 64 ≡ high * 2 ^ suc k + 2 ^ suc k
  unfolding high
  high_lem =
      word_split (suc k) narrow ∙ one_less (2 ^ (64 - suc k)) (2 ^ suc k) (two_pow_pos (64 - suc k))

  cut : (2 ^ 64 - 1 - n) % 2 ^ suc k ≡ raw
  cut =
      let parts : 2 ^ 64 - 1 - n ≡ raw + high * 2 ^ suc k = omega (arith, high_lem, raw_bounds) in
      rw parts (add-mul-mod_self_right raw high (2 ^ suc k) ∙ mod-eq_of_lt raw_bounds.1)

  top : bit_and (raw / 2 ^ k) 1 ≡ 1
  top =
      let quotient : raw / 2 ^ k ≡ 1 =
        div-eq_of_lt-le (2 ^ k) (omega (arith, raw_bounds))
          (omega (arith, raw_bounds, pow-suc 2 k)) in
      rw quotient (and-one 1)

  ones : (2 ^ 64 - 1) * 2 ^ suc k % 2 ^ 64 ≡ high * 2 ^ suc k
  ones = omega (arith, high_lem, pow-le-pow_right {n = 2} (omega arith) narrow, two_pow_pos (suc k))

  extended : sign_extend (suc k) raw ≡ 2 ^ 64 - 1 - n
  unfolding sign_extend
  extended = ground (arith, top, ones, or_high (suc k) raw high, raw_bounds, high_lem)

  negative : to_signed 64 (sign_extend (suc k) raw) ≡ negsuc n
  unfolding to_signed
  negative = rw extended (ground (arith, half_word k narrow))

-- The sign extension of a field of 1 to 64 bits gives back the integer that was cut to it, when the
-- integer fits the field.
pub sign_extend_lem :
    (width : ℕ) (z : ℤ)
    → 1 ≤ width
    → width ≤ 64
    → Fits width z
    → to_signed 64 (sign_extend width (to_unsigned 64 z % 2 ^ width)) ≡ z
unfolding to_unsigned
sign_extend_lem zero z h k f = absurd (omega arith)
sign_extend_lem (suc w) (pos n) h k f =
    let fits : n < 2 ^ w = rw (place w) at f in
    let word : n % 2 ^ 64 ≡ n = omega (arith, half_word w k) in
    let kept : n % 2 ^ suc w ≡ n = mod-eq_of_lt (omega (arith, pow-suc 2 w)) in
    rw (word, kept) (positive w n k fits)
sign_extend_lem (suc w) (negsuc n) h k f =
    let fits : n < 2 ^ w = rw (place w) at f in
    let word : n % 2 ^ 64 ≡ n = omega (arith, half_word w k) in
    rw (word, cut w n k fits) (negative w n k fits)

half_of : (k : ℕ) → 2 ^ (suc k - 1) ≡ 2 ^ k
half_of k = ap (λ (t : ℕ). 2 ^ t) (place k)

pub to_signed-Fits : (w r : ℕ) → 1 ≤ w → w ≤ 64 → r < 2 ^ w → Fits w (to_signed w r)
unfolding to_signed
to_signed-Fits zero r one h fits = absurd (omega arith)
to_signed-Fits (suc k) r one h fits = elim (Bool-cases (ltb r (2 ^ (suc k - 1)))) [
  | inl e ↦ rw e (ltb→lt r (2 ^ (suc k - 1)) e)
  | inr e ↦
      let high : 2 ^ (suc k - 1) ≤ r = ground arith in rw e (omega (arith, half_of k, pow-suc 2 k))
]

-- Every value of a field is the cut of the integer that it stands for.
pub to_unsigned-to_signed :
    (w r : ℕ) → 1 ≤ w → w ≤ 64 → r < 2 ^ w → to_unsigned 64 (to_signed w r) % 2 ^ w ≡ r
unfolding to_signed to_unsigned raw
to_unsigned-to_signed zero r one h fits = absurd (omega arith)
to_unsigned-to_signed (suc k) r one h fits = elim (Bool-cases (ltb r (2 ^ (suc k - 1)))) [
  | inl e ↦
      let small : r < 2 ^ 64 =
        omega (arith, half_word k h, half_of k, ltb→lt r (2 ^ (suc k - 1)) e) in
      rw (e, mod-eq_of_lt small) (mod-eq_of_lt fits)
  | inr e ↦
      let high : 2 ^ (suc k - 1) ≤ r = ground arith in
      let n = 2 ^ suc k - 1 - r in
      let low : n < 2 ^ k = omega (arith, half_of k, pow-suc 2 k) in
      let small : n % 2 ^ 64 ≡ n = mod-eq_of_lt (omega (arith, half_word k h)) in
      rw (e, small) (cut k n h low ∙ omega (arith, fits))
]
