-- ===== src/Bits.antt =====
-- The native operations on bits, seen digit by digit: what `|`, `&`, `^` and the shifts of the source
-- do to one binary digit, at every width.
use Prim.Native.Nat.{digits, differ, bitwise, bit_and-bitwise, bit_or-bitwise, bit_xor-bitwise}
use native.Mathlib.Nat.{pow-suc, le_refl, div-div-eq-div-mul, mul_comm, one-le-pow}
use pgais.Base.{
  ℕ, zero, suc, ◌+◌, ◌*◌, ◌/◌, ◌%◌, ◌^◌, ◌≤◌, ◌<◌, max, min, bit_and, bit_or, bit_xor, ◌≡◌, refl,
  ap, arith, ◌==◌, if◌then◌else◌,
}

-- Digit `i` of a number, digit 0 the lowest.
abbrev pub digit : ℕ → ℕ → ℕ
digit a zero = a % 2
digit a (suc i) = digit (a / 2) i

-- Fuel beyond the number makes no difference to a digitwise operation.
digits_enough :
    (z : ℕ → ℕ) (f : ℕ → ℕ → ℕ) (n a b : ℕ) → a ≤ n → digits z f n a b ≡ digits z f a a b
digits_enough z f n a b h = equal n a a b h (le_refl a)
  where
    equal : (n m a b : ℕ) → a ≤ n → a ≤ m → digits z f n a b ≡ digits z f m a b
    equal zero zero zero b h k = refl
    equal zero zero (suc a) b h k = absurd (omega arith)
    equal zero (suc m) zero b h k = refl
    equal zero (suc m) (suc a) b h k = absurd (omega arith)
    equal (suc n) zero zero b h k = refl
    equal (suc n) zero (suc a) b h k = absurd (omega arith)
    equal (suc n) (suc m) zero b h k = refl
    equal (suc n) (suc m) (suc a) b h k =
        omega (arith, equal n m (suc a / 2) (b / 2) (omega arith) (omega arith))

bitwise_lowest :
    (z : ℕ → ℕ) (f : ℕ → ℕ → ℕ) (a b : ℕ)
    → bitwise z f (suc a) b ≡ bitwise z f (suc a / 2) (b / 2) * 2 + f (suc a % 2) (b % 2)
bitwise_lowest z f a b = omega (arith, digits_enough z f a (suc a / 2) (b / 2) (omega arith))

or_lowest : (a b : ℕ) → bit_or a b ≡ bit_or (a / 2) (b / 2) * 2 + max (a % 2) (b % 2)
or_lowest zero b = simp bit_or-bitwise (omega arith)
or_lowest (suc a) b = simp bit_or-bitwise (bitwise_lowest (λ y. y) max a b)

and_lowest : (a b : ℕ) → bit_and a b ≡ bit_and (a / 2) (b / 2) * 2 + min (a % 2) (b % 2)
and_lowest zero b = simp bit_and-bitwise (omega arith)
and_lowest (suc a) b = simp bit_and-bitwise (bitwise_lowest (λ y. 0) min a b)

xor_lowest : (a b : ℕ) → bit_xor a b ≡ bit_xor (a / 2) (b / 2) * 2 + differ (a % 2) (b % 2)
xor_lowest zero b = simp bit_xor-bitwise (omega arith)
xor_lowest (suc a) b = simp bit_xor-bitwise (bitwise_lowest (λ y. y) differ a b)

or-zero_fuel : (n a : ℕ) → a ≤ n → bit_or a 0 ≡ a
or-zero_fuel n zero h = refl
or-zero_fuel zero (suc a) h = absurd (omega arith)
or-zero_fuel (suc n) (suc a) h =
    omega (arith, or_lowest (suc a) 0, or-zero_fuel n (suc a / 2) (omega arith))

and-zero_fuel : (n a : ℕ) → a ≤ n → bit_and a 0 ≡ 0
and-zero_fuel n zero h = refl
and-zero_fuel zero (suc a) h = absurd (omega arith)
and-zero_fuel (suc n) (suc a) h =
    omega (arith, and_lowest (suc a) 0, and-zero_fuel n (suc a / 2) (omega arith))

pub and-one : (a : ℕ) → bit_and a 1 ≡ a % 2
and-one a = omega (arith, and_lowest a 1, and-zero_fuel (a / 2) (a / 2) (le_refl _))

-- `(a << 1) | b` with a bit `b`.
pub or_bit : (a b : ℕ) → b < 2 → bit_or (a * 2) b ≡ a * 2 + b
or_bit a b h = ground (arith, or_lowest (a * 2) b, or-zero_fuel a a (le_refl a))

-- `r | (q << k)` with `r` below the shifted field.
pub or_high : (k r q : ℕ) → r < 2 ^ k → bit_or r (q * 2 ^ k) ≡ r + q * 2 ^ k
or_high zero r q h = ground (arith, bit_or-bitwise 0 q)
or_high (suc k) r q h = ground (
  arith,
  or_lowest r (q * 2 ^ suc k),
  pow-suc 2 k,
  ap (λ (t : ℕ). q * t) (pow-suc 2 k),
  or_high k (r / 2) q,
)

-- `(q << k) | r` with `r` below the shifted field.
pub or_low : (k r q : ℕ) → r < 2 ^ k → bit_or (q * 2 ^ k) r ≡ q * 2 ^ k + r
or_low zero r q h =
    let none_left : r ≡ 0 = omega arith in
    rw none_left (ground (arith, or-zero_fuel (q * 1) (q * 1) (le_refl _)))
or_low (suc k) r q h = ground (
  arith,
  or_lowest (q * 2 ^ suc k) r,
  pow-suc 2 k,
  ap (λ (t : ℕ). q * t) (pow-suc 2 k),
  or_low k (r / 2) q,
)

pub two_pow_pos : (n : ℕ) → 1 ≤ 2 ^ n
two_pow_pos n = one-le-pow n 2 (omega arith)

pub digit-lt : (a i : ℕ) → digit a i < 2
digit-lt a zero = omega arith
digit-lt a (suc i) = digit-lt (a / 2) i

pub digit-zero : (i : ℕ) → digit 0 i ≡ 0
digit-zero zero = refl
digit-zero (suc i) = digit-zero i

pub digit-or : (a b i : ℕ) → digit (bit_or a b) i ≡ max (digit a i) (digit b i)
digit-or a b zero = omega (arith, or_lowest a b)
digit-or a b (suc i) =
    let half : bit_or a b / 2 ≡ bit_or (a / 2) (b / 2) = omega (arith, or_lowest a b) in
    rw half (digit-or (a / 2) (b / 2) i)

-- The digits of a bit that is shifted to place `p`.
pub digit-shift : (b p i : ℕ) → b < 2 → digit (b * 2 ^ p) i ≡ (if i == p then b else 0)
digit-shift b zero zero h = ground arith
digit-shift b zero (suc i) h =
    let gone : b * 2 ^ 0 / 2 ≡ 0 = omega arith in rw gone (ground (arith, digit-zero i))
digit-shift b (suc p) zero h = ground (arith, ap (λ (t : ℕ). b * t) (pow-suc 2 p))
digit-shift b (suc p) (suc i) h =
    let half : b * 2 ^ suc p / 2 ≡ b * 2 ^ p = omega (arith, ap (λ (t : ℕ). b * t) (pow-suc 2 p)) in
    rw half (ground (arith, digit-shift b p i))

div-pow-suc : (a k : ℕ) → a / 2 ^ suc k ≡ a / 2 / 2 ^ k
div-pow-suc a k =
    rw (pow-suc 2 k, div-div-eq-div-mul) (omega (arith, ap (λ (t : ℕ). a / t) (mul_comm (2 ^ k) 2)))

-- `(a >> i) & 1`.
pub shift-digit : (a i : ℕ) → a / 2 ^ i % 2 ≡ digit a i
shift-digit a zero = omega arith
shift-digit a (suc i) = rw div-pow-suc (shift-digit (a / 2) i)

differ-le : (x y : ℕ) → differ x y ≤ max x y
differ-le zero y = omega arith
differ-le (suc x) zero = omega arith
differ-le (suc x) (suc y) = omega (arith, differ-le x y)

pub xor-lt : (k a b : ℕ) → a < 2 ^ k → b < 2 ^ k → bit_xor a b < 2 ^ k
xor-lt zero zero zero h h' = omega arith
xor-lt zero zero (suc b) h h' = absurd (omega arith)
xor-lt zero (suc a) b h h' = absurd (omega arith)
xor-lt (suc k) a b h h' = omega (
  arith,
  xor_lowest a b,
  differ-le (a % 2) (b % 2),
  pow-suc 2 k,
  xor-lt k (a / 2) (b / 2) (omega (arith, pow-suc 2 k)) (omega (arith, pow-suc 2 k)),
)

pub or-lt : (k a b : ℕ) → a < 2 ^ k → b < 2 ^ k → bit_or a b < 2 ^ k
or-lt zero zero zero h h' = omega arith
or-lt zero zero (suc b) h h' = absurd (omega arith)
or-lt zero (suc a) b h h' = absurd (omega arith)
or-lt (suc k) a b h h' = omega (
  arith,
  or_lowest a b,
  pow-suc 2 k,
  or-lt k (a / 2) (b / 2) (omega (arith, pow-suc 2 k)) (omega (arith, pow-suc 2 k)),
)

differ_bits : (x y : ℕ) → x < 2 → y < 2 → differ x y ≡ (x + y) % 2
differ_bits zero y h k = omega arith
differ_bits (suc x) zero h k = omega arith
differ_bits (suc zero) (suc y) h k = omega arith
differ_bits (suc (suc x)) (suc y) h k = absurd (omega arith)

-- `^` with the same number on the right, or on the left, keeps numbers apart.
pub xor_cancel_right : (k a b c : ℕ) → a < 2 ^ k → b < 2 ^ k → bit_xor a c ≡ bit_xor b c → a ≡ b
xor_cancel_right zero a b c h h' e = omega arith
xor_cancel_right (suc k) a b c h h' e =
    let rest =
      xor_cancel_right k (a / 2) (b / 2) (c / 2) (omega (arith, pow-suc 2 k))
        (omega (arith, pow-suc 2 k)) in
    let bits_a = differ_bits (a % 2) (c % 2) (omega arith) (omega arith) in
    let bits_b = differ_bits (b % 2) (c % 2) (omega arith) (omega arith) in
    omega (
      arith,
      xor_lowest a c,
      xor_lowest b c,
      bits_a,
      bits_b,
      rest (omega (arith, xor_lowest a c, xor_lowest b c, bits_a, bits_b)),
    )

pub xor_cancel_left : (k a b c : ℕ) → b < 2 ^ k → c < 2 ^ k → bit_xor a b ≡ bit_xor a c → b ≡ c
xor_cancel_left zero a b c h h' e = omega arith
xor_cancel_left (suc k) a b c h h' e =
    let rest =
      xor_cancel_left k (a / 2) (b / 2) (c / 2) (omega (arith, pow-suc 2 k))
        (omega (arith, pow-suc 2 k)) in
    let bits_b = differ_bits (a % 2) (b % 2) (omega arith) (omega arith) in
    let bits_c = differ_bits (a % 2) (c % 2) (omega arith) (omega arith) in
    omega (
      arith,
      xor_lowest a b,
      xor_lowest a c,
      bits_b,
      bits_c,
      rest (omega (arith, xor_lowest a b, xor_lowest a c, bits_b, bits_c)),
    )
