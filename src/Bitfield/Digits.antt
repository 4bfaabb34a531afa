-- ===== src/Bitfield/Digits.antt =====
-- The plain description of a bit field: a number as its bits, most significant first, and back.
-- `read_loop` of `BitReader` is shown to compute it.
use native.Mathlib.Nat.{
  pow-suc, div-add-mod, mod-lt, mod-eq_of_lt, div-eq_of_lt-le, add-mul-mod_self_right,
}
use pgais.Base.{
  ℕ, zero, suc, ◌+◌, ◌-◌, ◌*◌, ◌/◌, ◌%◌, ◌^◌, ◌≤◌, ◌<◌, ◌≡◌, refl, ap, ap₂, arith, List, [], ◌∷◌,
  length, get_or, All, bit_or, ◌∙◌,
}
use pgais.Bits.{digit, digit-lt, shift-digit, and-one, or_bit, two_pow_pos}
use pgais.Bitfield.Reader.{read_bit, read_loop}

-- The bits of `v` in a field of `w` bits, the top one first.
unfoldable pub to_bits : ℕ → ℕ → List ℕ
to_bits zero v = []
to_bits (suc w) v = (v / 2 ^ w % 2) ∷ to_bits w v

-- The number that bits stand for, behind those that `acc` has.
unfoldable pub of_bits : ℕ → List ℕ → ℕ
of_bits acc [] = acc
of_bits acc (b ∷ bs) = of_bits (acc * 2 + b) bs

abbrev pub IsBit : ℕ → Type 0
IsBit b = b < 2

-- The `n` bits of a buffer from bit `idx` on.
unfoldable pub bits_at : List ℕ → ℕ → ℕ → List ℕ
bits_at buf idx zero = []
bits_at buf idx (suc n) = read_bit buf idx ∷ bits_at buf (idx + 1) n

pub length-to_bits : (w v : ℕ) → length (to_bits w v) ≡ w
unfolding to_bits
length-to_bits zero v = refl
length-to_bits (suc w) v = ap suc (length-to_bits w v)

pub to_bits-IsBit : (w v : ℕ) → All IsBit (to_bits w v)
unfolding to_bits
to_bits-IsBit zero v = tt
to_bits-IsBit (suc w) v = (omega arith, to_bits-IsBit w v)

pub read_bit-digit :
    (buf : List ℕ) (i : ℕ) → read_bit buf i ≡ digit (get_or buf (i / 8) 0) (7 - i % 8)
unfolding read_bit
read_bit-digit buf i = and-one _ ∙ shift-digit (get_or buf (i / 8) 0) (7 - i % 8)

pub read_bit-lt : (buf : List ℕ) (i : ℕ) → read_bit buf i < 2
read_bit-lt buf i = omega (arith, read_bit-digit buf i, digit-lt (get_or buf (i / 8) 0) (7 - i % 8))

-- The top bit of a field of `n + 1` bits, and the rest.
split_top : (n v : ℕ) → v % 2 ^ suc n ≡ v / 2 ^ n % 2 * 2 ^ n + v % 2 ^ n
split_top n v =
    ap (λ (t : ℕ). t % 2 ^ suc n) whole
    ∙ add-mul-mod_self_right low (v / 2 ^ n / 2) (2 ^ suc n)
    ∙ mod-eq_of_lt low_lt
  where
    low : ℕ
    low = v / 2 ^ n % 2 * 2 ^ n + v % 2 ^ n

    whole : v ≡ low + v / 2 ^ n / 2 * 2 ^ suc n
    whole = omega (
      arith,
      div-add-mod v (2 ^ n),
      ap (λ (t : ℕ). t * 2 ^ n) (div-add-mod (v / 2 ^ n) 2),
      ap (λ (t : ℕ). v / 2 ^ n / 2 * t) (pow-suc 2 n),
    )

    low_lt : low < 2 ^ suc n
    low_lt = grind (arith, mod-lt v (two_pow_pos n), pow-suc 2 n)

pub of_bits-to_bits : (w acc v : ℕ) → of_bits acc (to_bits w v) ≡ acc * 2 ^ w + v % 2 ^ w
unfolding of_bits to_bits
of_bits-to_bits zero acc v = omega arith
of_bits-to_bits (suc w) acc v = omega (
  arith,
  of_bits-to_bits w (acc * 2 + v / 2 ^ w % 2) v,
  split_top w v,
  ap (λ (t : ℕ). acc * t) (pow-suc 2 w),
)

pub fits_next : (v b p m : ℕ) → b < 2 → (v + 1) * (2 * p) ≤ m → (v * 2 + b + 1) * p ≤ m
fits_next v zero p m h k = omega arith
fits_next v (suc zero) p m h k = omega arith
fits_next v (suc (suc b)) p m h k = absurd (omega arith)

-- As long as the result fits a uint64_t nothing is shifted out.
pub read_loop-of_bits :
    (buf : List ℕ) (idx n value : ℕ)
    → (value + 1) * 2 ^ n ≤ 2 ^ 64
    → read_loop buf idx n value ≡ of_bits value (bits_at buf idx n)
unfolding read_loop of_bits bits_at
read_loop-of_bits buf idx zero value h = refl
read_loop-of_bits buf idx (suc n) value h =
    rw step (read_loop-of_bits buf (idx + 1) n (value * 2 + read_bit buf idx) fits)
  where
    b<2 : read_bit buf idx < 2
    b<2 = read_bit-lt buf idx

    small : value * 2 < 2 ^ 64
    small = grind (arith, pow-suc 2 n, two_pow_pos n)

    step : bit_or (value * 2 % 2 ^ 64) (read_bit buf idx) ≡ value * 2 + read_bit buf idx
    step = rw (mod-eq_of_lt small) (or_bit value (read_bit buf idx) b<2)

    fits : (value * 2 + read_bit buf idx + 1) * 2 ^ n ≤ 2 ^ 64
    fits =
        fits_next value (read_bit buf idx) (2 ^ n) (2 ^ 64) b<2
          (omega (arith, ap (λ (t : ℕ). (value + 1) * t) (pow-suc 2 n)))

-- A row of bits behind `acc` has `acc` for its top part.
pub of_bits_bounds :
    (acc : ℕ) (bs : List ℕ)
    → All IsBit bs
    → (acc * 2 ^ length bs ≤ of_bits acc bs) × (of_bits acc bs < (acc + 1) * 2 ^ length bs)
unfolding of_bits
of_bits_bounds acc [] h = omega arith
of_bits_bounds acc (b ∷ bs) h =
    let (lo, hi) = of_bits_bounds (acc * 2 + b) bs h.1 in
    bounds_next b acc (2 ^ length bs) (2 ^ suc (length bs)) _ h.0
      (omega (arith, pow-suc 2 (length bs))) lo hi
  where
    bounds_next :
        (b acc p q v : ℕ)
        → b < 2
        → q ≡ 2 * p
        → (acc * 2 + b) * p ≤ v
        → v < (acc * 2 + b + 1) * p
        → (acc * q ≤ v) × (v < (acc + 1) * q)
    bounds_next zero acc p q v h e lo hi = rw e (omega arith, omega arith)
    bounds_next (suc zero) acc p q v h e lo hi = rw e (omega arith, omega arith)
    bounds_next (suc (suc b)) acc p q v h e lo hi = absurd (omega arith)

-- The bits of the number that bits stand for.
pub to_bits-of_bits :
    (acc : ℕ) (bs : List ℕ) → All IsBit bs → to_bits (length bs) (of_bits acc bs) ≡ bs
unfolding to_bits of_bits
to_bits-of_bits acc [] h = refl
to_bits-of_bits acc (b ∷ bs) h = ap₂ ◌∷◌ top (to_bits-of_bits (acc * 2 + b) bs h.1)
  where
    quotient : of_bits (acc * 2 + b) bs / 2 ^ length bs ≡ acc * 2 + b
    quotient =
        let (lo, hi) = of_bits_bounds (acc * 2 + b) bs h.1 in div-eq_of_lt-le (2 ^ length bs) lo hi

    top : of_bits (acc * 2 + b) bs / 2 ^ length bs % 2 ≡ b
    top = rw quotient (omega (arith, h.0))
