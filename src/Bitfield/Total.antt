-- ===== src/Bitfield/Total.antt =====
-- Reads within the buffer: none fails, and what each gives fits its field.
use pgais.Base.{
  ℕ, zero, suc, ◌+◌, ◌*◌, ◌%◌, ◌^◌, ◌≤◌, ◌<◌, ◌≡◌, refl, arith, List, [], ◌∷◌, All, Bool, true,
  ◌==◌, not, ◌&&◌, leb, length, Bool-cases, inl, inr,
}
use pgais.Base.Int.{ℤ, Fits, to_signed}
use pgais.Error.{ok, success}
use pgais.Bitfield.SixBit.{ais6bit_to_ascii, IsPrintable}
use pgais.Bitfield.Reader.{
  bit_length, check_bounds, read_bit, read_loop, read_uint, read_int, read_bool, read_text,
  read_chars, strip, keep_before, is_padding,
}
use pgais.Bitfield.Digits.{IsBit, of_bits, bits_at, of_bits_bounds, read_bit-lt, read_loop-of_bits}
use pgais.Bitfield.Sign.{sign_extend_lem, to_unsigned-to_signed, to_signed-Fits}
use pgais.Bitfield.Text.{decode_six}
use pgais.Bitfield.Fields.{FitsText}
use native.Mathlib.Nat.{pow-le-pow_right, mod-le}

pub length-bits_at : (buf : List ℕ) (idx n : ℕ) → length (bits_at buf idx n) ≡ n
unfolding bits_at
length-bits_at buf idx zero = refl
length-bits_at buf idx (suc n) = omega (arith, length-bits_at buf (idx + 1) n)

bits_at-IsBit : (buf : List ℕ) (idx n : ℕ) → All IsBit (bits_at buf idx n)
unfolding bits_at
bits_at-IsBit buf idx zero = tt
bits_at-IsBit buf idx (suc n) = (read_bit-lt buf idx, bits_at-IsBit buf (idx + 1) n)

-- A field of `w` bits stands for a number below 2^w.
pub of_bits-bits_at-lt : (buf : List ℕ) (idx n : ℕ) → of_bits 0 (bits_at buf idx n) < 2 ^ n
of_bits-bits_at-lt buf idx n =
    let (lo, hi) = of_bits_bounds 0 (bits_at buf idx n) (bits_at-IsBit buf idx n) in
    let high = rw (length-bits_at buf idx n) at hi in omega (arith, high)

pub read_loop-lt : (buf : List ℕ) (idx n : ℕ) → n ≤ 64 → read_loop buf idx n 0 < 2 ^ n
read_loop-lt buf idx n h =
    rw
      (read_loop-of_bits buf idx n 0
        (omega (arith, pow-le-pow_right {n = 2} (omega arith) {i = n} {j = 64} h)))
      (of_bits-bits_at-lt buf idx n)

module _ (buf : List ℕ) (offset : ℕ) where
  within :
      (width : ℕ)
      → 1 ≤ width
      → width ≤ 64
      → offset + width ≤ bit_length buf
      → check_bounds buf offset width ≡ success
  unfolding check_bounds bit_length
  within width one narrow h = ground arith

  pub read_uint_total :
      (width : ℕ)
      → 1 ≤ width
      → width ≤ 64
      → offset + width ≤ bit_length buf
      → (v : ℕ) × (read_uint buf offset width ≡ ok v) × (v < 2 ^ width)
  unfolding read_uint
  read_uint_total width one narrow h = (
    read_loop buf offset width 0,
    rw (within width one narrow h) refl,
    read_loop-lt buf offset width narrow,
  )

  pub read_int_total :
      (width : ℕ)
      → 1 ≤ width
      → width ≤ 64
      → offset + width ≤ bit_length buf
      → (z : ℤ) × (read_int buf offset width ≡ ok z) × Fits width z
  unfolding read_int
  read_int_total width one narrow h =
      let small = read_loop-lt buf offset width narrow in
      let z = to_signed width (read_loop buf offset width 0) in
      let fits = to_signed-Fits width (read_loop buf offset width 0) one narrow small in
      let value = sign_extend_lem width z one narrow fits in
      let cut = to_unsigned-to_signed width (read_loop buf offset width 0) one narrow small in
      (z, rw (within width one narrow h, rw cut at value) refl, fits)

  pub read_bool_total : offset + 1 ≤ bit_length buf → (b : Bool) × (read_bool buf offset ≡ ok b)
  unfolding read_bool
  read_bool_total h =
      (not (read_bit buf offset == 0), rw (within 1 (omega arith) (omega arith) h) refl)

six-IsPrintable : (v : ℕ) → v < 64 → IsPrintable (ais6bit_to_ascii v)
six-IsPrintable v h = rw (decode_six v h) (ground arith)

read_chars-IsPrintable : (buf : List ℕ) (idx n : ℕ) → All IsPrintable (read_chars buf idx n)
unfolding read_chars
read_chars-IsPrintable buf idx zero = tt
read_chars-IsPrintable buf idx (suc n) =
    let small = read_loop-lt buf idx 6 (omega arith) in
    (six-IsPrintable _ (omega arith), read_chars-IsPrintable buf (idx + 6) n)

length-read_chars : (buf : List ℕ) (idx n : ℕ) → length (read_chars buf idx n) ≡ n
unfolding read_chars
length-read_chars buf idx zero = refl
length-read_chars buf idx (suc n) = omega (arith, length-read_chars buf (idx + 6) n)

keep_before-FitsText :
    (n c : ℕ) (s : List ℕ) → IsPrintable c → FitsText n s → FitsText (suc n) (keep_before c s)
unfolding keep_before
keep_before-FitsText n c [] p (all, ends, k) = elim (Bool-cases (is_padding c)) [
  | inl e ↦ rw e (tt, tt, omega arith)
  | inr e ↦ rw e ((p, tt), e, omega arith)
]
keep_before-FitsText n c (d ∷ s) p (all, ends, k) = ((p, all), ends, omega (arith, k))

strip-FitsText : (s : List ℕ) → All IsPrintable s → FitsText (length s) (strip s)
unfolding strip
strip-FitsText [] h = (tt, tt, omega arith)
strip-FitsText (c ∷ s) h = keep_before-FitsText (length s) c (strip s) h.0 (strip-FitsText s h.1)

pub read_text_total :
    (buf : List ℕ) (offset n : ℕ)
    → 1 ≤ n
    → offset + n * 6 ≤ bit_length buf
    → (s : List ℕ) × (read_text buf offset n ≡ ok s) × FitsText n s
unfolding read_text bit_length
read_text_total buf offset n one h =
    let chars = read_chars buf offset n in
    let fits = strip-FitsText chars (read_chars-IsPrintable buf offset n) in
    (strip chars, ground arith, rw (length-read_chars buf offset n) at fits)

-- A field of a buffer, read: its value, and that the value fits.
pub record ReadsUint (buf : List ℕ) (offset width : ℕ) : Type 0 where
  pub value : ℕ
  pub is : read_uint buf offset width ≡ ok value
  pub fits : value < 2 ^ width

pub record ReadsInt (buf : List ℕ) (offset width : ℕ) : Type 0 where
  pub value : ℤ
  pub is : read_int buf offset width ≡ ok value
  pub fits : Fits width value

pub record ReadsBool (buf : List ℕ) (offset : ℕ) : Type 0 where
  pub value : Bool
  pub is : read_bool buf offset ≡ ok value

pub record ReadsText (buf : List ℕ) (offset count : ℕ) : Type 0 where
  pub value : List ℕ
  pub is : read_text buf offset count ≡ ok value
  pub fits : FitsText count value

-- A field lies within the first `size` bits.
abbrev pub lies_in : ℕ → ℕ → ℕ → Bool
lies_in size offset width = leb 1 width && leb width 64 && leb (offset + width) size

module _ (buf : List ℕ) (size : ℕ) (long : size ≤ bit_length buf) where
  lies_in→bounds :
      (offset width : ℕ)
      → lies_in size offset width ≡ true
      → (1 ≤ width) × (width ≤ 64) × (offset + width ≤ bit_length buf)
  lies_in→bounds offset width h = ground arith

  pub fetch_uint :
      (offset width : ℕ) → lies_in size offset width ≡ true → ReadsUint buf offset width
  fetch_uint offset width h =
      let (one, narrow, within) = lies_in→bounds offset width h in
      let (v, e, k) = read_uint_total buf offset width one narrow within in
      record { value = v; is = e; fits = k }

  pub fetch_int : (offset width : ℕ) → lies_in size offset width ≡ true → ReadsInt buf offset width
  fetch_int offset width h =
      let (one, narrow, within) = lies_in→bounds offset width h in
      let (v, e, k) = read_int_total buf offset width one narrow within in
      record { value = v; is = e; fits = k }

  pub fetch_bool : (offset : ℕ) → leb (offset + 1) size ≡ true → ReadsBool buf offset
  fetch_bool offset h =
      let (v, e) = read_bool_total buf offset (ground arith) in record { value = v; is = e }

  pub fetch_text :
      (offset count : ℕ)
      → (leb 1 count && leb (offset + count * 6) size) ≡ true
      → ReadsText buf offset count
  fetch_text offset count h =
      let (v, e, k) = read_text_total buf offset count (ground arith) (ground arith) in
      record { value = v; is = e; fits = k }

-- A value still fits after a conversion.
pub cut-lt : (n m bound : ℕ) → n < bound → n % m < bound
cut-lt n m bound h = omega (arith, mod-le n m)
