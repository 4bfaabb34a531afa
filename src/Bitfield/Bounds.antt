-- ===== src/Bitfield/Bounds.antt =====
-- The bounds check of `BitReader`: what `read_uint` does on every buffer, and where the check wraps.
use native.Mathlib.Nat.{pow-le-pow_right}
use pgais.Base.{
  ℕ, ◌+◌, ◌*◌, ◌/◌, ◌%◌, ◌^◌, ◌≤◌, ◌<◌, ◌≡◌, ◌⊎◌, arith, List, ◌||◌, ◌==◌, ltb, if◌then◌else◌,
  length,
}
use pgais.Error.{ok, fail, bitfield_width_invalid, bitfield_out_of_range}
use pgais.Bitfield.Reader.{bit_length, check_bounds, read_loop, read_uint}
use pgais.Bitfield.Digits.{of_bits, bits_at, read_loop-of_bits}

-- The loop of a read of at most 64 bits.
read_loop_value :
    (buf : List ℕ) (offset width : ℕ)
    → width ≤ 64
    → read_loop buf offset width 0 ≡ of_bits 0 (bits_at buf offset width)
read_loop_value buf offset width k =
    read_loop-of_bits buf offset width 0
      (omega (arith, pow-le-pow_right {n = 2} (omega arith) {i = width} {j = 64} k))

-- A read whose end is below 2^64 fails on a width that is not in 1 to 64, fails on an end past the
-- buffer, and is otherwise the number whose binary digits are the bits of the field.
pub read_uint_lem :
    (buf : List ℕ) (offset width : ℕ)
    → offset + width < 2 ^ 64
    → read_uint buf offset width ≡ (
        if width == 0 || ltb 64 width
        then fail bitfield_width_invalid
        else if ltb (bit_length buf) (offset + width)
        then fail bitfield_out_of_range
        else ok (of_bits 0 (bits_at buf offset width)))
unfolding read_uint check_bounds
read_uint_lem buf offset width h =
    let value : width ≤ 64 → read_loop buf offset width 0 ≡ of_bits 0 (bits_at buf offset width) =
      read_loop_value buf offset width in
    let whole : (offset + width) % 2 ^ 64 ≡ offset + width = omega arith in ground arith

-- The ends of a read of `width` bits from `offset` on, by the place of the field.
abbrev pub Reach : List ℕ → ℕ → ℕ → Type 0
Reach buf offset width =
    (((width ≡ 0) ⊎ (64 < width)) × (read_uint buf offset width ≡ fail bitfield_width_invalid))
    ⊎ (((1 ≤ width) × (width ≤ 64))
        × (((offset + width ≤ length buf * 8)
              × (read_uint buf offset width ≡ ok (of_bits 0 (bits_at buf offset width))))
            ⊎ ((length buf * 8 < offset + width)
                × (offset + width < 2 ^ 64)
                × (read_uint buf offset width ≡ fail bitfield_out_of_range))
            ⊎ ((length buf ≤ offset / 8)
                × (2 ^ 64 ≤ offset + width)
                × (((offset + width ≤ length buf * 8 + 2 ^ 64)
                      × (read_uint buf offset width ≡ ok (read_loop buf offset width 0)))
                    ⊎ ((length buf * 8 + 2 ^ 64 < offset + width)
                        × (read_uint buf offset width ≡ fail bitfield_out_of_range))))))
