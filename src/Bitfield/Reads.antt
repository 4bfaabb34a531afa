-- ===== src/Bitfield/Reads.antt =====
-- What the reads of `BitReader` answer on a buffer that stores some bits, by the bits alone.
use native.Mathlib.Nat.{add-zero, pow-le-pow_right}
use pgais.Base.{
  ℕ, ◌/◌, length-replicate, replicate, length, zero, suc, ◌+◌, ◌*◌, ◌%◌, ◌^◌, ◌≤◌, ◌<◌, ◌≡◌, refl,
  sym, ap, ap₂, ◌∙◌, arith, List, [], ◌∷◌, ◌||◌, not, ltb, ◌==◌, if◌then◌else◌, length, get_or,
  Bool-cases, inl, inr,
}
use pgais.Base.Int.{to_signed}
use pgais.Error.{ok, fail, bitfield_out_of_range}
use pgais.Bitfield.SixBit.{ais6bit_to_ascii}
use pgais.Bitfield.Reader.{
  bit_length, check_bounds, read_loop, read_uint, read_int, read_bool, read_text, read_bits,
  copy_bits, read_chars, sign_extend, strip,
}
use pgais.Bitfield.Digits.{of_bits, bits_at, read_loop-of_bits}
use pgais.Bitfield.Storage.{Stores, replicate-Holds}
use pgais.Bitfield.Sign.{sign_extend_lem, to_unsigned-to_signed, to_signed-Fits}
use pgais.Bitfield.Bounds.{read_uint_lem}
use pgais.Bitfield.Total.{read_loop-lt, length-bits_at}
use pgais.Bitfield.Packed.{slice, packed, bits_at-slice, Stores-packed}
use pgais.Bitfield.RawBits.{copy_bits-Holds}
use pgais.Bitfield.Session.{letters, room, read_if}

-- A number of `width` bits, taken with its sign.
extend_signed :
    (width r : ℕ)
    → 1 ≤ width
    → width ≤ 64
    → r < 2 ^ width
    → to_signed 64 (sign_extend width r) ≡ to_signed width r
extend_signed width r one narrow small =
    rw (to_unsigned-to_signed width r one narrow small) at (
      sign_extend_lem width (to_signed width r) one narrow
        (to_signed-Fits width r one narrow small))

module _ {buf bits : List ℕ} (s : Stores buf bits) (small : length bits < 2 ^ 60) where
  bit_length-room : bit_length buf ≡ room bits
  unfolding bit_length
  bit_length-room = omega (arith, s.size)

  loop-slice : (offset n : ℕ) → n ≤ 64 → read_loop buf offset n 0 ≡ of_bits 0 (slice bits offset n)
  loop-slice offset n narrow =
      read_loop-of_bits buf offset n 0
        (omega (arith, pow-le-pow_right {n = 2} (omega arith) {i = n} {j = 64} narrow))
      ∙ ap (of_bits 0) (bits_at-slice s offset n)

  pub read_uint-slice :
      (offset width : ℕ)
      → offset + width < 2 ^ 64
      → read_uint buf offset width ≡ read_if bits offset width (of_bits 0 (slice bits offset width))
  read_uint-slice offset width h =
      rw (sym bit_length-room, sym (bits_at-slice s offset width))
        (read_uint_lem buf offset width h)

  pub read_int-slice :
      (offset width : ℕ)
      → offset + width < 2 ^ 64
      → read_int buf offset width
        ≡ read_if bits offset width (to_signed width (of_bits 0 (slice bits offset width)))
  unfolding read_int check_bounds
  read_int-slice offset width h = elim (Bool-cases (width == 0 || ltb 64 width)) [
    | inl bad ↦ rw bad refl
    | inr good ↦
        let one : 1 ≤ width = ground arith in
        let narrow : width ≤ 64 = ground arith in
        let r = read_loop buf offset width 0 in
        let extended = extend_signed width r one narrow (read_loop-lt buf offset width narrow) in
        let value = loop-slice offset width narrow in
        let whole : (offset + width) % 2 ^ 64 ≡ offset + width = omega arith in
        let same = bit_length-room in
        elim (Bool-cases (ltb (room bits) (offset + width))) [
          | inl past ↦ rw (good, whole, same, past) refl
          | inr within ↦ rw (good, whole, same, within, extended, value) refl
        ]
  ]

  pub read_bool-slice :
      (offset : ℕ)
      → offset + 1 < 2 ^ 64
      → read_bool buf offset ≡ read_if bits offset 1 (not (get_or bits offset 0 == 0))
  unfolding read_bool check_bounds
  read_bool-slice offset h =
      let whole : (offset + 1) % 2 ^ 64 ≡ offset + 1 = omega arith in
      let same = bit_length-room in let bit = s.reads offset in ground arith

  letters-slice : (offset n : ℕ) → read_chars buf offset n ≡ letters bits offset n
  unfolding read_chars
  letters-slice offset zero = refl
  letters-slice offset (suc n) =
      ap₂ ◌∷◌
        (ap ais6bit_to_ascii (
          omega
            (arith, loop-slice offset 6 (omega arith), read_loop-lt buf offset 6 (omega arith))))
        (letters-slice (offset + 6) n)

  pub read_text-slice :
      (offset n : ℕ)
      → offset + n * 6 < 2 ^ 64
      → read_text buf offset n ≡ (
          if n == 0
          then ok []
          else if ltb (room bits) (offset + n * 6)
          then fail bitfield_out_of_range
          else ok (strip (letters bits offset n)))
  unfolding read_text
  read_text-slice offset n h =
      let whole : (offset + n * 6 % 2 ^ 64) % 2 ^ 64 ≡ offset + n * 6 = omega arith in
      rw (whole, bit_length-room, letters-slice offset n) refl

  -- The run of bits is copied to a buffer of its own.
  copy-packed :
      (offset n : ℕ)
      → copy_bits buf offset 0 n (replicate ((n + 7) / 8) 0) ≡ packed (slice bits offset n)
  copy-packed offset n =
      let (held, size) =
        copy_bits-Holds buf offset 0 n [] (replicate ((n + 7) / 8) 0) refl (replicate-Holds _)
          (omega (arith, length-replicate {A = ℕ} ((n + 7) / 8) 0)) in
      let same : bits_at buf (offset + 0) n ≡ slice bits offset n =
        rw add-zero (bits_at-slice s offset n) in
      let long : length (slice bits offset n) ≡ n =
        ap length (sym (bits_at-slice s offset n)) ∙ length-bits_at buf offset n in
      let stored : Stores (copy_bits buf offset 0 n (replicate ((n + 7) / 8) 0))
          (slice bits offset n) =
        record { size = omega (arith, size, long); held = rw same at held } in
      Stores-packed stored

  pub read_bits-slice :
      (offset width : ℕ)
      → offset + width < 2 ^ 64
      → read_bits buf offset width ≡ (
          if width == 0
          then ok []
          else read_if bits offset width (packed (slice bits offset width)))
  unfolding read_bits check_bounds
  read_bits-slice offset width h =
      let whole : (offset + width) % 2 ^ 64 ≡ offset + width = omega arith in
      let same = bit_length-room in let copied = copy-packed offset width in ground arith
