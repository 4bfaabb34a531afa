-- ===== src/Bitfield/RawBits.antt =====
-- Runs of raw bits: `BitWriter::write_bits`, and `BitReader::read_bits` on what it wrote.
use native.Mathlib.Nat.{add-zero}
use pgais.Base.{
  ℕ, zero, suc, ◌+◌, ◌-◌, ◌*◌, ◌/◌, ◌^◌, ◌≤◌, ◌<◌, ◌≡◌, ◌⊎◌, inl, inr, refl, arith, List, [], ◌∷◌,
  ◌++◌, append-nil, append_assoc, false, length, length-append, length-set, get_or, bit_or, ◌%◌,
  length-replicate, replicate, ltb, ltb→lt, le→ltb, Bool-cases, ◌==◌,
}
use pgais.Error.{ok, fail, bitfield_width_invalid}
use pgais.Bitfield.Reader.{read_bit, check_bounds, copy_bits, read_bits}
use pgais.Bitfield.Digits.{bits_at, read_bit-lt}
use pgais.Bitfield.Writer.{BitWriter, push_bit, push_bits, write_bits}
use pgais.Bitfield.Storage.{
  Holds, Stores, Written, or_at, replicate-Holds, or_at-Holds, push_bit-Written,
}
use pgais.Bitfield.Numbers.{HasAt, bits_at_front, bits_at-HasAt, check_bounds-HasAt}

-- The loop of `write_bits` appends the bits of its source.
pub push_bits-Written :
    (src : List ℕ) (i n : ℕ) (w : BitWriter) (bits : List ℕ)
    → Written w bits
    → Written (push_bits src i n w) (bits ++ bits_at src i n)
unfolding push_bits bits_at read_bit
push_bits-Written src i zero w bits r = rw append-nil r
push_bits-Written src i (suc n) w bits r =
    let b = read_bit src i in
    let next = push_bit-Written b w bits (read_bit-lt src i) r in
    rw append_assoc at (push_bits-Written src (i + 1) n (push_bit b w) (bits ++ b ∷ []) next)

-- The loop of `read_bits`, once it copied `bits`, copies the next `n`.
pub copy_bits-Holds :
    (buf : List ℕ) (offset k n : ℕ) (bits out : List ℕ)
    → length bits ≡ k
    → Holds out bits
    → length out ≡ (k + n + 7) / 8
    → Holds (copy_bits buf offset k n out) (bits ++ bits_at buf (offset + k) n)
      × (length (copy_bits buf offset k n out) ≡ (k + n + 7) / 8)
unfolding copy_bits bits_at
copy_bits-Holds buf offset k zero bits out c h e = (rw append-nil h, e)
copy_bits-Holds buf offset k (suc n) bits out c h e =
    let b = read_bit buf (offset + k) in
    let after : Holds (or_at out k b) (bits ++ b ∷ []) =
      rw c at (or_at-Holds b (read_bit-lt buf (offset + k)) h (omega arith)) in
    let size : length (or_at out k b) ≡ (k + 1 + n + 7) / 8 = omega (
      arith,
      e,
      length-set out (k / 8) (bit_or (get_or out (k / 8) 0) (b * 2 ^ (7 - k % 8) % 2 ^ 8)),
    ) in
    let (held, count) =
      copy_bits-Holds buf offset (k + 1) n (bits ++ b ∷ []) (or_at out k b)
        (omega (arith, length-append bits (b ∷ []))) after size in
    let moved : offset + (k + 1) ≡ offset + k + 1 = omega arith in
    (rw (append_assoc bits, moved) at held, omega (arith, count))

bits_at-Stores : (buf bits : List ℕ) → Stores buf bits → bits_at buf 0 (length bits) ≡ bits
bits_at-Stores buf bits s = bits_at_front [] bits [] (rw append-nil s)

check_bounds-wide :
    (buf : List ℕ) (offset width : ℕ)
    → 64 < width
    → check_bounds buf offset width ≡ bitfield_width_invalid
unfolding check_bounds
check_bounds-wide buf offset width h = ground arith

-- `read_bits` where the buffer holds `field`.
read_bits-HasAt :
    (buf : List ℕ) (offset : ℕ) (field : List ℕ)
    → HasAt buf offset field
    → 1 ≤ length field
    → ((length field ≤ 64)
        × ((out : List ℕ) × (read_bits buf offset (length field) ≡ ok out) × Stores out field))
      ⊎ ((64 < length field) × (read_bits buf offset (length field) ≡ fail bitfield_width_invalid))
unfolding read_bits
read_bits-HasAt buf offset field h one =
    let n = length field in
    let some_bits : (n == 0) ≡ false = ground arith in
    elim (Bool-cases (ltb 64 n)) [
      | inl wide ↦
          let refused = check_bounds-wide buf offset n (ltb→lt 64 n wide) in
          inr (ltb→lt 64 n wide, rw (some_bits, refused) refl)
      | inr narrow ↦
          let fits : n ≤ 64 = ground arith in
          let (held, size) =
            copy_bits-Holds buf offset 0 n [] (replicate ((n + 7) / 8) 0) refl (replicate-Holds _)
              (omega (arith, length-replicate {A = ℕ} ((n + 7) / 8) 0)) in
          let same : bits_at buf (offset + 0) n ≡ field =
            rw add-zero (bits_at-HasAt offset field h) in
          let stored : Stores (copy_bits buf offset 0 n (replicate ((n + 7) / 8) 0)) field =
            record { size = omega (arith, size); held = rw same at held } in
          inl (
            fits,
            (
              copy_bits buf offset 0 n (replicate ((n + 7) / 8) 0),
              rw (some_bits, check_bounds-HasAt offset field h (one, fits)) refl,
              stored,
            ),
          )
    ]

-- When `write_bits` writes the bits that a buffer stores, at least one, and the writer then holds fewer
-- than 2^60 bits, they are appended as they are. `read_bits` on these bits gives a buffer that stores
-- them when they are at most 64, and else refuses with `BitfieldWidthInvalid`.
pub read_bits-write_bits :
    (src bits before : List ℕ) (w : BitWriter)
    → Stores src bits
    → Written w before
    → 1 ≤ length bits
    → length before + length bits < 2 ^ 60
    → (w' : BitWriter) × (write_bits src (length bits) w ≡ ok w')
      × Written w' (before ++ bits)
      × (((length bits ≤ 64)
            × ((out : List ℕ) × (read_bits w'.buf (length before) (length bits) ≡ ok out)
                × Stores out bits))
          ⊎ ((64 < length bits)
              × (read_bits w'.buf (length before) (length bits) ≡ fail bitfield_width_invalid)))
unfolding write_bits
read_bits-write_bits src bits before w s r one small =
    let n = length bits in
    let w' = push_bits src 0 n w in
    let written : Written w' (before ++ bits) =
      rw (bits_at-Stores src bits s) at (push_bits-Written src 0 n w before r) in
    let some_bits : (n == 0) ≡ false = ground arith in
    let enough : ltb (length src) ((n + 7) % 2 ^ 64 / 8) ≡ false =
      le→ltb _ _ (omega (arith, s.size)) in
    let held : HasAt w'.buf (length before) bits = record {
      before = before;
      after = [];
      stored = rw append-nil written.stored;
      starts = refl;
      small = rw append-nil (omega (arith, length-append before bits));
    } in
    (w', rw (some_bits, enough) refl, written, read_bits-HasAt w'.buf (length before) bits held one)
