-- ===== src/Bitfield/Packed.antt =====
-- The bytes that store some bits: there is one such buffer.
use pgais.Base.{
  ℕ, zero, suc, ◌+◌, ◌-◌, ◌*◌, ◌/◌, ◌%◌, ◌≤◌, ◌≡◌, refl, sym, ap, ap₂, ◌∙◌, arith, List, [], ◌∷◌,
  length, get_or, All, All-get_or, ◌++◌, append_assoc, length-append, get_or_at,
}
use pgais.Bits.{shift-digit}
use pgais.Bitfield.Digits.{to_bits, of_bits, bits_at, of_bits-to_bits, read_bit-digit}
use pgais.Bitfield.Storage.{IsByte, Stores}

-- `n` bits from number `i` on, with zeros behind the last.
abbrev pub slice : List ℕ → ℕ → ℕ → List ℕ
slice bits i zero = []
slice bits i (suc n) = get_or bits i 0 ∷ slice bits (i + 1) n

-- `n` bytes from number `i` on.
abbrev pub bytes_from : List ℕ → ℕ → ℕ → List ℕ
bytes_from bits i zero = []
bytes_from bits i (suc n) = of_bits 0 (slice bits (i * 8) 8) ∷ bytes_from bits (i + 1) n

abbrev pub packed : List ℕ → List ℕ
packed bits = bytes_from bits 0 ((length bits + 7) / 8)

-- The last `n` bits of byte `i`.
byte_bits :
    (buf : List ℕ) (i j n : ℕ)
    → j + n ≡ i * 8 + 8
    → n ≤ 8
    → bits_at buf j n ≡ to_bits n (get_or buf i 0)
unfolding bits_at to_bits
byte_bits buf i j zero e h = refl
byte_bits buf i j (suc n) e h =
    let byte : j / 8 ≡ i = omega arith in
    let place : 7 - j % 8 ≡ n = omega arith in
    ap₂ ◌∷◌ (rw (byte, place) at (read_bit-digit buf j) ∙ sym (shift-digit (get_or buf i 0) n))
      (byte_bits buf i (j + 1) n (omega arith) (omega arith))

-- A byte is the number of its bits.
of_bits-byte :
    (buf : List ℕ) (i : ℕ) → All IsByte buf → of_bits 0 (bits_at buf (i * 8) 8) ≡ get_or buf i 0
of_bits-byte buf i h =
    let byte = All-get_or IsByte buf i 0 h (omega arith) in
    ap (of_bits 0) (byte_bits buf i (i * 8) 8 refl (omega arith))
    ∙ of_bits-to_bits 8 0 (get_or buf i 0)
    ∙ omega arith

-- A buffer, entry by entry.
entries : List ℕ → ℕ → ℕ → List ℕ
entries buf i zero = []
entries buf i (suc n) = get_or buf i 0 ∷ entries buf (i + 1) n

entries-from : (front back : List ℕ) → entries (front ++ back) (length front) (length back) ≡ back
unfolding entries
entries-from front [] = refl
entries-from front (b ∷ back) =
    ap₂ ◌∷◌ (get_or_at front back b 0) (
      rw (append_assoc front, length-append front (b ∷ [])) at
        (entries-from (front ++ b ∷ []) back))

module _ {buf bits : List ℕ} (s : Stores buf bits) where
  pub bits_at-slice : (i n : ℕ) → bits_at buf i n ≡ slice bits i n
  unfolding bits_at
  bits_at-slice i zero = refl
  bits_at-slice i (suc n) = ap₂ ◌∷◌ (s.reads i) (bits_at-slice (i + 1) n)

  entries-bytes : (i n : ℕ) → entries buf i n ≡ bytes_from bits i n
  unfolding entries
  entries-bytes i zero = refl
  entries-bytes i (suc n) =
      ap₂ ◌∷◌ (sym (of_bits-byte buf i s.bytes) ∙ ap (of_bits 0) (bits_at-slice (i * 8) 8))
        (entries-bytes (i + 1) n)

  -- The buffer is the one with these bits.
  pub Stores-packed : buf ≡ packed bits
  Stores-packed = sym (entries-from [] buf) ∙ entries-bytes 0 (length buf) ∙ rw s.size refl
