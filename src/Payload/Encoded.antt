-- ===== src/Payload/Encoded.antt =====
-- What `encode_payload` returns: characters that carry the bits of the buffer, and then zeros up to a
-- whole character.
use native.Mathlib.Nat.{mod-eq_of_lt, pow-suc, zero-add, add-zero}
use Prim.Native.Nat.add
use pgais.Base.{
  ℕ, zero, suc, ◌+◌, ◌-◌, ◌*◌, ◌/◌, ◌%◌, ◌^◌, ◌≤◌, ◌<◌, ◌≡◌, refl, sym, ap, ap₂, ◌∙◌, arith, List,
  [], ◌∷◌, ◌++◌, append_assoc, length, length-append, replicate, get_or, All, le→ltb, lt→ltb,
  get_or_at,
}
use pgais.Error.{ok}
use pgais.Bits.{and-one, or_bit, two_pow_pos}
use pgais.Bitfield.Reader.{read_bit}
use pgais.Bitfield.Digits.{IsBit, to_bits, of_bits, to_bits-of_bits, of_bits_bounds, fits_next}
use pgais.Bitfield.Storage.{Stores}
use pgais.Payload.{
  armour_encode, payload_bit, pack_char, pack_chars, fill_count, encode_payload, armour_decode,
}
use pgais.Payload.Armour.{armour_encode_lem}
use pgais.Payload.Decoded.{carried, IsArmour}

-- The `n` bits that the loops take from bit `idx` on.
taken : List ℕ → ℕ → ℕ → ℕ → List ℕ
taken bytes bl idx zero = []
taken bytes bl idx (suc n) = payload_bit bytes bl idx ∷ taken bytes bl (idx + 1) n

length-taken : (bytes : List ℕ) (bl idx n : ℕ) → length (taken bytes bl idx n) ≡ n
unfolding taken
length-taken bytes bl idx zero = refl
length-taken bytes bl idx (suc n) = ap suc (length-taken bytes bl (idx + 1) n)

payload_bit-lt : (bytes : List ℕ) (bl idx : ℕ) → payload_bit bytes bl idx < 2
unfolding payload_bit
payload_bit-lt bytes bl idx = ground (arith, and-one (get_or bytes (idx / 8) 0 / 2 ^ (7 - idx % 8)))

taken-IsBit : (bytes : List ℕ) (bl idx n : ℕ) → All IsBit (taken bytes bl idx n)
unfolding taken
taken-IsBit bytes bl idx zero = tt
taken-IsBit bytes bl idx (suc n) = (payload_bit-lt bytes bl idx, taken-IsBit bytes bl (idx + 1) n)

-- The inner loop reads its bits as a number; a byte is wide enough for six of them.
pack_char-of_bits :
    (bytes : List ℕ) (bl idx n sixbit : ℕ)
    → (sixbit + 1) * 2 ^ n ≤ 64
    → pack_char bytes bl idx n sixbit ≡ of_bits sixbit (taken bytes bl idx n)
unfolding pack_char of_bits taken
pack_char-of_bits bytes bl idx zero sixbit h = refl
pack_char-of_bits bytes bl idx (suc n) sixbit h =
    rw (or_bit sixbit b (payload_bit-lt bytes bl idx), byte)
      (pack_char-of_bits bytes bl (idx + 1) n (sixbit * 2 + b) next)
  where
    b : ℕ
    b = payload_bit bytes bl idx

    next : (sixbit * 2 + b + 1) * 2 ^ n ≤ 64
    next =
        fits_next sixbit b (2 ^ n) 64 (payload_bit-lt bytes bl idx)
          (omega (arith, ap (λ (t : ℕ). (sixbit + 1) * t) (pow-suc 2 n)))

    byte : (sixbit * 2 + b) % 2 ^ 8 ≡ sixbit * 2 + b
    byte = mod-eq_of_lt (grind (arith, next, two_pow_pos n))

-- One character carries the six bits that it was packed from.
pack_char-carried :
    (bytes : List ℕ) (bl idx : ℕ)
    → IsArmour (armour_encode (pack_char bytes bl idx 6 0))
      × (to_bits 6 (armour_decode (armour_encode (pack_char bytes bl idx 6 0)))
          ≡ taken bytes bl idx 6)
pack_char-carried bytes bl idx =
    let bits = taken bytes bl idx 6 in
    let value = pack_char-of_bits bytes bl idx 6 0 (omega arith) in
    let (lo, hi) = of_bits_bounds 0 bits (taken-IsBit bytes bl idx 6) in
    let small : of_bits 0 bits < 64 = rw (length-taken bytes bl idx 6) at hi in
    let (valid, back) = armour_encode_lem (of_bits 0 bits) small in
    rw value (
      valid,
      rw back (
          rw (length-taken bytes bl idx 6) at
            (to_bits-of_bits 0 bits (taken-IsBit bytes bl idx 6))),
    )

taken-append :
    (bytes : List ℕ) (bl idx n m : ℕ)
    → taken bytes bl idx (n + m) ≡ taken bytes bl idx n ++ taken bytes bl (idx + n) m
unfolding taken
taken-append bytes bl idx zero m = rw (zero-add m, add-zero idx)
taken-append bytes bl idx (suc n) m =
    let moved : idx + suc n ≡ idx + 1 + n = omega arith in
    rw (add.suc n m, moved)
      (ap (◌∷◌ (payload_bit bytes bl idx)) (taken-append bytes bl (idx + 1) n m))

pack_chars-carried :
    (bytes : List ℕ) (bl idx n : ℕ)
    → All IsArmour (pack_chars bytes bl idx n)
      × (carried (pack_chars bytes bl idx n) ≡ taken bytes bl idx (6 * n))
      × (length (pack_chars bytes bl idx n) ≡ n)
unfolding pack_chars carried taken
pack_chars-carried bytes bl idx zero = (tt, refl, refl)
pack_chars-carried bytes bl idx (suc n) =
    let (valid, six) = pack_char-carried bytes bl idx in
    let (all, rest, count) = pack_chars-carried bytes bl (idx + 6) n in
    let split : 6 * suc n ≡ 6 + 6 * n = omega arith in
    (
      (valid, all),
      rw (split, taken-append bytes bl idx 6 (6 * n)) (ap₂ ◌++◌ six rest),
      ap suc count,
    )

-- The fill bits round the length up to a multiple of six.
pub fill_count_lem : (bl : ℕ) → (fill_count bl ≤ 5) × ((bl + fill_count bl) % 6 ≡ 0)
unfolding fill_count
fill_count_lem bl = omega arith

module _ {bytes bits : List ℕ} (s : Stores bytes bits) where
  payload_bit-Stores :
      (i : ℕ) → i < length bits → payload_bit bytes (length bits) i ≡ get_or bits i 0
  unfolding payload_bit read_bit
  payload_bit-Stores i h = rw (lt→ltb i (length bits) h) (s.reads i)

  payload_bit_past : (i : ℕ) → length bits ≤ i → payload_bit bytes (length bits) i ≡ 0
  unfolding payload_bit
  payload_bit_past i h = rw (le→ltb i (length bits) h)

  taken_past : (i k : ℕ) → length bits ≤ i → taken bytes (length bits) i k ≡ replicate k 0
  unfolding taken
  taken_past i zero h = refl
  taken_past i (suc k) h = ap₂ ◌∷◌ (payload_bit_past i h) (taken_past (i + 1) k (omega arith))

  taken-Stores :
      (front back : List ℕ) (k : ℕ)
      → bits ≡ front ++ back
      → taken bytes (length bits) (length front) (length back + k) ≡ back ++ replicate k 0
  unfolding taken
  taken-Stores front [] k e =
      rw (zero-add k)
        (taken_past (length front) k (omega (arith, ap length e, length-append front [])))
  taken-Stores front (b ∷ back) k e =
      let whole : length bits ≡ length front + suc (length back) =
        ap length e ∙ length-append front (b ∷ back) in
      let here : payload_bit bytes (length bits) (length front) ≡ b =
        payload_bit-Stores (length front) (omega arith)
        ∙ ap (λ (l : List ℕ). get_or l (length front) 0) e
        ∙ get_or_at front back b 0 in
      let ih = taken-Stores (front ++ b ∷ []) back k (e ∙ sym (append_assoc front (b ∷ []) back)) in
      rw (add.suc (length back) k) (ap₂ ◌∷◌ here (rw (length-append front (b ∷ [])) at ih))

  -- The characters carry the bits of the buffer and at most five zeros; no bit is lost.
  pub encode_payload_lem :
      1 ≤ length bits
      → length bits < 2 ^ 60
      → (text : List ℕ) × (encode_payload bytes (length bits) ≡ ok (text, fill_count (length bits)))
        × All IsArmour text
        × (carried text ≡ bits ++ replicate (fill_count (length bits)) 0)
        × (length text * 6 ≡ length bits + fill_count (length bits))
  unfolding encode_payload
  encode_payload_lem some small = (
    pack_chars bytes (length bits) 0 chars,
    ground (arith, s.size, whole),
    packed.0,
    packed.1 ∙ rw six (taken-Stores [] bits (fill_count (length bits)) refl),
    omega (arith, packed.2, six),
  )
    where
      chars : ℕ
      chars = (length bits + fill_count (length bits)) / 6

      whole :
          (length bits + fill_count (length bits)) % 2 ^ 64 ≡ length bits + fill_count (length bits)
      whole = omega (arith, fill_count_lem (length bits))

      six : 6 * chars ≡ length bits + fill_count (length bits)
      six = omega (arith, fill_count_lem (length bits))

      packed :
          All IsArmour (pack_chars bytes (length bits) 0 chars)
          × (carried (pack_chars bytes (length bits) 0 chars)
              ≡ taken bytes (length bits) 0 (6 * chars))
          × (length (pack_chars bytes (length bits) 0 chars) ≡ chars)
      packed = pack_chars-carried bytes (length bits) 0 chars
