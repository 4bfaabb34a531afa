-- ===== src/Payload/Decoded.antt =====
-- What `decode_payload` returns: the bits of the characters, one after the other, less the fill bits.
use native.Mathlib.Nat.{sub-zero}
use pgais.Base.{
  ℕ, zero, suc, ◌+◌, ◌-◌, ◌*◌, ◌/◌, ◌%◌, ◌^◌, ◌≤◌, ◌<◌, ◌≡◌, refl, sym, ap, ◌∙◌, arith, List, [],
  ◌∷◌, ◌++◌, append-nil, append_assoc, length, length-append, take, replicate, length-replicate,
  take-nil, take-append_short, take-append_long, take_all, length-take, ltb→lt, le→ltb, Bool-cases,
  inl, inr, leb→le, length-set, get_or, Bool, true, All, ltb, leb, bit_or,
}
use pgais.Error.{Result, ok}
use pgais.Bits.{and-one}
use pgais.Bitfield.Digits.{to_bits, length-to_bits}
use pgais.Bitfield.Storage.{Holds, Stores, replicate-Holds, or_at, or_at-Holds}
use pgais.Payload.{
  is_valid_payload_char, armour_decode, unpack_char, unpack_bits, validate, unpack, decode_payload,
  is_empty,
}

-- The bits that armour characters carry.
unfoldable pub carried : List ℕ → List ℕ
carried [] = []
carried (c ∷ payload) = to_bits 6 (armour_decode c) ++ carried payload

pub length-carried : (payload : List ℕ) → length (carried payload) ≡ length payload * 6
unfolding carried
length-carried [] = omega arith
length-carried (c ∷ payload) =
    let six = armour_decode c in
    omega (
      arith,
      length-append (to_bits 6 six) (carried payload),
      length-to_bits 6 six,
      length-carried payload,
    )

abbrev pub IsArmour : ℕ → Type 0
IsArmour c = is_valid_payload_char c ≡ true

-- The output after some rounds: it holds `bits`, and has room for `significant` bits.
record Unpacked (out bits : List ℕ) (significant : ℕ) : Type 0 where
  held : Holds out bits
  size : length out ≡ (significant + 7) / 8

-- The inner loop appends the bits of its character that are below `significant`, and returns from the
-- function if there are none left.
abbrev CharUnpacked : Bool × List ℕ → ℕ → List ℕ → List ℕ → ℕ → Type 0
CharUnpacked r n bits six significant =
    Unpacked r.1 (bits ++ take (significant - length bits) six) significant
    × (r.0 ≡ ltb significant (length bits + n))

one_more :
    {out bits : List ℕ} {significant : ℕ} (x : ℕ)
    → x < 2
    → length bits < significant
    → Unpacked out bits significant
    → Unpacked (or_at out (length bits) x) (bits ++ x ∷ []) significant
one_more {out} {bits} {significant} x h room u = record {
  held = or_at-Holds x h u.held (omega (arith, u.size));
  size =
      length-set out (length bits / 8)
        (bit_or (get_or out (length bits / 8) 0) (x * 2 ^ (7 - length bits % 8) % 2 ^ 8))
      ∙ u.size;
}

unpack_char_lem :
    (n sixbit significant : ℕ) (out bits : List ℕ)
    → length bits ≤ significant
    → Unpacked out bits significant
    → CharUnpacked
        (unpack_char sixbit (length bits) n significant out)
        n
        bits
        (to_bits n sixbit)
        significant
unfolding unpack_char to_bits
unpack_char_lem zero sixbit significant out bits h u =
    (rw (take-nil, append-nil bits) u, ground arith)
unpack_char_lem (suc n) sixbit significant out bits h u =
    elim (Bool-cases (leb significant (length bits))) [
      | inl e ↦
          let none_left : significant - length bits ≡ 0 = omega (arith, leb→le _ _ e) in
          rw (e, none_left, append-nil bits) (u, ground arith)
      | inr e ↦
          let x = sixbit / 2 ^ n % 2 in
          let below : length bits < significant = ground arith in
          let step : significant - length bits ≡ suc (significant - (length bits + 1)) =
            omega arith in
          let ih =
            unpack_char_lem n sixbit significant (or_at out (length bits) x) (bits ++ x ∷ [])
              (omega (arith, length-append bits (x ∷ []))) (one_more x (omega arith) below u) in
          let moved = rw (length-append bits (x ∷ []), append_assoc bits) at ih in
          rw (e, step, and-one (sixbit / 2 ^ n)) (moved.0, ground (arith, moved.1))
    ]

-- The outer loop appends the bits that the characters carry, up to `significant`.
unpack_bits_lem :
    (payload : List ℕ) (significant : ℕ) (out bits : List ℕ)
    → length bits ≤ significant
    → Unpacked out bits significant
    → Unpacked
        (unpack_bits payload (length bits) significant out)
        (bits ++ take (significant - length bits) (carried payload))
        significant
unfolding unpack_bits carried
unpack_bits_lem [] significant out bits h u = rw (take-nil, append-nil bits) u
unpack_bits_lem (c ∷ payload) significant out bits h u =
    let six = to_bits 6 (armour_decode c) in
    let r = unpack_char (armour_decode c) (length bits) 6 significant out in
    let six_long : length six ≡ 6 = length-to_bits 6 (armour_decode c) in
    let one_char : CharUnpacked r 6 bits six significant =
      unpack_char_lem 6 (armour_decode c) significant out bits h u in
    elim (Bool-cases (ltb significant (length bits + 6))) [
      | inl e ↦
          rw
            (
              one_char.1 ∙ e,
              take-append_short (significant - length bits) six (carried payload)
                  (omega (arith, six_long, ltb→lt _ _ e)),
            )
            one_char.0
      | inr e ↦
          let enough : length bits + 6 ≤ significant = ground arith in
          let joined = length-append bits six in
          let whole : take (significant - length bits) six ≡ six =
            take_all _ six (omega (arith, six_long)) in
          let ih =
            unpack_bits_lem payload significant r.1 (bits ++ six) (omega (arith, joined, six_long))
              (rw whole at one_char.0) in
          let places : length (bits ++ six) ≡ length bits + 6 = omega (arith, joined, six_long) in
          let left : significant - length bits - length six ≡ significant - (length bits + 6) =
            omega (arith, six_long) in
          rw
            (
              one_char.1 ∙ e,
              take-append_long (significant - length bits) six (carried payload)
                  (omega (arith, six_long)),
              left,
            )
            (rw (places, append_assoc bits) at ih)
    ]

unpack_from_zeros :
    (payload : List ℕ) (significant : ℕ)
    → Unpacked
        (unpack_bits payload 0 significant (replicate ((significant + 7) / 8) 0))
        (take significant (carried payload))
        significant
unpack_from_zeros payload significant = rw (sub-zero significant) at (
    unpack_bits_lem payload significant (replicate ((significant + 7) / 8) 0) [] (omega arith)
      (record { held = replicate-Holds _; size = length-replicate _ 0 }))

validate_lem {ℓ} :
    {A : Type ℓ} (payload : List ℕ) (next : Result A)
    → All IsArmour payload
    → validate payload next ≡ next
unfolding validate
validate_lem [] next h = refl
validate_lem (c ∷ payload) next h = rw (h.0) (validate_lem payload next h.1)

-- On armour characters and a fill count within 5, the buffer holds the bits that the characters carry
-- but the last `fill_bits`, and has no byte too many.
pub decode_payload_lem :
    (c : ℕ) (payload : List ℕ) (fill_bits : ℕ)
    → All IsArmour (c ∷ payload)
    → fill_bits ≤ 5
    → length (c ∷ payload) < 2 ^ 60
    → (out : List ℕ) × (decode_payload (c ∷ payload) fill_bits ≡ ok out)
      × Stores out (take (length (c ∷ payload) * 6 - fill_bits) (carried (c ∷ payload)))
unfolding decode_payload is_empty
decode_payload_lem c payload fill_bits h k small = (
  unpack_bits (c ∷ payload) 0 significant (replicate ((significant + 7) / 8) 0),
  rw (
    le→ltb 5 fill_bits k,
    validate_lem (c ∷ payload) (unpack (c ∷ payload) fill_bits) h,
    whole,
    le→ltb total fill_bits (omega arith),
  ),
  record { size = unpacked.size ∙ ap (λ (t : ℕ). (t + 7) / 8) (sym counted); held = unpacked.held },
)
  where
    total : ℕ
    total = length (c ∷ payload) * 6

    significant : ℕ
    significant = total - fill_bits

    whole : total % 2 ^ 64 ≡ total
    whole = omega arith

    counted : length (take significant (carried (c ∷ payload))) ≡ significant
    counted =
        length-take significant (carried (c ∷ payload))
          (omega (arith, length-carried (c ∷ payload)))

    unpacked :
        Unpacked
          (unpack_bits (c ∷ payload) 0 significant (replicate ((significant + 7) / 8) 0))
          (take significant (carried (c ∷ payload)))
          significant
    unpacked = unpack_from_zeros (c ∷ payload) significant
