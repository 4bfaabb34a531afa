-- ===== src/Payload/Outcomes.antt =====
-- Every way that `decode_payload` can end.
use pgais.Base.{
  ℕ, ◌-◌, ◌*◌, ◌^◌, ◌≤◌, ◌<◌, ◌≡◌, ◌⊎◌, inl, inr, refl, ap, arith, List, [], ◌∷◌, ◌++◌, false, All,
  length, take, ltb, ltb→lt, Bool-cases,
}
use pgais.Error.{
  Result, ok, fail, fail_with, to_string, payload_empty, payload_fill_bits_invalid,
  payload_char_invalid,
}
use pgais.Bitfield.Storage.{Stores}
use pgais.Payload.{
  is_valid_payload_char, is_empty, validate, unpack, decode_payload, payload_bit_length,
}
use pgais.Payload.Decoded.{IsArmour, carried, decode_payload_lem}

-- How `decode_payload` ends, each way under its condition.
pub data Unpacks (payload : List ℕ) (fill_bits : ℕ) : Result (List ℕ) → Type 0 where
  empty : payload ≡ [] → Unpacks payload fill_bits (fail payload_empty)
  bad_fill :
      5 < fill_bits
      → Unpacks payload fill_bits (fail_with payload_fill_bits_invalid (to_string fill_bits))
  bad_char :
      (front back : List ℕ) (c : ℕ)
      → fill_bits ≤ 5
      → payload ≡ front ++ c ∷ back
      → All IsArmour front
      → is_valid_payload_char c ≡ false
      → Unpacks payload fill_bits (fail_with payload_char_invalid (c ∷ []))
  unpacked :
      (out : List ℕ)
      → fill_bits ≤ 5
      → All IsArmour payload
      → Stores out (take (payload_bit_length (length payload) fill_bits) (carried payload))
      → Unpacks payload fill_bits (ok out)

validate-cases :
    (payload : List ℕ) (next : Result (List ℕ))
    → All IsArmour payload
      ⊎ ((front : List ℕ) × (c : ℕ) × (back : List ℕ) × (payload ≡ front ++ c ∷ back)
          × All IsArmour front
          × (is_valid_payload_char c ≡ false)
          × (validate payload next ≡ fail_with payload_char_invalid (c ∷ [])))
unfolding validate
validate-cases [] next = inl tt
validate-cases (c ∷ payload) next = elim (Bool-cases (is_valid_payload_char c)) [
  | inr e ↦ inr ([], c, payload, refl, tt, e, rw e refl)
  | inl e ↦ elim (validate-cases payload next) [
    | inl h ↦ inl (e, h)
    | inr (front, d, back, split, h, bad, v) ↦
        inr (c ∷ front, d, back, ap (◌∷◌ c) split, (e, h), bad, rw e v)
  ]
]

-- A payload of fewer than 2^60 characters ends in one of these ways: with `PayloadEmpty`; with
-- `PayloadFillBitsInvalid`, when the fill count is over 5; with `PayloadCharInvalid` and the first
-- character that is no armour character; or with a buffer that stores the first `payload_bit_length` of
-- the bits that the characters carry, and has no byte too many.
pub decode_payload-Unpacks :
    (payload : List ℕ) (fill_bits : ℕ)
    → length payload < 2 ^ 60
    → Unpacks payload fill_bits (decode_payload payload fill_bits)
unfolding decode_payload is_empty payload_bit_length
decode_payload-Unpacks [] fill_bits small = empty refl
decode_payload-Unpacks (c ∷ payload) fill_bits small = elim (Bool-cases (ltb 5 fill_bits)) [
  | inl high ↦ rw high (bad_fill (ltb→lt 5 fill_bits high))
  | inr low ↦
      let fill : fill_bits ≤ 5 = ground arith in
      elim (validate-cases (c ∷ payload) (unpack (c ∷ payload) fill_bits)) [
        | inr (front, d, back, split, h, bad, v) ↦
            rw (low, v) (bad_char front back d fill split h bad)
        | inl h ↦
            let (out, e, s) = decode_payload_lem c payload fill_bits h fill small in
            let bits : payload_bit_length (length (c ∷ payload)) fill_bits
                ≡ length (c ∷ payload) * 6 - fill_bits =
              omega arith in
            rw e (unpacked out fill h (rw bits s))
      ]
]
