-- ===== src/Registry/Outcomes.antt =====
-- Every way that `MessageRegistry::decode` can end.
use pgais.Base.{
  ℕ, ◌≤◌, ◌<◌, ◌≡◌, ◌∙◌, ◌⊎◌, inl, inr, refl, arith, List, [], ◌∷◌, ◌++◌, none, some, ◌||◌, ◌==◌,
  ltb, if◌then◌else◌, get_or, codes,
}
use pgais.Error.{
  Error, Result, ok, err, fail_with, to_string, payload_too_short, message_type_unknown,
  message_type_unsupported,
}
use pgais.Bitfield.Reader.{bit_length}
use pgais.Bitfield.Digits.{of_bits, bits_at, of_bits_bounds, read_bit-lt}
use pgais.Bitfield.Bounds.{read_uint_lem}
use pgais.Payload.{is_empty, decode_payload}
use pgais.Message.{message_type_name, message_type_from_id}
use pgais.Registry.{Registry, decode, dispatch, in_range, invoke}

Result-cases : {A : Type 0} (r : Result A) → ((a : A) × (r ≡ ok a)) ⊎ ((e : Error) × (r ≡ err e))
Result-cases (ok a) = inl (a, refl)
Result-cases (err e) = inr (e, refl)

≤-cases : (a b : ℕ) → (a ≤ b) ⊎ (b < a)
≤-cases a b = ground arith

-- The number that the first six bits of a buffer stand for.
abbrev pub type_bits : List ℕ → ℕ
type_bits buf = of_bits 0 (bits_at buf 0 6)

type_bits-lt : (buf : List ℕ) → type_bits buf < 64
unfolding bits_at
type_bits-lt buf =
    (of_bits_bounds 0 (bits_at buf 0 6) (
      read_bit-lt buf 0,
      (
        read_bit-lt buf 1,
        (read_bit-lt buf 2, (read_bit-lt buf 3, (read_bit-lt buf 4, (read_bit-lt buf 5, tt)))),
      ),
    )).1

decode-ok :
    (ds : Registry) (payload : List ℕ) (fill_bits : ℕ) (buf : List ℕ)
    → decode_payload payload fill_bits ≡ ok buf
    → 6 ≤ bit_length buf
    → decode ds payload fill_bits ≡ dispatch ds (type_bits buf) buf
unfolding decode is_empty bit_length
decode-ok ds payload fill_bits [] e h = absurd (omega arith)
decode-ok ds payload fill_bits (b ∷ bytes) e h =
    let type = read_uint_lem (b ∷ bytes) 0 6 (omega arith) in
    let small = type_bits-lt (b ∷ bytes) in ground arith

decode-short :
    (ds : Registry) (payload : List ℕ) (fill_bits : ℕ) (buf : List ℕ)
    → decode_payload payload fill_bits ≡ ok buf
    → bit_length buf < 6
    → decode ds payload fill_bits
      ≡ fail_with payload_too_short (codes "cannot read message type field")
unfolding decode is_empty bit_length
decode-short ds payload fill_bits [] e h = ground arith
decode-short ds payload fill_bits (b ∷ bytes) e h = ground arith

-- `decode` ends in one of these ways: with the error of `decode_payload`; with `PayloadTooShort`, when
-- the unpacked buffer has fewer than six bits; or by the number in the first six bits of the buffer,
-- with `MessageTypeUnknown` when that is not in 1 to 27, with `MessageTypeUnsupported` when the registry
-- has no decoder for it, and else with what the registered decoder returns.
pub decode-cases :
    (ds : Registry) (payload : List ℕ) (fill_bits : ℕ)
    → ((e : Error) × (decode_payload payload fill_bits ≡ err e)
        × (decode ds payload fill_bits ≡ err e))
      ⊎ ((buf : List ℕ) × (decode_payload payload fill_bits ≡ ok buf)
          × (((bit_length buf < 6)
                × (decode ds payload fill_bits
                    ≡ fail_with payload_too_short (codes "cannot read message type field")))
              ⊎ ((6 ≤ bit_length buf)
                  × (decode ds payload fill_bits ≡ (
                      if type_bits buf == 0 || ltb 27 (type_bits buf)
                      then fail_with message_type_unknown
                          (codes "type_id=" ++ to_string (type_bits buf))
                      else elim (get_or ds (type_bits buf) none) [
                        | none ↦
                            fail_with message_type_unsupported
                              (message_type_name (message_type_from_id (type_bits buf)))
                        | some decoder ↦ decoder buf
                      ])))))
unfolding dispatch in_range invoke decode
decode-cases ds payload fill_bits = elim (Result-cases (decode_payload payload fill_bits)) [
  | inr (e, p) ↦ inl (e, p, rw (decode, p) refl)
  | inl (buf, p) ↦ inr (
    buf,
    p,
    elim (≤-cases 6 (bit_length buf)) [
      | inl k ↦ inr (k, decode-ok ds payload fill_bits buf p k ∙ ground arith)
      | inr k ↦ inl (k, decode-short ds payload fill_bits buf p k)
    ],
  )
]
