-- ===== src/Payload/RoundTrip.antt =====
-- `decode_payload` undoes `encode_payload`.
use pgais.Base.{
  ℕ, ◌+◌, ◌-◌, ◌*◌, ◌^◌, ◌≤◌, ◌<◌, ◌≡◌, arith, List, [], ◌∷◌, ◌++◌, length, replicate, take-append,
  All,
}
use pgais.Error.{ok}
use pgais.Bitfield.Storage.{Stores}
use pgais.Payload.{encode_payload, decode_payload, fill_count}
use pgais.Payload.Decoded.{IsArmour, carried, decode_payload_lem}
use pgais.Payload.Encoded.{encode_payload_lem, fill_count_lem}

decode_carried :
    (text bits : List ℕ) (fill : ℕ)
    → All IsArmour text
    → carried text ≡ bits ++ replicate fill 0
    → length text * 6 ≡ length bits + fill
    → fill ≤ 5
    → 1 ≤ length bits
    → length bits < 2 ^ 60
    → (out : List ℕ) × (decode_payload text fill ≡ ok out) × Stores out bits
decode_carried [] bits fill h c n k some small = absurd (omega arith)
decode_carried (x ∷ text) bits fill h c n k some small =
    let (out, e, s) = decode_payload_lem x text fill h k (omega arith) in
    let left : length (x ∷ text) * 6 - fill ≡ length bits = omega arith in
    (out, e, rw (left, c, take-append bits (replicate fill 0)) at s)

-- A buffer that stores at least one and fewer than 2^60 bits is encoded to a text from which `decode_payload`, given the fill count
-- that `encode_payload` returned, makes a buffer that stores the same bits.
pub decode_payload-encode_payload :
    (bytes bits : List ℕ)
    → Stores bytes bits
    → 1 ≤ length bits
    → length bits < 2 ^ 60
    → (text : List ℕ) × (fill : ℕ) × (out : List ℕ) × (encode_payload bytes (length bits)
        ≡ ok (text, fill))
      × (decode_payload text fill ≡ ok out)
      × Stores out bits
decode_payload-encode_payload bytes bits s some small =
    let (text, e, h, c, n) = encode_payload_lem s some small in
    let (k, _) = fill_count_lem (length bits) in
    let (out, d, t) = decode_carried text bits (fill_count (length bits)) h c n k some small in
    (text, fill_count (length bits), out, e, d, t)
