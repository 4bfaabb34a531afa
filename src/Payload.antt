-- ===== src/Payload.antt =====
-- src/core/payload.cpp: the NMEA 6-bit armour. A text is a list of character codes, a buffer a list of
-- bytes, and `size_t` has 64 bits.
pub mod Armour
pub mod Decoded
pub mod Encoded
pub mod RoundTrip
pub mod Outcomes
use pgais.Base.{
  ℕ, zero, suc, ◌+◌, ◌-◌, ◌*◌, ◌/◌, ◌%◌, ◌^◌, List, [], ◌∷◌, Bool, true, false, ◌&&◌, ◌||◌, ltb,
  leb, ◌==◌, if◌then◌else◌, bit_and, bit_or, length, get_or, set, replicate, codes, not,
}
use pgais.Error.{
  Result, ok, fail, fail_with, to_string, payload_empty, payload_fill_bits_invalid,
  payload_char_invalid, payload_too_short,
}

unfoldable pub is_valid_payload_char : ℕ → Bool
is_valid_payload_char u = leb 48 u && leb u 87 || leb 96 u && leb u 119

-- `int val = ch - 48`, an `int` by its 32-bit pattern, then the rest.
unfoldable pub armour_decode : ℕ → ℕ
armour_decode ch =
    let val = (ch + 2 ^ 32 - 48) % 2 ^ 32 in
    let val' = if ltb 40 val && ltb val (2 ^ 31) then val - 8 else val in bit_and val' 0x3f

unfoldable pub armour_encode : ℕ → ℕ
armour_encode val =
    let result = bit_and val 0x3f + 48 in if leb 88 result then result + 8 else result

-- The inner loop of `unpack_bits` with `n` bits of the character to go, the next for bit `bit_idx` of
-- the output: whether the function returns here, and the output.
unfoldable pub unpack_char : ℕ → ℕ → ℕ → ℕ → List ℕ → Bool × List ℕ
unpack_char sixbit bit_idx zero significant out = (false, out)
unpack_char sixbit bit_idx (suc n) significant out =
    let rest = unpack_char sixbit (bit_idx + 1) n significant (
      set out (bit_idx / 8) (
        bit_or (get_or out (bit_idx / 8) 0)
          (bit_and (sixbit / 2 ^ n) 1 * 2 ^ (7 - bit_idx % 8) % 2 ^ 8))) in
    if leb significant bit_idx then (true, out) else rest

-- The outer loop, from the character whose first bit is `bit_idx`.
unfoldable pub unpack_bits : List ℕ → ℕ → ℕ → List ℕ → List ℕ
unpack_bits [] bit_idx significant out = out
unpack_bits (c ∷ payload) bit_idx significant out =
    let (returned, out') = unpack_char (armour_decode c) bit_idx 6 significant out in
    let rest = unpack_bits payload (bit_idx + 6) significant out' in if returned then out' else rest

-- The validation loop, and then `next`.
unfoldable pub validate {ℓ} : {A : Type ℓ} → List ℕ → Result A → Result A
validate [] next = next
validate (c ∷ payload) next =
    if not (is_valid_payload_char c)
    then fail_with payload_char_invalid (c ∷ [])
    else validate payload next

unfoldable pub unpack : List ℕ → ℕ → Result (List ℕ)
unpack payload fill_bits =
    let total_bits = length payload * 6 % 2 ^ 64 in
    if ltb total_bits fill_bits
    then fail payload_fill_bits_invalid
    else ok (
        unpack_bits payload 0 (total_bits - fill_bits)
          (replicate ((total_bits - fill_bits + 7) / 8) 0))

unfoldable pub is_empty : List ℕ → Bool
is_empty [] = true
is_empty (c ∷ cs) = false

unfoldable pub decode_payload : List ℕ → ℕ → Result (List ℕ)
unfolding unpack
decode_payload payload fill_bits =
    if is_empty payload
    then fail payload_empty
    else if ltb 5 fill_bits
    then fail_with payload_fill_bits_invalid (to_string fill_bits)
    else validate payload (unpack payload fill_bits)

-- `(data[byte_idx] >> bit_pos) & 1`, or 0 behind the last bit.
unfoldable pub payload_bit : List ℕ → ℕ → ℕ → ℕ
payload_bit bytes bit_length bit_idx =
    if ltb bit_idx bit_length
    then bit_and (get_or bytes (bit_idx / 8) 0 / 2 ^ (7 - bit_idx % 8)) 1
    else 0

-- The inner loop of `encode_payload`, with `n` bits of the character to go.
unfoldable pub pack_char : List ℕ → ℕ → ℕ → ℕ → ℕ → ℕ
pack_char bytes bit_length bit_idx zero sixbit = sixbit
pack_char bytes bit_length bit_idx (suc n) sixbit =
    pack_char bytes bit_length (bit_idx + 1) n
      (bit_or (sixbit * 2) (payload_bit bytes bit_length bit_idx) % 2 ^ 8)

-- The outer loop, with `char_count` characters to go from bit `bit_idx` on.
unfoldable pub pack_chars : List ℕ → ℕ → ℕ → ℕ → List ℕ
pack_chars bytes bit_length bit_idx zero = []
pack_chars bytes bit_length bit_idx (suc char_count) =
    armour_encode (pack_char bytes bit_length bit_idx 6 0)
    ∷ pack_chars bytes bit_length (bit_idx + 6) char_count

unfoldable pub fill_count : ℕ → ℕ
fill_count bit_length = (6 - bit_length % 6) % 6

unfoldable pub encode_payload : List ℕ → ℕ → Result (List ℕ × ℕ)
encode_payload bytes bit_length =
    if bit_length == 0
    then fail payload_empty
    else if ltb (length bytes) ((bit_length + 7) % 2 ^ 64 / 8)
    then fail_with payload_too_short (codes "data buffer smaller than bit_length requires")
    else ok (
      pack_chars bytes bit_length 0 ((bit_length + fill_count bit_length) % 2 ^ 64 / 6),
      fill_count bit_length,
    )

-- include/aislib/payload.h
unfoldable pub payload_bit_length : ℕ → ℕ → ℕ
payload_bit_length payload_len fill_bits = (payload_len * 6 % 2 ^ 64 + 2 ^ 64 - fill_bits) % 2 ^ 64
