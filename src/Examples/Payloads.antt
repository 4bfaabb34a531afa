-- ===== src/Examples/Payloads.antt =====
-- Runs of the bit field, the armour and the checksum.
use pgais.Base.{ℕ, ◌≤◌, ◌⊎◌, ◌<◌, ◌≡◌, arith, List, [], ◌∷◌, codes}
use pgais.Error.{ok, fail, bitfield_width_invalid}
use pgais.Bitfield.Reader.{read_bits}
use pgais.Bitfield.SixBit.{ais6bit_to_ascii, ascii_to_ais6bit}
use pgais.Bitfield.Text.{shown_char, ais6bit_to_ascii-ascii_to_ais6bit}
use pgais.Bitfield.RawBits.{read_bits-write_bits}
use pgais.Bitfield.Storage.{Written, Stores, push_bit-Written, new_writer-Written}
use pgais.Bitfield.Writer.{BitWriter, new_writer, push_bit, write_bits}
use pgais.Payload.{encode_payload, decode_payload}
use pgais.Payload.RoundTrip.{decode_payload-encode_payload}
use pgais.Payload.Outcomes.{Unpacks, decode_payload-Unpacks}

ais6bit_to_ascii-ascii_to_ais6bit_example :
    ais6bit_to_ascii (ascii_to_ais6bit b'Q') ≡ shown_char b'Q'
ais6bit_to_ascii-ascii_to_ais6bit_example = ais6bit_to_ascii-ascii_to_ais6bit b'Q'

abbrev two_letters : List ℕ
two_letters = 1 ∷ 0 ∷ 1 ∷ 0 ∷ 0 ∷ 1 ∷ 0 ∷ 1 ∷ 1 ∷ 1 ∷ 0 ∷ 0 ∷ []

two_letters-Stores : Stores (0xa5 ∷ 0xc0 ∷ []) two_letters
unfolding push_bit
two_letters-Stores =
    let r1 = push_bit-Written 1 new_writer ([]) (omega arith) new_writer-Written in
    let w1 = push_bit 1 new_writer in
    let r2 = push_bit-Written 0 w1 (1 ∷ []) (omega arith) r1 in
    let w2 = push_bit 0 w1 in
    let r3 = push_bit-Written 1 w2 (1 ∷ 0 ∷ []) (omega arith) r2 in
    let w3 = push_bit 1 w2 in
    let r4 = push_bit-Written 0 w3 (1 ∷ 0 ∷ 1 ∷ []) (omega arith) r3 in
    let w4 = push_bit 0 w3 in
    let r5 = push_bit-Written 0 w4 (1 ∷ 0 ∷ 1 ∷ 0 ∷ []) (omega arith) r4 in
    let w5 = push_bit 0 w4 in
    let r6 = push_bit-Written 1 w5 (1 ∷ 0 ∷ 1 ∷ 0 ∷ 0 ∷ []) (omega arith) r5 in
    let w6 = push_bit 1 w5 in
    let r7 = push_bit-Written 0 w6 (1 ∷ 0 ∷ 1 ∷ 0 ∷ 0 ∷ 1 ∷ []) (omega arith) r6 in
    let w7 = push_bit 0 w6 in
    let r8 = push_bit-Written 1 w7 (1 ∷ 0 ∷ 1 ∷ 0 ∷ 0 ∷ 1 ∷ 0 ∷ []) (omega arith) r7 in
    let w8 = push_bit 1 w7 in
    let r9 = push_bit-Written 1 w8 (1 ∷ 0 ∷ 1 ∷ 0 ∷ 0 ∷ 1 ∷ 0 ∷ 1 ∷ []) (omega arith) r8 in
    let w9 = push_bit 1 w8 in
    let r10 = push_bit-Written 1 w9 (1 ∷ 0 ∷ 1 ∷ 0 ∷ 0 ∷ 1 ∷ 0 ∷ 1 ∷ 1 ∷ []) (omega arith) r9 in
    let w10 = push_bit 1 w9 in
    let r11 =
      push_bit-Written 0 w10 (1 ∷ 0 ∷ 1 ∷ 0 ∷ 0 ∷ 1 ∷ 0 ∷ 1 ∷ 1 ∷ 1 ∷ []) (omega arith) r10 in
    let w11 = push_bit 0 w10 in
    let r12 =
      push_bit-Written 0 w11 (1 ∷ 0 ∷ 1 ∷ 0 ∷ 0 ∷ 1 ∷ 0 ∷ 1 ∷ 1 ∷ 1 ∷ 0 ∷ []) (omega arith) r11 in
    let w12 = push_bit 0 w11 in r12.stored

decode_payload-encode_payload_example :
    (text : List ℕ) × (fill : ℕ) × (out : List ℕ) × (encode_payload (0xa5 ∷ 0xc0 ∷ []) 12
      ≡ ok (text, fill))
    × (decode_payload text fill ≡ ok out)
    × Stores out two_letters
decode_payload-encode_payload_example =
    decode_payload-encode_payload (0xa5 ∷ 0xc0 ∷ []) two_letters two_letters-Stores (omega arith)
      (omega arith)

decode_payload-Unpacks_example : Unpacks (codes "1X5") 2 (decode_payload (codes "1X5") 2)
decode_payload-Unpacks_example = decode_payload-Unpacks (codes "1X5") 2 (omega arith)

read_bits-write_bits_example :
    (w : BitWriter) × (write_bits (0xa5 ∷ 0xc0 ∷ []) 12 new_writer ≡ ok w)
    × Written w two_letters
    × (((12 ≤ 64) × ((out : List ℕ) × (read_bits w.buf 0 12 ≡ ok out) × Stores out two_letters))
        ⊎ ((64 < 12) × (read_bits w.buf 0 12 ≡ fail bitfield_width_invalid)))
read_bits-write_bits_example =
    read_bits-write_bits (0xa5 ∷ 0xc0 ∷ []) two_letters [] new_writer two_letters-Stores
      new_writer-Written (omega arith) (omega arith)
