-- ===== src/Messages/UtcDateInquiry/RoundTrip.antt =====
-- Message type 10: what `encode` sends, `decode_payload` and `decode` give back.
use pgais.Base.{ℕ, ◌<◌, ◌^◌, ◌≤◌, ◌≡◌, refl, arith, List, [], ◌∷◌, All}
use pgais.Error.{ok}
use pgais.Bitfield.Reader.{bit_length}
use pgais.Bitfield.Writer.{new_writer}
use pgais.Bitfield.Fields.{Field, uint, IsField, write_fields, Reads}
use pgais.Message.{type_value, utc_date_inquiry, message_type_from_id, same_type, finish}
use pgais.Messages.Transport.{write_fields-Arrives, ComesBack}
use pgais.Messages.UtcDateInquiry.{UtcDateInquiry, decode, encode}

abbrev layout : UtcDateInquiry → List Field
layout m =
    uint 6 (type_value utc_date_inquiry)
    ∷ uint 2 m.repeat_indicator
    ∷ uint 30 m.mmsi
    ∷ uint 2 0
    ∷ uint 30 m.destination_mmsi
    ∷ uint 2 0
    ∷ []

-- The values that fit the fields of the message.
pub record IsEncodable (m : UtcDateInquiry) : Type 0 where
  pub repeat_indicator_fits : m.repeat_indicator < 2 ^ 2
  pub mmsi_fits : m.mmsi < 2 ^ 30
  pub destination_mmsi_fits : m.destination_mmsi < 2 ^ 30

layout-IsField : (m : UtcDateInquiry) → IsEncodable m → All IsField (layout m)
unfolding type_value
layout-IsField m h = (
  (omega arith, omega arith),
  (
    (omega arith, h.repeat_indicator_fits),
    (
      (omega arith, h.mmsi_fits),
      (
        (omega arith, omega arith),
        ((omega arith, h.destination_mmsi_fits), ((omega arith, omega arith), tt)),
      ),
    ),
  ),
)

encode-layout : (m : UtcDateInquiry) → encode m ≡ write_fields (layout m) (finish 72) new_writer
unfolding encode
encode-layout m = refl

decode-Reads :
    (m : UtcDateInquiry) (buf : List ℕ)
    → IsEncodable m
    → Reads buf 0 (layout m)
    → 72 ≤ bit_length buf
    → decode buf ≡ ok m
unfolding decode message_type_from_id same_type
decode-Reads m buf h r k = ground (arith)

-- Every message whose values fit the bits of their fields comes back from its payload as it was.
pub decode-encode_utc_date_inquiry :
    (m : UtcDateInquiry) → IsEncodable m → ComesBack encode decode m utc_date_inquiry
decode-encode_utc_date_inquiry m h =
    let a =
      write_fields-Arrives (layout m) 72 0 (layout-IsField m h) (omega arith) (omega arith)
        (omega arith) (omega arith) in
    record {
      payload = a.payload;
      fill_bits = a.fill_bits;
      buf = a.buf;
      encoded = rw encode-layout a.encoded;
      unpacked = a.decoded;
      starts = omega (arith, a.long_enough);
      type_read = a.found.0;
      read = decode-Reads m a.buf h a.found a.long_enough;
    }
