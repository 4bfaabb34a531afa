-- ===== src/Messages/LongRangeBroadcast/RoundTrip.antt =====
-- Message type 27: what `encode` sends, `decode_payload` and `decode` give back.
use pgais.Base.{ℕ, ◌<◌, ◌^◌, ◌≤◌, ◌≡◌, refl, arith, List, [], ◌∷◌, All}
use pgais.Base.Int.{Fits}
use pgais.Error.{ok}
use pgais.Bitfield.Reader.{bit_length}
use pgais.Bitfield.Writer.{new_writer}
use pgais.Bitfield.Fields.{Field, uint, sint, flag, IsField, write_fields, Reads}
use pgais.Message.{type_value, position_report_long_range, message_type_from_id, same_type, finish}
use pgais.Messages.Transport.{write_fields-Arrives, cast_int-Fits, flag_read, ComesBack}
use pgais.Messages.LongRangeBroadcast.{LongRangeBroadcast, decode, encode}

abbrev layout : LongRangeBroadcast → List Field
layout m =
    uint 6 (type_value position_report_long_range)
    ∷ uint 2 m.repeat_indicator
    ∷ uint 30 m.mmsi
    ∷ flag m.position_accuracy
    ∷ flag m.raim
    ∷ uint 4 m.nav_status
    ∷ sint 18 m.longitude
    ∷ sint 17 m.latitude
    ∷ uint 6 m.sog
    ∷ uint 9 m.cog
    ∷ flag m.gnss_position_status
    ∷ uint 1 0
    ∷ []

-- The values that fit the fields of the message.
pub record IsEncodable (m : LongRangeBroadcast) : Type 0 where
  pub repeat_indicator_fits : m.repeat_indicator < 2 ^ 2
  pub mmsi_fits : m.mmsi < 2 ^ 30
  pub nav_status_fits : m.nav_status < 2 ^ 4
  pub longitude_fits : Fits 18 m.longitude
  pub latitude_fits : Fits 17 m.latitude
  pub sog_fits : m.sog < 2 ^ 6
  pub cog_fits : m.cog < 2 ^ 9

layout-IsField : (m : LongRangeBroadcast) → IsEncodable m → All IsField (layout m)
unfolding type_value
layout-IsField m h = (
  (omega arith, omega arith),
  (
    (omega arith, h.repeat_indicator_fits),
    (
      (omega arith, h.mmsi_fits),
      (
        tt,
        (
          tt,
          (
            (omega arith, h.nav_status_fits),
            (
              (omega arith, h.longitude_fits),
              (
                (omega arith, h.latitude_fits),
                (
                  (omega arith, h.sog_fits),
                  ((omega arith, h.cog_fits), (tt, ((omega arith, omega arith), tt))),
                ),
              ),
            ),
          ),
        ),
      ),
    ),
  ),
)

encode-layout : (m : LongRangeBroadcast) → encode m ≡ write_fields (layout m) (finish 96) new_writer
unfolding encode
encode-layout m = refl

decode-Reads :
    (m : LongRangeBroadcast) (buf : List ℕ)
    → IsEncodable m
    → Reads buf 0 (layout m)
    → 96 ≤ bit_length buf
    → decode buf ≡ ok m
unfolding decode message_type_from_id same_type
decode-Reads m buf h r k = ground (
  arith,
  flag_read m.position_accuracy,
  flag_read m.raim,
  cast_int-Fits 18 32 m.longitude (omega arith) (omega arith) h.longitude_fits,
  cast_int-Fits 17 32 m.latitude (omega arith) (omega arith) h.latitude_fits,
  flag_read m.gnss_position_status,
)

-- Every message whose values fit the bits of their fields comes back from its payload as it was.
pub decode-encode_long_range_broadcast :
    (m : LongRangeBroadcast) → IsEncodable m → ComesBack encode decode m position_report_long_range
decode-encode_long_range_broadcast m h =
    let a =
      write_fields-Arrives (layout m) 96 0 (layout-IsField m h) (omega arith) (omega arith)
        (omega arith) (omega arith) in
    record {
      payload = a.payload;
      fill_bits = a.fill_bits;
      buf = a.buf;
      encoded = rw encode-layout a.encoded;
      unpacked = a.decoded;
      starts = omega (arith, a.long_enough);
      type_read = a.found.0;
      read = decode-Reads m a.buf h a.found a.long_enough;
    }
