-- ===== src/Messages/PositionReportClassA/RoundTrip.antt =====
-- Message types 1 to 3: what `encode` sends, `decode_payload` and `decode` give back.
use pgais.Base.{ℕ, ◌<◌, ◌^◌, ◌≤◌, ◌≡◌, ◌⊎◌, refl, arith, List, [], ◌∷◌, All}
use pgais.Base.Int.{Fits}
use pgais.Error.{ok}
use pgais.Bitfield.Reader.{bit_length}
use pgais.Bitfield.Writer.{new_writer}
use pgais.Bitfield.Fields.{Field, uint, sint, flag, IsField, write_fields, Reads}
use pgais.Message.{
  type_value, position_report_class_a, position_report_class_a_assigned,
  position_report_class_a_response, message_type_from_id, same_type, finish,
}
use pgais.Messages.Transport.{
  write_fields-Arrives, cast_int-Fits, flag_read, ComesBack, type_value-lt,
}
use pgais.Messages.PositionReportClassA.{PositionReportClassA, decode, encode}

abbrev layout : PositionReportClassA → List Field
layout m =
    uint 6 (type_value m.type)
    ∷ uint 2 m.repeat_indicator
    ∷ uint 30 m.mmsi
    ∷ uint 4 m.nav_status
    ∷ sint 8 m.rot
    ∷ uint 10 m.sog
    ∷ flag m.position_accuracy
    ∷ sint 28 m.longitude
    ∷ sint 27 m.latitude
    ∷ uint 12 m.cog
    ∷ uint 9 m.true_heading
    ∷ uint 6 m.time_stamp
    ∷ uint 2 m.manoeuvre_indicator
    ∷ uint 3 0
    ∷ flag m.raim
    ∷ uint 19 m.radio_status
    ∷ []

-- The values that fit the fields of the message.
pub record IsEncodable (m : PositionReportClassA) : Type 0 where
  pub type_fits :
      (m.type ≡ position_report_class_a)
      ⊎ (m.type ≡ position_report_class_a_assigned)
      ⊎ (m.type ≡ position_report_class_a_response)
  pub repeat_indicator_fits : m.repeat_indicator < 2 ^ 2
  pub mmsi_fits : m.mmsi < 2 ^ 30
  pub nav_status_fits : m.nav_status < 2 ^ 4
  pub rot_fits : Fits 8 m.rot
  pub sog_fits : m.sog < 2 ^ 10
  pub longitude_fits : Fits 28 m.longitude
  pub latitude_fits : Fits 27 m.latitude
  pub cog_fits : m.cog < 2 ^ 12
  pub true_heading_fits : m.true_heading < 2 ^ 9
  pub time_stamp_fits : m.time_stamp < 2 ^ 6
  pub manoeuvre_indicator_fits : m.manoeuvre_indicator < 2 ^ 2
  pub radio_status_fits : m.radio_status < 2 ^ 19

layout-IsField : (m : PositionReportClassA) → IsEncodable m → All IsField (layout m)
unfolding type_value
layout-IsField m h = (
  (omega arith, type_value-lt m.type),
  (
    (omega arith, h.repeat_indicator_fits),
    (
      (omega arith, h.mmsi_fits),
      (
        (omega arith, h.nav_status_fits),
        (
          (omega arith, h.rot_fits),
          (
            (omega arith, h.sog_fits),
            (
              tt,
              (
                (omega arith, h.longitude_fits),
                (
                  (omega arith, h.latitude_fits),
                  (
                    (omega arith, h.cog_fits),
                    (
                      (omega arith, h.true_heading_fits),
                      (
                        (omega arith, h.time_stamp_fits),
                        (
                          (omega arith, h.manoeuvre_indicator_fits),
                          (
                            (omega arith, omega arith),
                            (tt, ((omega arith, h.radio_status_fits), tt)),
                          ),
                        ),
                      ),
                    ),
                  ),
                ),
              ),
            ),
          ),
        ),
      ),
    ),
  ),
)

encode-layout :
    (m : PositionReportClassA) → encode m ≡ write_fields (layout m) (finish 168) new_writer
unfolding encode
encode-layout m = refl

decode-Reads :
    (m : PositionReportClassA) (buf : List ℕ)
    → IsEncodable m
    → Reads buf 0 (layout m)
    → 168 ≤ bit_length buf
    → decode buf ≡ ok m
unfolding decode message_type_from_id same_type
decode-Reads m buf h r k = ground (
  arith,
  cast_int-Fits 8 8 m.rot (omega arith) (omega arith) h.rot_fits,
  flag_read m.position_accuracy,
  cast_int-Fits 28 32 m.longitude (omega arith) (omega arith) h.longitude_fits,
  cast_int-Fits 27 32 m.latitude (omega arith) (omega arith) h.latitude_fits,
  flag_read m.raim,
)

-- Every message whose values fit the bits of their fields, whether or not they are in the ranges of the
-- specification, comes back from its payload as it was: also a longitude or latitude out of bounds, a
-- course above 3600 or a manoeuvre indicator of 3.
pub decode-encode_position_report_class_a :
    (m : PositionReportClassA) → IsEncodable m → ComesBack encode decode m m.type
decode-encode_position_report_class_a m h =
    let a =
      write_fields-Arrives (layout m) 168 0 (layout-IsField m h) (omega arith) (omega arith)
        (omega arith) (omega arith) in
    record {
      payload = a.payload;
      fill_bits = a.fill_bits;
      buf = a.buf;
      encoded = rw encode-layout a.encoded;
      unpacked = a.decoded;
      starts = omega (arith, a.long_enough);
      type_read = a.found.0;
      read = decode-Reads m a.buf h a.found a.long_enough;
    }
