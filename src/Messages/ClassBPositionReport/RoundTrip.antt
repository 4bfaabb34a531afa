-- ===== src/Messages/ClassBPositionReport/RoundTrip.antt =====
-- Message type 18: what `encode` sends, `decode_payload` and `decode` give back.
use pgais.Base.{ℕ, ◌<◌, ◌^◌, ◌≤◌, ◌≡◌, refl, arith, List, [], ◌∷◌, All}
use pgais.Base.Int.{Fits}
use pgais.Error.{ok}
use pgais.Bitfield.Reader.{bit_length}
use pgais.Bitfield.Writer.{new_writer}
use pgais.Bitfield.Fields.{Field, uint, sint, flag, IsField, write_fields, Reads}
use pgais.Message.{
  type_value, standard_class_b_position_report, message_type_from_id, same_type, finish,
}
use pgais.Messages.Transport.{write_fields-Arrives, cast_int-Fits, flag_read, ComesBack}
use pgais.Messages.ClassBPositionReport.{ClassBPositionReport, decode, encode}

abbrev layout : ClassBPositionReport → List Field
layout m =
    uint 6 (type_value standard_class_b_position_report)
    ∷ uint 2 m.repeat_indicator
    ∷ uint 30 m.mmsi
    ∷ uint 8 0
    ∷ uint 10 m.sog
    ∷ flag m.position_accuracy
    ∷ sint 28 m.longitude
    ∷ sint 27 m.latitude
    ∷ uint 12 m.cog
    ∷ uint 9 m.true_heading
    ∷ uint 6 m.time_stamp
    ∷ uint 2 m.regional_reserved
    ∷ flag m.cs_flag
    ∷ flag m.display_flag
    ∷ flag m.dsc_flag
    ∷ flag m.band_flag
    ∷ flag m.msg22_flag
    ∷ flag m.assigned
    ∷ flag m.raim
    ∷ uint 20 m.radio_status
    ∷ []

-- The values that fit the fields of the message.
pub record IsEncodable (m : ClassBPositionReport) : Type 0 where
  pub repeat_indicator_fits : m.repeat_indicator < 2 ^ 2
  pub mmsi_fits : m.mmsi < 2 ^ 30
  pub sog_fits : m.sog < 2 ^ 10
  pub longitude_fits : Fits 28 m.longitude
  pub latitude_fits : Fits 27 m.latitude
  pub cog_fits : m.cog < 2 ^ 12
  pub true_heading_fits : m.true_heading < 2 ^ 9
  pub time_stamp_fits : m.time_stamp < 2 ^ 6
  pub regional_reserved_fits : m.regional_reserved < 2 ^ 2
  pub radio_status_fits : m.radio_status < 2 ^ 20

layout-IsField : (m : ClassBPositionReport) → IsEncodable m → All IsField (layout m)
unfolding type_value
layout-IsField m h = (
  (omega arith, omega arith),
  (
    (omega arith, h.repeat_indicator_fits),
    (
      (omega arith, h.mmsi_fits),
      (
        (omega arith, omega arith),
        (
          (omega arith, h.sog_fits),
          (
            tt,
            (
              (omega arith, h.longitude_fits),
              (
                (omega arith, h.latitude_fits),
                (
                  (omega arith, h.cog_fits),
                  (
                    (omega arith, h.true_heading_fits),
                    (
                      (omega arith, h.time_stamp_fits),
                      (
                        (omega arith, h.regional_reserved_fits),
                        (
                          tt,
                          (
                            tt,
                            (tt, (tt, (tt, (tt, (tt, ((omega arith, h.radio_status_fits), tt)))))),
                          ),
                        ),
                      ),
                    ),
                  ),
                ),
              ),
            ),
          ),
        ),
      ),
    ),
  ),
)

encode-layout :
    (m : ClassBPositionReport) → encode m ≡ write_fields (layout m) (finish 168) new_writer
unfolding encode
encode-layout m = refl

decode-Reads :
    (m : ClassBPositionReport) (buf : List ℕ)
    → IsEncodable m
    → Reads buf 0 (layout m)
    → 168 ≤ bit_length buf
    → decode buf ≡ ok m
unfolding decode message_type_from_id same_type
decode-Reads m buf h r k = ground (
  arith,
  flag_read m.position_accuracy,
  cast_int-Fits 28 32 m.longitude (omega arith) (omega arith) h.longitude_fits,
  cast_int-Fits 27 32 m.latitude (omega arith) (omega arith) h.latitude_fits,
  flag_read m.cs_flag,
  flag_read m.display_flag,
  flag_read m.dsc_flag,
  flag_read m.band_flag,
  flag_read m.msg22_flag,
  flag_read m.assigned,
  flag_read m.raim,
)

-- Every message whose values fit the bits of their fields comes back from its payload as it was.
pub decode-encode_class_b_position_report :
    (m : ClassBPositionReport)
    → IsEncodable m
    → ComesBack encode decode m standard_class_b_position_report
decode-encode_class_b_position_report m h =
    let a =
      write_fields-Arrives (layout m) 168 0 (layout-IsField m h) (omega arith) (omega arith)
        (omega arith) (omega arith) in
    record {
      payload = a.payload;
      fill_bits = a.fill_bits;
      buf = a.buf;
      encoded = rw encode-layout a.encoded;
      unpacked = a.decoded;
      starts = omega (arith, a.long_enough);
      type_read = a.found.0;
      read = decode-Reads m a.buf h a.found a.long_enough;
    }
