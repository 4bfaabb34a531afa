-- ===== src/Messages/ExtendedClassBPositionReport/RoundTrip.antt =====
-- Message type 19: what `encode` sends, `decode_payload` and `decode` give back.
use pgais.Base.{ℕ, ◌<◌, ◌^◌, ◌≤◌, ◌≡◌, refl, arith, List, [], ◌∷◌, All}
use pgais.Base.Int.{Fits}
use pgais.Error.{ok}
use pgais.Bitfield.Reader.{bit_length}
use pgais.Bitfield.Writer.{new_writer}
use pgais.Bitfield.Fields.{Field, uint, sint, flag, text, FitsText, IsField, write_fields, Reads}
use pgais.Message.{
  type_value, extended_class_b_position_report, message_type_from_id, same_type, finish,
}
use pgais.Messages.Transport.{write_fields-Arrives, cast_int-Fits, flag_read, ComesBack}
use pgais.Messages.ExtendedClassBPositionReport.{ExtendedClassBPositionReport, decode, encode}

abbrev layout : ExtendedClassBPositionReport → List Field
layout m =
    uint 6 (type_value extended_class_b_position_report)
    ∷ uint 2 m.repeat_indicator
    ∷ uint 30 m.mmsi
    ∷ uint 10 0
    ∷ uint 10 m.sog
    ∷ flag m.position_accuracy
    ∷ sint 28 m.longitude
    ∷ sint 27 m.latitude
    ∷ uint 12 m.cog
    ∷ uint 9 m.true_heading
    ∷ uint 6 m.time_stamp
    ∷ uint 4 m.regional_reserved
    ∷ text 20 m.name
    ∷ uint 8 m.ship_type
    ∷ uint 9 m.dim_bow
    ∷ uint 9 m.dim_stern
    ∷ uint 6 m.dim_port
    ∷ uint 6 m.dim_starboard
    ∷ uint 4 m.epfd_type
    ∷ flag m.raim
    ∷ flag m.dte
    ∷ flag m.assigned
    ∷ uint 2 0
    ∷ []

-- The values that fit the fields of the message.
pub record IsEncodable (m : ExtendedClassBPositionReport) : Type 0 where
  pub repeat_indicator_fits : m.repeat_indicator < 2 ^ 2
  pub mmsi_fits : m.mmsi < 2 ^ 30
  pub sog_fits : m.sog < 2 ^ 10
  pub longitude_fits : Fits 28 m.longitude
  pub latitude_fits : Fits 27 m.latitude
  pub cog_fits : m.cog < 2 ^ 12
  pub true_heading_fits : m.true_heading < 2 ^ 9
  pub time_stamp_fits : m.time_stamp < 2 ^ 6
  pub regional_reserved_fits : m.regional_reserved < 2 ^ 4
  pub name_fits : FitsText 20 m.name
  pub ship_type_fits : m.ship_type < 2 ^ 8
  pub dim_bow_fits : m.dim_bow < 2 ^ 9
  pub dim_stern_fits : m.dim_stern < 2 ^ 9
  pub dim_port_fits : m.dim_port < 2 ^ 6
  pub dim_starboard_fits : m.dim_starboard < 2 ^ 6
  pub epfd_type_fits : m.epfd_type < 2 ^ 4

layout-IsField : (m : ExtendedClassBPositionReport) → IsEncodable m → All IsField (layout m)
unfolding type_value
layout-IsField m h = (
  (omega arith, omega arith),
  (
    (omega arith, h.repeat_indicator_fits),
    (
      (omega arith, h.mmsi_fits),
      (
        (omega arith, omega arith),
        (
          (omega arith, h.sog_fits),
          (
            tt,
            (
              (omega arith, h.longitude_fits),
              (
                (omega arith, h.latitude_fits),
                (
                  (omega arith, h.cog_fits),
                  (
                    (omega arith, h.true_heading_fits),
                    (
                      (omega arith, h.time_stamp_fits),
                      (
                        (omega arith, h.regional_reserved_fits),
                        (
                          (omega arith, h.name_fits),
                          (
                            (omega arith, h.ship_type_fits),
                            (
                              (omega arith, h.dim_bow_fits),
                              (
                                (omega arith, h.dim_stern_fits),
                                (
                                  (omega arith, h.dim_port_fits),
                                  (
                                    (omega arith, h.dim_starboard_fits),
                                    (
                                      (omega arith, h.epfd_type_fits),
                                      (tt, (tt, (tt, ((omega arith, omega arith), tt)))),
                                    ),
                                  ),
                                ),
                              ),
                            ),
                          ),
                        ),
                      ),
                    ),
                  ),
                ),
              ),
            ),
          ),
        ),
      ),
    ),
  ),
)

encode-layout :
    (m : ExtendedClassBPositionReport) → encode m ≡ write_fields (layout m) (finish 312) new_writer
unfolding encode
encode-layout m = refl

decode-Reads :
    (m : ExtendedClassBPositionReport) (buf : List ℕ)
    → IsEncodable m
    → Reads buf 0 (layout m)
    → 312 ≤ bit_length buf
    → decode buf ≡ ok m
unfolding decode message_type_from_id same_type
decode-Reads m buf h r k = ground (
  arith,
  flag_read m.position_accuracy,
  cast_int-Fits 28 32 m.longitude (omega arith) (omega arith) h.longitude_fits,
  cast_int-Fits 27 32 m.latitude (omega arith) (omega arith) h.latitude_fits,
  flag_read m.raim,
  flag_read m.dte,
  flag_read m.assigned,
)

-- Every message whose values fit the bits of their fields comes back from its payload as it was.
pub decode-encode_extended_class_b_position_report :
    (m : ExtendedClassBPositionReport)
    → IsEncodable m
    → ComesBack encode decode m extended_class_b_position_report
decode-encode_extended_class_b_position_report m h =
    let a =
      write_fields-Arrives (layout m) 312 0 (layout-IsField m h) (omega arith) (omega arith)
        (omega arith) (omega arith) in
    record {
      payload = a.payload;
      fill_bits = a.fill_bits;
      buf = a.buf;
      encoded = rw encode-layout a.encoded;
      unpacked = a.decoded;
      starts = omega (arith, a.long_enough);
      type_read = a.found.0;
      read = decode-Reads m a.buf h a.found a.long_enough;
    }
