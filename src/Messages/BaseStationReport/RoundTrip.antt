-- ===== src/Messages/BaseStationReport/RoundTrip.antt =====
-- Message types 4 and 11: what `encode` sends, `decode_payload` and `decode` give back.
use pgais.Base.{ℕ, ◌<◌, ◌^◌, ◌≤◌, ◌≡◌, ◌⊎◌, refl, arith, List, [], ◌∷◌, All}
use pgais.Base.Int.{Fits}
use pgais.Error.{ok}
use pgais.Bitfield.Reader.{bit_length}
use pgais.Bitfield.Writer.{new_writer}
use pgais.Bitfield.Fields.{Field, uint, sint, flag, IsField, write_fields, Reads}
use pgais.Message.{
  type_value, base_station_report, utc_date_response, message_type_from_id, same_type, finish,
}
use pgais.Messages.Transport.{
  write_fields-Arrives, cast_int-Fits, flag_read, ComesBack, type_value-lt,
}
use pgais.Messages.BaseStationReport.{BaseStationReport, decode, encode}

abbrev layout : BaseStationReport → List Field
layout m =
    uint 6 (type_value m.type)
    ∷ uint 2 m.repeat_indicator
    ∷ uint 30 m.mmsi
    ∷ uint 14 m.utc_year
    ∷ uint 4 m.utc_month
    ∷ uint 5 m.utc_day
    ∷ uint 5 m.utc_hour
    ∷ uint 6 m.utc_minute
    ∷ uint 6 m.utc_second
    ∷ flag m.position_accuracy
    ∷ sint 28 m.longitude
    ∷ sint 27 m.latitude
    ∷ uint 4 m.epfd
    ∷ uint 10 0
    ∷ flag m.raim
    ∷ uint 19 m.radio_status
    ∷ []

-- The values that fit the fields of the message.
pub record IsEncodable (m : BaseStationReport) : Type 0 where
  pub type_fits : (m.type ≡ base_station_report) ⊎ (m.type ≡ utc_date_response)
  pub repeat_indicator_fits : m.repeat_indicator < 2 ^ 2
  pub mmsi_fits : m.mmsi < 2 ^ 30
  pub utc_year_fits : m.utc_year < 2 ^ 14
  pub utc_month_fits : m.utc_month < 2 ^ 4
  pub utc_day_fits : m.utc_day < 2 ^ 5
  pub utc_hour_fits : m.utc_hour < 2 ^ 5
  pub utc_minute_fits : m.utc_minute < 2 ^ 6
  pub utc_second_fits : m.utc_second < 2 ^ 6
  pub longitude_fits : Fits 28 m.longitude
  pub latitude_fits : Fits 27 m.latitude
  pub epfd_fits : m.epfd < 2 ^ 4
  pub radio_status_fits : m.radio_status < 2 ^ 19

layout-IsField : (m : BaseStationReport) → IsEncodable m → All IsField (layout m)
unfolding type_value
layout-IsField m h = (
  (omega arith, type_value-lt m.type),
  (
    (omega arith, h.repeat_indicator_fits),
    (
      (omega arith, h.mmsi_fits),
      (
        (omega arith, h.utc_year_fits),
        (
          (omega arith, h.utc_month_fits),
          (
            (omega arith, h.utc_day_fits),
            (
              (omega arith, h.utc_hour_fits),
              (
                (omega arith, h.utc_minute_fits),
                (
                  (omega arith, h.utc_second_fits),
                  (
                    tt,
                    (
                      (omega arith, h.longitude_fits),
                      (
                        (omega arith, h.latitude_fits),
                        (
                          (omega arith, h.epfd_fits),
                          (
                            (omega arith, omega arith),
                            (tt, ((omega arith, h.radio_status_fits), tt)),
                          ),
                        ),
                      ),
                    ),
                  ),
                ),
              ),
            ),
          ),
        ),
      ),
    ),
  ),
)

encode-layout : (m : BaseStationReport) → encode m ≡ write_fields (layout m) (finish 168) new_writer
unfolding encode
encode-layout m = refl

decode-Reads :
    (m : BaseStationReport) (buf : List ℕ)
    → IsEncodable m
    → Reads buf 0 (layout m)
    → 168 ≤ bit_length buf
    → decode buf ≡ ok m
unfolding decode message_type_from_id same_type
decode-Reads m buf h r k = ground (
  arith,
  flag_read m.position_accuracy,
  cast_int-Fits 28 32 m.longitude (omega arith) (omega arith) h.longitude_fits,
  cast_int-Fits 27 32 m.latitude (omega arith) (omega arith) h.latitude_fits,
  flag_read m.raim,
)

-- Every message whose values fit the bits of their fields comes back from its payload as it was.
pub decode-encode_base_station_report :
    (m : BaseStationReport) → IsEncodable m → ComesBack encode decode m m.type
decode-encode_base_station_report m h =
    let a =
      write_fields-Arrives (layout m) 168 0 (layout-IsField m h) (omega arith) (omega arith)
        (omega arith) (omega arith) in
    record {
      payload = a.payload;
      fill_bits = a.fill_bits;
      buf = a.buf;
      encoded = rw encode-layout a.encoded;
      unpacked = a.decoded;
      starts = omega (arith, a.long_enough);
      type_read = a.found.0;
      read = decode-Reads m a.buf h a.found a.long_enough;
    }
