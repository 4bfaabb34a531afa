-- ===== src/Messages/StaticAndVoyageData/RoundTrip.antt =====
-- Message type 5: what `encode` sends, `decode_payload` and `decode` give back.
use pgais.Base.{ℕ, ◌<◌, ◌^◌, ◌≤◌, ◌≡◌, refl, arith, List, [], ◌∷◌, All}
use pgais.Error.{ok}
use pgais.Bitfield.Reader.{bit_length}
use pgais.Bitfield.Writer.{new_writer}
use pgais.Bitfield.Fields.{Field, uint, flag, text, FitsText, IsField, write_fields, Reads}
use pgais.Message.{type_value, static_and_voyage_data, message_type_from_id, same_type, finish}
use pgais.Messages.Transport.{write_fields-Arrives, ComesBack}
use pgais.Messages.StaticAndVoyageData.{StaticAndVoyageData, decode, encode}

abbrev layout : StaticAndVoyageData → List Field
layout m =
    uint 6 (type_value static_and_voyage_data)
    ∷ uint 2 m.repeat_indicator
    ∷ uint 30 m.mmsi
    ∷ uint 2 m.ais_version
    ∷ uint 30 m.imo_number
    ∷ text 7 m.call_sign
    ∷ text 20 m.vessel_name
    ∷ uint 8 m.ship_type
    ∷ uint 9 m.dim_to_bow
    ∷ uint 9 m.dim_to_stern
    ∷ uint 6 m.dim_to_port
    ∷ uint 6 m.dim_to_starboard
    ∷ uint 4 m.epfd
    ∷ uint 4 m.eta_month
    ∷ uint 5 m.eta_day
    ∷ uint 5 m.eta_hour
    ∷ uint 6 m.eta_minute
    ∷ uint 8 m.draught
    ∷ text 20 m.destination
    ∷ flag m.dte
    ∷ uint 2 0
    ∷ []

-- The values that fit the fields of the message.
pub record IsEncodable (m : StaticAndVoyageData) : Type 0 where
  pub repeat_indicator_fits : m.repeat_indicator < 2 ^ 2
  pub mmsi_fits : m.mmsi < 2 ^ 30
  pub ais_version_fits : m.ais_version < 2 ^ 2
  pub imo_number_fits : m.imo_number < 2 ^ 30
  pub call_sign_fits : FitsText 7 m.call_sign
  pub vessel_name_fits : FitsText 20 m.vessel_name
  pub ship_type_fits : m.ship_type < 2 ^ 8
  pub dim_to_bow_fits : m.dim_to_bow < 2 ^ 9
  pub dim_to_stern_fits : m.dim_to_stern < 2 ^ 9
  pub dim_to_port_fits : m.dim_to_port < 2 ^ 6
  pub dim_to_starboard_fits : m.dim_to_starboard < 2 ^ 6
  pub epfd_fits : m.epfd < 2 ^ 4
  pub eta_month_fits : m.eta_month < 2 ^ 4
  pub eta_day_fits : m.eta_day < 2 ^ 5
  pub eta_hour_fits : m.eta_hour < 2 ^ 5
  pub eta_minute_fits : m.eta_minute < 2 ^ 6
  pub draught_fits : m.draught < 2 ^ 8
  pub destination_fits : FitsText 20 m.destination

layout-IsField : (m : StaticAndVoyageData) → IsEncodable m → All IsField (layout m)
unfolding type_value
layout-IsField m h = (
  (omega arith, omega arith),
  (
    (omega arith, h.repeat_indicator_fits),
    (
      (omega arith, h.mmsi_fits),
      (
        (omega arith, h.ais_version_fits),
        (
          (omega arith, h.imo_number_fits),
          (
            (omega arith, h.call_sign_fits),
            (
              (omega arith, h.vessel_name_fits),
              (
                (omega arith, h.ship_type_fits),
                (
                  (omega arith, h.dim_to_bow_fits),
                  (
                    (omega arith, h.dim_to_stern_fits),
                    (
                      (omega arith, h.dim_to_port_fits),
                      (
                        (omega arith, h.dim_to_starboard_fits),
                        (
                          (omega arith, h.epfd_fits),
                          (
                            (omega arith, h.eta_month_fits),
                            (
                              (omega arith, h.eta_day_fits),
                              (
                                (omega arith, h.eta_hour_fits),
                                (
                                  (omega arith, h.eta_minute_fits),
                                  (
                                    (omega arith, h.draught_fits),
                                    (
                                      (omega arith, h.destination_fits),
                                      (tt, ((omega arith, omega arith), tt)),
                                    ),
                                  ),
                                ),
                              ),
                            ),
                          ),
                        ),
                      ),
                    ),
                  ),
                ),
              ),
            ),
          ),
        ),
      ),
    ),
  ),
)

encode-layout :
    (m : StaticAndVoyageData) → encode m ≡ write_fields (layout m) (finish 426) new_writer
unfolding encode
encode-layout m = refl

decode-Reads :
    (m : StaticAndVoyageData) (buf : List ℕ)
    → IsEncodable m
    → Reads buf 0 (layout m)
    → 426 ≤ bit_length buf
    → decode buf ≡ ok m
unfolding decode message_type_from_id same_type
decode-Reads m buf h r k = ground (arith)

-- Every message whose values fit the bits of their fields comes back from its payload as it was.
pub decode-encode_static_and_voyage_data :
    (m : StaticAndVoyageData) → IsEncodable m → ComesBack encode decode m static_and_voyage_data
decode-encode_static_and_voyage_data m h =
    let a =
      write_fields-Arrives (layout m) 426 1 (layout-IsField m h) (omega arith) (omega arith)
        (omega arith) (omega arith) in
    record {
      payload = a.payload;
      fill_bits = a.fill_bits;
      buf = a.buf;
      encoded = rw encode-layout a.encoded;
      unpacked = a.decoded;
      starts = omega (arith, a.long_enough);
      type_read = a.found.0;
      read = decode-Reads m a.buf h a.found a.long_enough;
    }
