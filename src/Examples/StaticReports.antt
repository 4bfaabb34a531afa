-- ===== src/Examples/StaticReports.antt =====
-- Both parts of a static data report, sent and read back.
use pgais.Base.{◌≡◌, refl, arith, codes}
use pgais.Bitfield.Fields.{FitsText}
use pgais.Message.{MessageType}
use pgais.Messages.Transport.{ComesBack}
use pgais.Messages.StaticDataReport.{StaticDataReport, make_part_a, make_part_b, decode, encode}
use pgais.Messages.StaticDataReport.RoundTrip.{
  FitsPartB, carried, decode-encode_part_a, decode-encode_part_b,
}

ab_fits : FitsText 20 (codes "AB")
ab_fits = (((omega arith, omega arith), ((omega arith, omega arith), tt)), refl, omega arith)

decode-encode_part_a_example :
    ComesBack encode decode
      (make_part_a 244660000 1 (codes "AB"))
      MessageType.class_b_cs_static_data_report
decode-encode_part_a_example =
    decode-encode_part_a 244660000 1 (codes "AB") (omega arith) (omega arith) ab_fits

-- The report of an auxiliary craft, with the MMSI of its mothership.
abbrev sent_part_b : StaticDataReport
sent_part_b = make_part_b 244660000 1 36 (codes "AB") (codes "CD") 12 30 4 5 1 244660001

sent_part_b-FitsPartB : FitsPartB sent_part_b
sent_part_b-FitsPartB = record {
  repeat_fits = omega arith;
  mmsi_fits = omega arith;
  ship_type_fits = omega arith;
  vendor_id_fits =
      (((omega arith, omega arith), ((omega arith, omega arith), tt)), refl, omega arith);
  call_sign_fits =
      (((omega arith, omega arith), ((omega arith, omega arith), tt)), refl, omega arith);
  bow_fits = omega arith;
  stern_fits = omega arith;
  port_fits = omega arith;
  starboard_fits = omega arith;
  epfd_fits = omega arith;
  is_part_b = refl;
}

decode-encode_part_b_example :
    (encode sent_part_b ≡ encode (carried sent_part_b))
    × ComesBack encode decode (carried sent_part_b) MessageType.class_b_cs_static_data_report
decode-encode_part_b_example = decode-encode_part_b sent_part_b sent_part_b-FitsPartB
