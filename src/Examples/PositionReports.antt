-- ===== src/Examples/PositionReports.antt =====
-- Messages of src/messages with typical values, sent and read back.
use pgais.Base.{inl, refl, arith, true}
use pgais.Base.Int.{pos, negsuc}
use pgais.Message.{MessageType}
use pgais.Messages.Transport.{ComesBack}
use pgais.Messages.PositionReportClassA.{
  PositionReportClassA, decode as decode_position_report_class_a,
  encode as encode_position_report_class_a,
}
use pgais.Messages.PositionReportClassA.RoundTrip.{
  IsEncodable as IsPositionReportClassA, decode-encode_position_report_class_a,
}
use pgais.Messages.SarPositionReport.{
  SarPositionReport, decode as decode_sar_position_report, encode as encode_sar_position_report,
}
use pgais.Messages.SarPositionReport.RoundTrip.{
  IsEncodable as IsSarPositionReport, decode-encode_sar_position_report,
}
use pgais.Messages.ClassBPositionReport.{
  ClassBPositionReport, decode as decode_class_b_position_report,
  encode as encode_class_b_position_report,
}
use pgais.Messages.ClassBPositionReport.RoundTrip.{
  IsEncodable as IsClassBPositionReport, decode-encode_class_b_position_report,
}
use pgais.Messages.LongRangeBroadcast.{
  LongRangeBroadcast, decode as decode_long_range_broadcast, encode as encode_long_range_broadcast,
}
use pgais.Messages.LongRangeBroadcast.RoundTrip.{
  IsEncodable as IsLongRangeBroadcast, decode-encode_long_range_broadcast,
}

-- The longitude, the course and the manoeuvre indicator are outside the ranges of the specification.
abbrev sent_position_report_class_a : PositionReportClassA
sent_position_report_class_a = record {
  type = MessageType.position_report_class_a;
  mmsi = 244660000;
  repeat_indicator = 1;
  nav_status = 1;
  rot = negsuc 4;
  sog = 1;
  position_accuracy = true;
  longitude = pos 120000000;
  latitude = negsuc 4;
  cog = 4000;
  true_heading = 1;
  time_stamp = 1;
  manoeuvre_indicator = 3;
  raim = true;
  radio_status = 1;
}

sent_position_report_class_a-IsEncodable : IsPositionReportClassA sent_position_report_class_a
sent_position_report_class_a-IsEncodable = record {
  type_fits = inl refl;
  repeat_indicator_fits = omega arith;
  mmsi_fits = omega arith;
  nav_status_fits = omega arith;
  rot_fits = omega arith;
  sog_fits = omega arith;
  longitude_fits = omega arith;
  latitude_fits = omega arith;
  cog_fits = omega arith;
  true_heading_fits = omega arith;
  time_stamp_fits = omega arith;
  manoeuvre_indicator_fits = omega arith;
  radio_status_fits = omega arith;
}

decode-encode_position_report_class_a_example :
    ComesBack encode_position_report_class_a decode_position_report_class_a
      sent_position_report_class_a MessageType.position_report_class_a
decode-encode_position_report_class_a_example =
    decode-encode_position_report_class_a sent_position_report_class_a
      sent_position_report_class_a-IsEncodable

abbrev sent_sar_position_report : SarPositionReport
sent_sar_position_report = record {
  mmsi = 244660000;
  repeat_indicator = 1;
  altitude = 1;
  sog = 1;
  position_accuracy = true;
  longitude = negsuc 4;
  latitude = pos 1200;
  cog = 1;
  time_stamp = 1;
  regional_reserved = 1;
  dte = true;
  assigned = true;
  raim = true;
  radio_status = 1;
}

sent_sar_position_report-IsEncodable : IsSarPositionReport sent_sar_position_report
sent_sar_position_report-IsEncodable = record {
  repeat_indicator_fits = omega arith;
  mmsi_fits = omega arith;
  altitude_fits = omega arith;
  sog_fits = omega arith;
  longitude_fits = omega arith;
  latitude_fits = omega arith;
  cog_fits = omega arith;
  time_stamp_fits = omega arith;
  regional_reserved_fits = omega arith;
  radio_status_fits = omega arith;
}

decode-encode_sar_position_report_example :
    ComesBack encode_sar_position_report decode_sar_position_report sent_sar_position_report
      MessageType.standard_sar_position_report
decode-encode_sar_position_report_example =
    decode-encode_sar_position_report sent_sar_position_report sent_sar_position_report-IsEncodable

abbrev sent_class_b_position_report : ClassBPositionReport
sent_class_b_position_report = record {
  mmsi = 244660000;
  repeat_indicator = 1;
  sog = 1;
  position_accuracy = true;
  longitude = negsuc 4;
  latitude = pos 1200;
  cog = 1;
  true_heading = 1;
  time_stamp = 1;
  regional_reserved = 1;
  cs_flag = true;
  display_flag = true;
  dsc_flag = true;
  band_flag = true;
  msg22_flag = true;
  assigned = true;
  raim = true;
  radio_status = 1;
}

sent_class_b_position_report-IsEncodable : IsClassBPositionReport sent_class_b_position_report
sent_class_b_position_report-IsEncodable = record {
  repeat_indicator_fits = omega arith;
  mmsi_fits = omega arith;
  sog_fits = omega arith;
  longitude_fits = omega arith;
  latitude_fits = omega arith;
  cog_fits = omega arith;
  true_heading_fits = omega arith;
  time_stamp_fits = omega arith;
  regional_reserved_fits = omega arith;
  radio_status_fits = omega arith;
}

decode-encode_class_b_position_report_example :
    ComesBack encode_class_b_position_report decode_class_b_position_report
      sent_class_b_position_report MessageType.standard_class_b_position_report
decode-encode_class_b_position_report_example =
    decode-encode_class_b_position_report sent_class_b_position_report
      sent_class_b_position_report-IsEncodable

abbrev sent_long_range_broadcast : LongRangeBroadcast
sent_long_range_broadcast = record {
  mmsi = 244660000;
  repeat_indicator = 1;
  position_accuracy = true;
  raim = true;
  nav_status = 1;
  longitude = negsuc 4;
  latitude = pos 1200;
  sog = 1;
  cog = 1;
  gnss_position_status = true;
}

sent_long_range_broadcast-IsEncodable : IsLongRangeBroadcast sent_long_range_broadcast
sent_long_range_broadcast-IsEncodable = record {
  repeat_indicator_fits = omega arith;
  mmsi_fits = omega arith;
  nav_status_fits = omega arith;
  longitude_fits = omega arith;
  latitude_fits = omega arith;
  sog_fits = omega arith;
  cog_fits = omega arith;
}

decode-encode_long_range_broadcast_example :
    ComesBack encode_long_range_broadcast decode_long_range_broadcast sent_long_range_broadcast
      MessageType.position_report_long_range
decode-encode_long_range_broadcast_example =
    decode-encode_long_range_broadcast sent_long_range_broadcast
      sent_long_range_broadcast-IsEncodable
