-- ===== src/Examples/OtherReports.antt =====
-- Messages of src/messages with typical values, sent and read back.
use pgais.Base.{inl, refl, arith, true, codes}
use pgais.Base.Int.{pos, negsuc}
use pgais.Message.{MessageType}
use pgais.Messages.Transport.{ComesBack}
use pgais.Messages.UtcDateInquiry.{
  UtcDateInquiry, decode as decode_utc_date_inquiry, encode as encode_utc_date_inquiry,
}
use pgais.Messages.UtcDateInquiry.RoundTrip.{
  IsEncodable as IsUtcDateInquiry, decode-encode_utc_date_inquiry,
}
use pgais.Messages.BaseStationReport.{
  BaseStationReport, decode as decode_base_station_report, encode as encode_base_station_report,
}
use pgais.Messages.BaseStationReport.RoundTrip.{
  IsEncodable as IsBaseStationReport, decode-encode_base_station_report,
}
use pgais.Messages.StaticAndVoyageData.{
  StaticAndVoyageData, decode as decode_static_and_voyage_data,
  encode as encode_static_and_voyage_data,
}
use pgais.Messages.StaticAndVoyageData.RoundTrip.{
  IsEncodable as IsStaticAndVoyageData, decode-encode_static_and_voyage_data,
}
use pgais.Messages.ExtendedClassBPositionReport.{
  ExtendedClassBPositionReport, decode as decode_extended_class_b_position_report,
  encode as encode_extended_class_b_position_report,
}
use pgais.Messages.ExtendedClassBPositionReport.RoundTrip.{
  IsEncodable as IsExtendedClassBPositionReport, decode-encode_extended_class_b_position_report,
}

abbrev pub sent_utc_date_inquiry : UtcDateInquiry
sent_utc_date_inquiry = record {
  mmsi = 244660000;
  repeat_indicator = 1;
  destination_mmsi = 244660000;
}

pub sent_utc_date_inquiry-IsEncodable : IsUtcDateInquiry sent_utc_date_inquiry
sent_utc_date_inquiry-IsEncodable = record {
  repeat_indicator_fits = omega arith;
  mmsi_fits = omega arith;
  destination_mmsi_fits = omega arith;
}

decode-encode_utc_date_inquiry_example :
    ComesBack encode_utc_date_inquiry decode_utc_date_inquiry sent_utc_date_inquiry
      MessageType.utc_date_inquiry
decode-encode_utc_date_inquiry_example =
    decode-encode_utc_date_inquiry sent_utc_date_inquiry sent_utc_date_inquiry-IsEncodable

abbrev sent_base_station_report : BaseStationReport
sent_base_station_report = record {
  type = MessageType.base_station_report;
  mmsi = 244660000;
  repeat_indicator = 1;
  utc_year = 1;
  utc_month = 1;
  utc_day = 1;
  utc_hour = 1;
  utc_minute = 1;
  utc_second = 1;
  position_accuracy = true;
  longitude = negsuc 4;
  latitude = pos 1200;
  epfd = 1;
  raim = true;
  radio_status = 1;
}

sent_base_station_report-IsEncodable : IsBaseStationReport sent_base_station_report
sent_base_station_report-IsEncodable = record {
  type_fits = inl refl;
  repeat_indicator_fits = omega arith;
  mmsi_fits = omega arith;
  utc_year_fits = omega arith;
  utc_month_fits = omega arith;
  utc_day_fits = omega arith;
  utc_hour_fits = omega arith;
  utc_minute_fits = omega arith;
  utc_second_fits = omega arith;
  longitude_fits = omega arith;
  latitude_fits = omega arith;
  epfd_fits = omega arith;
  radio_status_fits = omega arith;
}

decode-encode_base_station_report_example :
    ComesBack encode_base_station_report decode_base_station_report sent_base_station_report
      MessageType.base_station_report
decode-encode_base_station_report_example =
    decode-encode_base_station_report sent_base_station_report sent_base_station_report-IsEncodable

abbrev pub sent_static_and_voyage_data : StaticAndVoyageData
sent_static_and_voyage_data = record {
  mmsi = 244660000;
  repeat_indicator = 1;
  ais_version = 1;
  imo_number = 1;
  call_sign = codes "AB";
  vessel_name = codes "AB";
  ship_type = 1;
  dim_to_bow = 1;
  dim_to_stern = 1;
  dim_to_port = 1;
  dim_to_starboard = 1;
  epfd = 1;
  eta_month = 1;
  eta_day = 1;
  eta_hour = 1;
  eta_minute = 1;
  draught = 1;
  destination = codes "AB";
  dte = true;
}

pub sent_static_and_voyage_data-IsEncodable : IsStaticAndVoyageData sent_static_and_voyage_data
sent_static_and_voyage_data-IsEncodable = record {
  repeat_indicator_fits = omega arith;
  mmsi_fits = omega arith;
  ais_version_fits = omega arith;
  imo_number_fits = omega arith;
  call_sign_fits =
      (((omega arith, omega arith), ((omega arith, omega arith), tt)), refl, omega arith);
  vessel_name_fits =
      (((omega arith, omega arith), ((omega arith, omega arith), tt)), refl, omega arith);
  ship_type_fits = omega arith;
  dim_to_bow_fits = omega arith;
  dim_to_stern_fits = omega arith;
  dim_to_port_fits = omega arith;
  dim_to_starboard_fits = omega arith;
  epfd_fits = omega arith;
  eta_month_fits = omega arith;
  eta_day_fits = omega arith;
  eta_hour_fits = omega arith;
  eta_minute_fits = omega arith;
  draught_fits = omega arith;
  destination_fits =
      (((omega arith, omega arith), ((omega arith, omega arith), tt)), refl, omega arith);
}

decode-encode_static_and_voyage_data_example :
    ComesBack encode_static_and_voyage_data decode_static_and_voyage_data
      sent_static_and_voyage_data MessageType.static_and_voyage_data
decode-encode_static_and_voyage_data_example =
    decode-encode_static_and_voyage_data sent_static_and_voyage_data
      sent_static_and_voyage_data-IsEncodable

abbrev sent_extended_class_b_position_report : ExtendedClassBPositionReport
sent_extended_class_b_position_report = record {
  mmsi = 244660000;
  repeat_indicator = 1;
  sog = 1;
  position_accuracy = true;
  longitude = negsuc 4;
  latitude = pos 1200;
  cog = 1;
  true_heading = 1;
  time_stamp = 1;
  regional_reserved = 1;
  name = codes "AB";
  ship_type = 1;
  dim_bow = 1;
  dim_stern = 1;
  dim_port = 1;
  dim_starboard = 1;
  epfd_type = 1;
  raim = true;
  dte = true;
  assigned = true;
}

sent_extended_class_b_position_report-IsEncodable :
    IsExtendedClassBPositionReport sent_extended_class_b_position_report
sent_extended_class_b_position_report-IsEncodable = record {
  repeat_indicator_fits = omega arith;
  mmsi_fits = omega arith;
  sog_fits = omega arith;
  longitude_fits = omega arith;
  latitude_fits = omega arith;
  cog_fits = omega arith;
  true_heading_fits = omega arith;
  time_stamp_fits = omega arith;
  regional_reserved_fits = omega arith;
  name_fits = (((omega arith, omega arith), ((omega arith, omega arith), tt)), refl, omega arith);
  ship_type_fits = omega arith;
  dim_bow_fits = omega arith;
  dim_stern_fits = omega arith;
  dim_port_fits = omega arith;
  dim_starboard_fits = omega arith;
  epfd_type_fits = omega arith;
}

decode-encode_extended_class_b_position_report_example :
    ComesBack encode_extended_class_b_position_report decode_extended_class_b_position_report
      sent_extended_class_b_position_report MessageType.extended_class_b_position_report
decode-encode_extended_class_b_position_report_example =
    decode-encode_extended_class_b_position_report sent_extended_class_b_position_report
      sent_extended_class_b_position_report-IsEncodable
