-- ===== src/Registry/Sendable.antt =====
-- The messages that can be sent, by the class.
use pgais.Messages.UtcDateInquiry.RoundTrip.{IsEncodable as IsUtcDateInquiry}
use pgais.Messages.PositionReportClassA.RoundTrip.{IsEncodable as IsPositionReportClassA}
use pgais.Messages.BaseStationReport.RoundTrip.{IsEncodable as IsBaseStationReport}
use pgais.Messages.StaticAndVoyageData.RoundTrip.{IsEncodable as IsStaticAndVoyageData}
use pgais.Messages.SarPositionReport.RoundTrip.{IsEncodable as IsSarPositionReport}
use pgais.Messages.ClassBPositionReport.RoundTrip.{IsEncodable as IsClassBPositionReport}
use pgais.Messages.ExtendedClassBPositionReport.RoundTrip.{
  IsEncodable as IsExtendedClassBPositionReport,
}
use pgais.Messages.StaticDataReport.Total.{IsEncodable as IsStaticDataReport}
use pgais.Messages.LongRangeBroadcast.RoundTrip.{IsEncodable as IsLongRangeBroadcast}
use pgais.Registry.{
  Message, utc_date_inquiry, position_report_class_a, base_station_report, static_and_voyage_data,
  sar_position_report, class_b_position_report, extended_class_b_position_report,
  static_data_report, long_range_broadcast,
}

-- The messages whose values fit their fields.
unfoldable pub IsSendable : Message → Type 0
IsSendable (utc_date_inquiry m) = IsUtcDateInquiry m
IsSendable (position_report_class_a m) = IsPositionReportClassA m
IsSendable (base_station_report m) = IsBaseStationReport m
IsSendable (static_and_voyage_data m) = IsStaticAndVoyageData m
IsSendable (sar_position_report m) = IsSarPositionReport m
IsSendable (class_b_position_report m) = IsClassBPositionReport m
IsSendable (extended_class_b_position_report m) = IsExtendedClassBPositionReport m
IsSendable (static_data_report m) = IsStaticDataReport m
IsSendable (long_range_broadcast m) = IsLongRangeBroadcast m
