-- ===== src/Registry.antt =====
-- `Message` and `MessageRegistry` of src/core/message.cpp and include/aislib/message.h, and
-- src/registry_init.cpp. The registry is passed as a value; a decoder is a function from the reader's
-- buffer, and `nullptr` is `none`. The `assert` of debug builds is left out.
pub mod Dispatch
pub mod Outcomes
pub mod Sendable
pub mod Delivery
pub mod Soundness
pub mod Reception
pub mod Coordinates
pub mod Availability
pub mod Refinement
use pgais.Base.{
  ℕ, ◌*◌, ◌%◌, ◌^◌, ◌<◌, List, [], ◌∷◌, ◌++◌, Bool, true, false, ◌||◌, not, Option, none, some, ltb,
  ◌==◌, if◌then◌else◌, length, get_or, set, map, replicate, codes,
}
use pgais.Error.{
  Result, ok, err, fail_with, ◌>>=◌, to_string, payload_too_short, message_type_unknown,
  message_type_unsupported,
}
use pgais.Bitfield.Reader.{read_uint}
use pgais.Payload.{is_empty, decode_payload}
use pgais.Message.{MessageType, message_type_from_id, message_type_name, u8}
use pgais.Messages.UtcDateInquiry.{
  UtcDateInquiry, decode as decode_utc_date_inquiry, encode as encode_utc_date_inquiry,
  type_of as type_of_utc_date_inquiry,
}
use pgais.Messages.PositionReportClassA.{
  PositionReportClassA, decode as decode_position_report_class_a,
  encode as encode_position_report_class_a, type_of as type_of_position_report_class_a,
}
use pgais.Messages.BaseStationReport.{
  BaseStationReport, decode as decode_base_station_report, encode as encode_base_station_report,
  type_of as type_of_base_station_report,
}
use pgais.Messages.StaticAndVoyageData.{
  StaticAndVoyageData, decode as decode_static_and_voyage_data,
  encode as encode_static_and_voyage_data, type_of as type_of_static_and_voyage_data,
}
use pgais.Messages.SarPositionReport.{
  SarPositionReport, decode as decode_sar_position_report, encode as encode_sar_position_report,
  type_of as type_of_sar_position_report,
}
use pgais.Messages.ClassBPositionReport.{
  ClassBPositionReport, decode as decode_class_b_position_report,
  encode as encode_class_b_position_report, type_of as type_of_class_b_position_report,
}
use pgais.Messages.ExtendedClassBPositionReport.{
  ExtendedClassBPositionReport, decode as decode_extended_class_b_position_report,
  encode as encode_extended_class_b_position_report,
  type_of as type_of_extended_class_b_position_report,
}
use pgais.Messages.StaticDataReport.{
  StaticDataReport, decode as decode_static_data_report, encode as encode_static_data_report,
  type_of as type_of_static_data_report,
}
use pgais.Messages.LongRangeBroadcast.{
  LongRangeBroadcast, decode as decode_long_range_broadcast, encode as encode_long_range_broadcast,
  type_of as type_of_long_range_broadcast,
}

-- The classes derived from `Message`.
pub data Message : Type 0 where
  utc_date_inquiry : UtcDateInquiry → Message
  position_report_class_a : PositionReportClassA → Message
  base_station_report : BaseStationReport → Message
  static_and_voyage_data : StaticAndVoyageData → Message
  sar_position_report : SarPositionReport → Message
  class_b_position_report : ClassBPositionReport → Message
  extended_class_b_position_report : ExtendedClassBPositionReport → Message
  static_data_report : StaticDataReport → Message
  long_range_broadcast : LongRangeBroadcast → Message

-- `Message::encode`, by the class.
unfoldable pub encode : Message → Result (List ℕ × ℕ)
encode (utc_date_inquiry m) = encode_utc_date_inquiry m
encode (position_report_class_a m) = encode_position_report_class_a m
encode (base_station_report m) = encode_base_station_report m
encode (static_and_voyage_data m) = encode_static_and_voyage_data m
encode (sar_position_report m) = encode_sar_position_report m
encode (class_b_position_report m) = encode_class_b_position_report m
encode (extended_class_b_position_report m) = encode_extended_class_b_position_report m
encode (static_data_report m) = encode_static_data_report m
encode (long_range_broadcast m) = encode_long_range_broadcast m

-- `Message::type`, `mmsi` and `repeat_indicator`.
unfoldable pub type_of : Message → MessageType
type_of (utc_date_inquiry m) = type_of_utc_date_inquiry m
type_of (position_report_class_a m) = type_of_position_report_class_a m
type_of (base_station_report m) = type_of_base_station_report m
type_of (static_and_voyage_data m) = type_of_static_and_voyage_data m
type_of (sar_position_report m) = type_of_sar_position_report m
type_of (class_b_position_report m) = type_of_class_b_position_report m
type_of (extended_class_b_position_report m) = type_of_extended_class_b_position_report m
type_of (static_data_report m) = type_of_static_data_report m
type_of (long_range_broadcast m) = type_of_long_range_broadcast m

unfoldable pub mmsi : Message → ℕ
mmsi (utc_date_inquiry m) = m.mmsi
mmsi (position_report_class_a m) = m.mmsi
mmsi (base_station_report m) = m.mmsi
mmsi (static_and_voyage_data m) = m.mmsi
mmsi (sar_position_report m) = m.mmsi
mmsi (class_b_position_report m) = m.mmsi
mmsi (extended_class_b_position_report m) = m.mmsi
mmsi (static_data_report m) = m.mmsi
mmsi (long_range_broadcast m) = m.mmsi

unfoldable pub repeat_indicator : Message → ℕ
repeat_indicator (utc_date_inquiry m) = m.repeat_indicator
repeat_indicator (position_report_class_a m) = m.repeat_indicator
repeat_indicator (base_station_report m) = m.repeat_indicator
repeat_indicator (static_and_voyage_data m) = m.repeat_indicator
repeat_indicator (sar_position_report m) = m.repeat_indicator
repeat_indicator (class_b_position_report m) = m.repeat_indicator
repeat_indicator (extended_class_b_position_report m) = m.repeat_indicator
repeat_indicator (static_data_report m) = m.repeat_indicator
repeat_indicator (long_range_broadcast m) = m.repeat_indicator

abbrev pub Decoder : Type 0
Decoder = List ℕ → Result Message

-- A decoder's `std::make_unique` of its class.
unfoldable pub wrap {ℓ} : {A : Type ℓ} → (A → Message) → (List ℕ → Result A) → Decoder
wrap make decode_as buf = decode_as buf >>= λ m. ok (make m)

-- The decoders that the headers of the classes declare.
abbrev pub decode_msg1_3 : Decoder
decode_msg1_3 = wrap position_report_class_a decode_position_report_class_a

abbrev pub decode_msg4_11 : Decoder
decode_msg4_11 = wrap base_station_report decode_base_station_report

abbrev pub decode_msg5 : Decoder
decode_msg5 = wrap static_and_voyage_data decode_static_and_voyage_data

abbrev pub decode_msg9 : Decoder
decode_msg9 = wrap sar_position_report decode_sar_position_report

abbrev pub decode_msg10 : Decoder
decode_msg10 = wrap utc_date_inquiry decode_utc_date_inquiry

abbrev pub decode_msg18 : Decoder
decode_msg18 = wrap class_b_position_report decode_class_b_position_report

abbrev pub decode_msg19 : Decoder
decode_msg19 = wrap extended_class_b_position_report decode_extended_class_b_position_report

abbrev pub decode_msg24 : Decoder
decode_msg24 = wrap static_data_report decode_static_data_report

abbrev pub decode_msg27 : Decoder
decode_msg27 = wrap long_range_broadcast decode_long_range_broadcast

-- The array `decoders_` of 28 entries.
abbrev pub Registry : Type 0
Registry = List (Option Decoder)

unfoldable pub new_registry : Registry
new_registry = replicate 28 none

unfoldable pub in_range : ℕ → Bool
in_range type_id = not (type_id == 0 || ltb 27 type_id)

unfoldable pub register_decoder : ℕ → Option Decoder → Registry → Registry
unfolding in_range
register_decoder type_id fn decoders =
    if in_range type_id then set decoders type_id fn else decoders

unfoldable pub is_some {ℓ} : {A : Type ℓ} → Option A → Bool
is_some none = false
is_some (some a) = true

unfoldable pub has_decoder : ℕ → Registry → Bool
unfolding in_range is_some
has_decoder type_id decoders =
    if in_range type_id then is_some (get_or decoders type_id none) else false

unfoldable pub clear : Registry → Registry
clear decoders = map (λ d. none) decoders

-- Step 4 of `decode`: the decoder of the type, if there is one.
unfoldable pub invoke : ℕ → Option Decoder → List ℕ → Result Message
invoke type_id none buf =
    fail_with message_type_unsupported (message_type_name (message_type_from_id type_id))
invoke type_id (some decoder) buf = decoder buf

-- Steps 3 and 4 of `decode`.
unfoldable pub dispatch : Registry → ℕ → List ℕ → Result Message
unfolding in_range invoke
dispatch decoders type_id buf =
    if not (in_range type_id)
    then fail_with message_type_unknown (codes "type_id=" ++ to_string type_id)
    else invoke type_id (get_or decoders type_id none) buf

unfoldable pub decode : Registry → List ℕ → ℕ → Result Message
unfolding dispatch
decode decoders payload fill_bits = do
  bits ← decode_payload payload fill_bits
  if is_empty bits || ltb (length bits * 8 % 2 ^ 64) 6
      then fail_with payload_too_short (codes "cannot read message type field")
      else do type_id ← read_uint bits 0 6; dispatch decoders (u8 type_id) bits

-- src/registry_init.cpp
unfoldable pub register_all_decoders : Registry → Registry
unfolding register_decoder wrap
register_all_decoders reg0 =
    let reg1 = register_decoder 1 (some decode_msg1_3) reg0 in
    let reg2 = register_decoder 2 (some decode_msg1_3) reg1 in
    let reg3 = register_decoder 3 (some decode_msg1_3) reg2 in
    let reg4 = register_decoder 4 (some decode_msg4_11) reg3 in
    let reg5 = register_decoder 11 (some decode_msg4_11) reg4 in
    let reg6 = register_decoder 5 (some decode_msg5) reg5 in
    let reg7 = register_decoder 9 (some decode_msg9) reg6 in
    let reg8 = register_decoder 10 (some decode_msg10) reg7 in
    let reg9 = register_decoder 18 (some decode_msg18) reg8 in
    let reg10 = register_decoder 19 (some decode_msg19) reg9 in
    let reg11 = register_decoder 24 (some decode_msg24) reg10 in
    let reg12 = register_decoder 27 (some decode_msg27) reg11 in reg12
