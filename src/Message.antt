-- ===== src/Message.antt =====
-- include/aislib/message.h and src/core/message.cpp without the registry: the message types, and the
-- conversions and calls that every message class makes.
use pgais.Base.{ℕ, ◌%◌, ◌^◌, List, [], ◌∷◌, Bool, ◌&&◌, leb, ◌==◌, if◌then◌else◌, get_or, codes}
use pgais.Base.Int.{ℤ, cast_int}
use pgais.Error.{Result}
use pgais.Bitfield.Writer.{BitWriter, new_writer}
use pgais.Payload.{encode_payload}

-- `enum class MessageType`, in the order of its values 0 to 27.
pub data MessageType : Type 0 where
  unknown_type : MessageType
  position_report_class_a position_report_class_a_assigned : MessageType
  position_report_class_a_response base_station_report static_and_voyage_data : MessageType
  binary_addressed_message binary_acknowledge binary_broadcast_message : MessageType
  standard_sar_position_report utc_date_inquiry utc_date_response : MessageType
  addressed_safety_message safety_acknowledge safety_broadcast_message : MessageType
  interrogation assignment_mode_command gnss_dgps_broadcast : MessageType
  standard_class_b_position_report extended_class_b_position_report : MessageType
  data_link_management aid_to_navigation_report channel_management : MessageType
  group_assignment_command class_b_cs_static_data_report : MessageType
  single_slot_binary_message multiple_slot_binary_message : MessageType
  position_report_long_range : MessageType

-- The enumerators' values, by their order.
abbrev pub enumerators : List MessageType
enumerators =
    unknown_type ∷ position_report_class_a ∷ position_report_class_a_assigned
    ∷ position_report_class_a_response ∷ base_station_report ∷ static_and_voyage_data
    ∷ binary_addressed_message ∷ binary_acknowledge ∷ binary_broadcast_message
    ∷ standard_sar_position_report ∷ utc_date_inquiry ∷ utc_date_response ∷ addressed_safety_message
    ∷ safety_acknowledge ∷ safety_broadcast_message ∷ interrogation ∷ assignment_mode_command
    ∷ gnss_dgps_broadcast ∷ standard_class_b_position_report ∷ extended_class_b_position_report
    ∷ data_link_management ∷ aid_to_navigation_report ∷ channel_management
    ∷ group_assignment_command ∷ class_b_cs_static_data_report ∷ single_slot_binary_message
    ∷ multiple_slot_binary_message ∷ position_report_long_range ∷ []

unfoldable pub type_value : MessageType → ℕ
type_value unknown_type = 0
type_value position_report_class_a = 1
type_value position_report_class_a_assigned = 2
type_value position_report_class_a_response = 3
type_value base_station_report = 4
type_value static_and_voyage_data = 5
type_value binary_addressed_message = 6
type_value binary_acknowledge = 7
type_value binary_broadcast_message = 8
type_value standard_sar_position_report = 9
type_value utc_date_inquiry = 10
type_value utc_date_response = 11
type_value addressed_safety_message = 12
type_value safety_acknowledge = 13
type_value safety_broadcast_message = 14
type_value interrogation = 15
type_value assignment_mode_command = 16
type_value gnss_dgps_broadcast = 17
type_value standard_class_b_position_report = 18
type_value extended_class_b_position_report = 19
type_value data_link_management = 20
type_value aid_to_navigation_report = 21
type_value channel_management = 22
type_value group_assignment_command = 23
type_value class_b_cs_static_data_report = 24
type_value single_slot_binary_message = 25
type_value multiple_slot_binary_message = 26
type_value position_report_long_range = 27

-- `==` of the enum class.
unfoldable pub same_type : MessageType → MessageType → Bool
unfolding type_value
same_type a b = type_value a == type_value b

unfoldable pub message_type_from_id : ℕ → MessageType
message_type_from_id id =
    if leb 1 id && leb id 27 then get_or enumerators id unknown_type else unknown_type

unfoldable pub message_type_name : MessageType → List ℕ
message_type_name unknown_type = codes "Unknown"
message_type_name position_report_class_a = codes "PositionReportClassA"
message_type_name position_report_class_a_assigned = codes "PositionReportClassA_Assigned"
message_type_name position_report_class_a_response = codes "PositionReportClassA_Response"
message_type_name base_station_report = codes "BaseStationReport"
message_type_name static_and_voyage_data = codes "StaticAndVoyageData"
message_type_name binary_addressed_message = codes "BinaryAddressedMessage"
message_type_name binary_acknowledge = codes "BinaryAcknowledge"
message_type_name binary_broadcast_message = codes "BinaryBroadcastMessage"
message_type_name standard_sar_position_report = codes "StandardSARPositionReport"
message_type_name utc_date_inquiry = codes "UTCDateInquiry"
message_type_name utc_date_response = codes "UTCDateResponse"
message_type_name addressed_safety_message = codes "AddressedSafetyMessage"
message_type_name safety_acknowledge = codes "SafetyAcknowledge"
message_type_name safety_broadcast_message = codes "SafetyBroadcastMessage"
message_type_name interrogation = codes "Interrogation"
message_type_name assignment_mode_command = codes "AssignmentModeCommand"
message_type_name gnss_dgps_broadcast = codes "GNSSDGPSBroadcast"
message_type_name standard_class_b_position_report = codes "StandardClassBPositionReport"
message_type_name extended_class_b_position_report = codes "ExtendedClassBPositionReport"
message_type_name data_link_management = codes "DataLinkManagement"
message_type_name aid_to_navigation_report = codes "AidToNavigationReport"
message_type_name channel_management = codes "ChannelManagement"
message_type_name group_assignment_command = codes "GroupAssignmentCommand"
message_type_name class_b_cs_static_data_report = codes "ClassBCSStaticDataReport"
message_type_name single_slot_binary_message = codes "SingleSlotBinaryMessage"
message_type_name multiple_slot_binary_message = codes "MultipleSlotBinaryMessage"
message_type_name position_report_long_range = codes "PositionReportLongRange"

-- `static_cast` of a read value to a field's type.
abbrev pub u8 : ℕ → ℕ
u8 v = v % 2 ^ 8

abbrev pub u16 : ℕ → ℕ
u16 v = v % 2 ^ 16

abbrev pub u32 : ℕ → ℕ
u32 v = v % 2 ^ 32

abbrev pub i8 : ℤ → ℤ
i8 = cast_int 8

abbrev pub i32 : ℤ → ℤ
i32 = cast_int 32

-- `BitWriter w(length);`, then the writes.
abbrev pub start {ℓ} : {A : Type ℓ} → (BitWriter → Result A) → Result A
start f = f new_writer

-- `return encode_payload(w.buffer(), length);`
abbrev pub finish : ℕ → BitWriter → Result (List ℕ × ℕ)
finish length w = encode_payload w.buf length
