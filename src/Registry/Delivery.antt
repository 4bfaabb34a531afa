-- ===== src/Registry/Delivery.antt =====
-- A message that is sent comes back from `MessageRegistry::decode` once all decoders are registered.
use pgais.Base.{
  ℕ, ◌≤◌, ◌≡◌, inl, inr, refl, ◌∙◌, arith, List, [], ◌∷◌, Option, none, some, false, get_or,
}
use pgais.Error.{Result, ok}
use pgais.Bitfield.Reader.{bit_length}
use pgais.Payload.{is_empty}
use pgais.Message.{MessageType, type_value}
use pgais.Messages.Transport.{ComesBack}
use pgais.Messages.UtcDateInquiry.Total.{utc_date_inquiry-IsCodec}
use pgais.Messages.PositionReportClassA.Total.{position_report_class_a-IsCodec}
use pgais.Messages.BaseStationReport.Total.{base_station_report-IsCodec}
use pgais.Messages.StaticAndVoyageData.Total.{static_and_voyage_data-IsCodec}
use pgais.Messages.SarPositionReport.Total.{sar_position_report-IsCodec}
use pgais.Messages.ClassBPositionReport.Total.{class_b_position_report-IsCodec}
use pgais.Messages.ExtendedClassBPositionReport.Total.{extended_class_b_position_report-IsCodec}
use pgais.Messages.StaticDataReport.Total.{static_data_report-IsCodec}
use pgais.Messages.LongRangeBroadcast.Total.{long_range_broadcast-IsCodec}
use pgais.Registry.{
  Message, utc_date_inquiry, position_report_class_a, base_station_report, static_and_voyage_data,
  sar_position_report, class_b_position_report, extended_class_b_position_report,
  static_data_report, long_range_broadcast, Decoder, Registry, in_range, dispatch, invoke, decode,
  encode, register_all_decoders, wrap,
}
use pgais.Registry.Sendable.{IsSendable}
use pgais.Registry.Dispatch.{IsRegistry, registered, register_all_decoders_lem}

not_empty : (xs : List ℕ) → 6 ≤ bit_length xs → is_empty xs ≡ false
unfolding is_empty bit_length
not_empty [] h = absurd (omega arith)
not_empty (x ∷ xs) h = refl

-- A payload whose type has a decoder that reads the message is decoded to it.
decode-ComesBack :
    {A : Type 0} {encode_as : A → Result (List ℕ × ℕ)} {decode_as : List ℕ → Result A} {m : A}
    (type : MessageType) (make : A → Message) (ds : Registry)
    (c : ComesBack encode_as decode_as m type)
    → 1 ≤ type_value type
    → type_value type ≤ 27
    → get_or ds (type_value type) none ≡ some (wrap make decode_as)
    → decode ds c.payload c.fill_bits ≡ ok (make m)
unfolding decode dispatch in_range wrap invoke bit_length
decode-ComesBack type make ds c low high found =
    let some_bytes = not_empty c.buf c.starts in ground arith

-- A message is delivered by a registry: `encode` gives a payload, which the registry decodes to it.
abbrev pub Delivered : Registry → Message → Type 0
Delivered ds m =
    (payload : List ℕ) × (fill_bits : ℕ) × (encode m ≡ ok (payload, fill_bits))
    × (decode ds payload fill_bits ≡ ok m)

deliver :
    {A : Type 0} {encode_as : A → Result (List ℕ × ℕ)} {decode_as : List ℕ → Result A} {m : A}
    (type : MessageType) (make : A → Message) (f : ℕ → Option Decoder)
    (c : ComesBack encode_as decode_as m type)
    → encode (make m) ≡ encode_as m
    → 1 ≤ type_value type
    → type_value type ≤ 27
    → get_or (registered f) (type_value type) none ≡ some (wrap make decode_as)
    → Delivered (registered f) (make m)
deliver type make f c e low high found = (
  c.payload,
  c.fill_bits,
  e ∙ c.encoded,
  decode-ComesBack type make (registered f) c low high found,
)

deliver_registered :
    (f : ℕ → Option Decoder) (m : Message) → IsSendable m → Delivered (registered f) m
unfolding IsSendable encode type_value
deliver_registered f (utc_date_inquiry m) h =
    deliver MessageType.utc_date_inquiry utc_date_inquiry f
      (utc_date_inquiry-IsCodec.comes_back m h) refl (omega arith) (omega arith) refl
deliver_registered f (position_report_class_a m) h = elim h.type_fits [
  | inl e ↦
      deliver m.type position_report_class_a f (position_report_class_a-IsCodec.comes_back m h) refl
        (rw e (omega arith)) (rw e (omega arith)) (rw e refl)
  | inr (inl e) ↦
      deliver m.type position_report_class_a f (position_report_class_a-IsCodec.comes_back m h) refl
        (rw e (omega arith)) (rw e (omega arith)) (rw e refl)
  | inr (inr e) ↦
      deliver m.type position_report_class_a f (position_report_class_a-IsCodec.comes_back m h) refl
        (rw e (omega arith)) (rw e (omega arith)) (rw e refl)
]
deliver_registered f (base_station_report m) h = elim h.type_fits [
  | inl e ↦
      deliver m.type base_station_report f (base_station_report-IsCodec.comes_back m h) refl
        (rw e (omega arith)) (rw e (omega arith)) (rw e refl)
  | inr e ↦
      deliver m.type base_station_report f (base_station_report-IsCodec.comes_back m h) refl
        (rw e (omega arith)) (rw e (omega arith)) (rw e refl)
]
deliver_registered f (static_and_voyage_data m) h =
    deliver MessageType.static_and_voyage_data static_and_voyage_data f
      (static_and_voyage_data-IsCodec.comes_back m h) refl (omega arith) (omega arith) refl
deliver_registered f (sar_position_report m) h =
    deliver MessageType.standard_sar_position_report sar_position_report f
      (sar_position_report-IsCodec.comes_back m h) refl (omega arith) (omega arith) refl
deliver_registered f (class_b_position_report m) h =
    deliver MessageType.standard_class_b_position_report class_b_position_report f
      (class_b_position_report-IsCodec.comes_back m h) refl (omega arith) (omega arith) refl
deliver_registered f (extended_class_b_position_report m) h =
    deliver MessageType.extended_class_b_position_report extended_class_b_position_report f
      (extended_class_b_position_report-IsCodec.comes_back m h) refl (omega arith) (omega arith)
      refl
deliver_registered f (static_data_report m) h =
    deliver MessageType.class_b_cs_static_data_report static_data_report f
      (static_data_report-IsCodec.comes_back m h) refl (omega arith) (omega arith) refl
deliver_registered f (long_range_broadcast m) h =
    deliver MessageType.position_report_long_range long_range_broadcast f
      (long_range_broadcast-IsCodec.comes_back m h) refl (omega arith) (omega arith) refl

-- Every message whose values fit their fields is delivered by a registry on which `register_all_decoders`
-- was called, whatever was registered before: `encode` gives a payload and a fill count, and `decode`,
-- given these, returns that very message.
pub decode-encode :
    (ds : Registry) (m : Message)
    → IsRegistry ds
    → IsSendable m
    → Delivered (register_all_decoders ds) m
decode-encode ds m h sendable =
    rw (register_all_decoders_lem ds h).0 (deliver_registered (λ i. get_or ds i none) m sendable)
