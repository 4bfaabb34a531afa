-- ===== src/Registry/Soundness.antt =====
-- The decoders that `register_all_decoders` registers answer soundly, by the contracts of the classes.
use pgais.Base.{ℕ, ◌≡◌, ◌⊎◌, inl, inr, refl, List, All, Option, none, some}
use pgais.Error.{Error, Result, ok, err, ◌>>=◌, payload_too_short, message_decode_failure}
use pgais.Bitfield.Reader.{read_uint}
use pgais.Message.{MessageType, type_value}
use pgais.Messages.Codec.{Decodes, short, refused, read, IsCodec}
use pgais.Messages.UtcDateInquiry.Total.{utc_date_inquiry-IsCodec}
use pgais.Messages.PositionReportClassA.Total.{position_report_class_a-IsCodec}
use pgais.Messages.BaseStationReport.Total.{base_station_report-IsCodec}
use pgais.Messages.StaticAndVoyageData.Total.{static_and_voyage_data-IsCodec}
use pgais.Messages.SarPositionReport.Total.{sar_position_report-IsCodec}
use pgais.Messages.ClassBPositionReport.Total.{class_b_position_report-IsCodec}
use pgais.Messages.ExtendedClassBPositionReport.Total.{extended_class_b_position_report-IsCodec}
use pgais.Messages.StaticDataReport.Total.{static_data_report-IsCodec}
use pgais.Messages.LongRangeBroadcast.Total.{long_range_broadcast-IsCodec}
use pgais.Registry.{
  Message, utc_date_inquiry, position_report_class_a, base_station_report, static_and_voyage_data,
  sar_position_report, class_b_position_report, extended_class_b_position_report,
  static_data_report, long_range_broadcast, Decoder, type_of, wrap,
}
use pgais.Registry.Sendable.{IsSendable}
use pgais.Registry.Dispatch.{registered}

-- A pair, written from left to right.
◌also◌ : {A B : Type 0} → A → B → A × B
a also b = (a, b)

infixr 4 ◌also◌
-- What a decoder may return for a buffer: a refusal, or a message that fits its fields and has the type
-- that the buffer names.
pub data Answers (buf : List ℕ) : Result Message → Type 0 where
  refuses :
      (e : Error)
      → (e.code ≡ payload_too_short) ⊎ (e.code ≡ message_decode_failure)
      → Answers buf (err e)
  reads :
      (m : Message)
      → read_uint buf 0 6 ≡ ok (type_value (type_of m))
      → IsSendable m
      → Answers buf (ok m)

unfoldable pub IsSound : Option Decoder → Type 0
IsSound none = Unit {0}
IsSound (some decoder) = (buf : List ℕ) → Answers buf (decoder buf)

wrap-Answers :
    {A : Type 0} {size : ℕ} {type_as : A → MessageType} {IsValid : A → Type 0} (make : A → Message)
    (buf : List ℕ) (r : Result A)
    → ((m : A) → type_of (make m) ≡ type_as m)
    → ((m : A) → IsValid m → IsSendable (make m))
    → Decodes size type_as IsValid buf r
    → Answers buf (r >>= λ m. ok (make m))
wrap-Answers make buf _ types sends (short e c k) = refuses e (inl c)
wrap-Answers make buf _ types sends (refused e c k) = refuses e (inr c)
wrap-Answers make buf _ types sends (read m k t v) = reads (make m) (rw (types m) t) (sends m v)

wrap-IsSound :
    {A : Type 0} {size : ℕ} {type_as : A → MessageType} {IsValid : A → Type 0}
    {encode_as : A → Result (List ℕ × ℕ)} {decode_as : List ℕ → Result A} (make : A → Message)
    → IsCodec size type_as IsValid encode_as decode_as
    → ((m : A) → type_of (make m) ≡ type_as m)
    → ((m : A) → IsValid m → IsSendable (make m))
    → IsSound (some (wrap make decode_as))
unfolding IsSound wrap
wrap-IsSound {decode_as = decode_as} make c types sends buf =
    wrap-Answers make buf (decode_as buf) types sends (c.decodes buf)

pub registered-IsSound : All IsSound (registered (λ i. none))
unfolding type_of IsSendable IsSound
registered-IsSound =
    let utc_date_inquiry_sound =
      wrap-IsSound utc_date_inquiry utc_date_inquiry-IsCodec (λ m. refl) (λ m h. h) in
    let position_report_class_a_sound =
      wrap-IsSound position_report_class_a position_report_class_a-IsCodec (λ m. refl) (λ m h. h) in
    let base_station_report_sound =
      wrap-IsSound base_station_report base_station_report-IsCodec (λ m. refl) (λ m h. h) in
    let static_and_voyage_data_sound =
      wrap-IsSound static_and_voyage_data static_and_voyage_data-IsCodec (λ m. refl) (λ m h. h) in
    let sar_position_report_sound =
      wrap-IsSound sar_position_report sar_position_report-IsCodec (λ m. refl) (λ m h. h) in
    let class_b_position_report_sound =
      wrap-IsSound class_b_position_report class_b_position_report-IsCodec (λ m. refl) (λ m h. h) in
    let extended_class_b_position_report_sound =
      wrap-IsSound extended_class_b_position_report extended_class_b_position_report-IsCodec
        (λ m. refl) (λ m h. h) in
    let static_data_report_sound =
      wrap-IsSound static_data_report static_data_report-IsCodec (λ m. refl) (λ m h. h) in
    let long_range_broadcast_sound =
      wrap-IsSound long_range_broadcast long_range_broadcast-IsCodec (λ m. refl) (λ m h. h) in
    tt also position_report_class_a_sound also position_report_class_a_sound
    also position_report_class_a_sound also base_station_report_sound
    also static_and_voyage_data_sound also tt also tt also tt also sar_position_report_sound
    also utc_date_inquiry_sound also base_station_report_sound also tt also tt also tt also tt
    also tt also tt also class_b_position_report_sound also extended_class_b_position_report_sound
    also tt also tt also tt also tt also static_data_report_sound also tt also tt
    also long_range_broadcast_sound also tt
