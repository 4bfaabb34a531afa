-- ===== src/Messages/UtcDateInquiry.antt =====
-- src/messages/msg10.cpp and include/aislib/messages/msg10.h: message type 10, UTC/date inquiry.
-- The record is the class `Msg10UTCDateInquiry`.
pub mod RoundTrip
pub mod Total
use pgais.Base.{ℕ, List, Bool, ltb, not, ◌==◌, ◌&&◌, if◌then◌else◌, codes}
use pgais.Base.Int.{ℤ}
use pgais.Error.{Result, ok, fail, fail_with, ◌>>=◌, payload_too_short, message_decode_failure}
use pgais.Bitfield.Reader.{bit_length, read_uint, read_int, read_bool, read_text}
use pgais.Bitfield.Writer.{◌>>◌, write_uint, write_int, write_bool, write_text}
use pgais.Message.{
  MessageType, type_value, utc_date_inquiry, message_type_from_id, same_type, u8, u16, u32, i8, i32,
  start, finish,
}

pub record UtcDateInquiry : Type 0 where
  pub mmsi : ℕ
  pub repeat_indicator : ℕ
  pub destination_mmsi : ℕ

-- The constructor.
abbrev construct : ℕ → ℕ → ℕ → UtcDateInquiry
construct mmsi repeat_indicator destination_mmsi = record {
  mmsi = mmsi;
  repeat_indicator = repeat_indicator;
  destination_mmsi = destination_mmsi;
}

unfoldable pub decode : List ℕ → Result UtcDateInquiry
decode buf = if ltb (bit_length buf) 72 then fail payload_too_short else do
  type_id ← read_uint buf 0 6
  if not (same_type (message_type_from_id (u8 type_id)) utc_date_inquiry)
      then fail message_decode_failure
      else do
        ri ← read_uint buf 6 2
        mmsi ← read_uint buf 8 30
        dest ← read_uint buf 40 30
        ok (construct (u32 mmsi) (u8 ri) (u32 dest))

unfoldable pub encode : UtcDateInquiry → Result (List ℕ × ℕ)
unfolding type_value
encode m = start do
  write_uint (type_value utc_date_inquiry) 6
  write_uint m.repeat_indicator 2
  write_uint m.mmsi 30
  write_uint 0 2
  write_uint m.destination_mmsi 30
  write_uint 0 2
  finish 72

-- `type`.
abbrev pub type_of : UtcDateInquiry → MessageType
type_of m = utc_date_inquiry
