-- ===== src/Messages/BaseStationReport.antt =====
-- src/messages/msg4_11.cpp and include/aislib/messages/msg4_11.h: message types 4 and 11, base station report and UTC/date response.
-- The record is the class `Msg4_11BaseStationReport`.
pub mod RoundTrip
pub mod Total
use pgais.Base.{Option, ℕ, List, Bool, ltb, not, ◌==◌, ◌&&◌, if◌then◌else◌, codes}
use pgais.Base.Int.{ℤ}
use pgais.Base.Double.{Double}
use pgais.Error.{Result, ok, fail, fail_with, ◌>>=◌, payload_too_short, message_decode_failure}
use pgais.Bitfield.Reader.{bit_length, read_uint, read_int, read_bool, read_text}
use pgais.Bitfield.Writer.{◌>>◌, write_uint, write_int, write_bool, write_text}
use pgais.Messages.Degrees.{degrees, k_longitude_unavailable, k_latitude_unavailable}
use pgais.Message.{
  MessageType, type_value, base_station_report, utc_date_response, message_type_from_id, same_type,
  u8, u16, u32, i8, i32, start, finish,
}

pub record BaseStationReport : Type 0 where
  pub type : MessageType
  pub mmsi : ℕ
  pub repeat_indicator : ℕ
  pub utc_year : ℕ
  pub utc_month : ℕ
  pub utc_day : ℕ
  pub utc_hour : ℕ
  pub utc_minute : ℕ
  pub utc_second : ℕ
  pub position_accuracy : Bool
  pub longitude : ℤ
  pub latitude : ℤ
  pub epfd : ℕ
  pub raim : Bool
  pub radio_status : ℕ

-- The constructor.
abbrev construct :
    MessageType → ℕ → ℕ → ℕ → ℕ → ℕ → ℕ → ℕ → ℕ → Bool → ℤ → ℤ → ℕ → Bool → ℕ → BaseStationReport
construct type mmsi repeat_indicator utc_year utc_month utc_day utc_hour utc_minute utc_second
      position_accuracy longitude latitude epfd raim radio_status =
    record {
      type = type;
      mmsi = mmsi;
      repeat_indicator = repeat_indicator;
      utc_year = utc_year;
      utc_month = utc_month;
      utc_day = utc_day;
      utc_hour = utc_hour;
      utc_minute = utc_minute;
      utc_second = utc_second;
      position_accuracy = position_accuracy;
      longitude = longitude;
      latitude = latitude;
      epfd = epfd;
      raim = raim;
      radio_status = radio_status;
    }

unfoldable pub decode : List ℕ → Result BaseStationReport
decode buf = if ltb (bit_length buf) 168 then fail payload_too_short else do
  type_id ← read_uint buf 0 6
  let mt = message_type_from_id (u8 type_id)
  if not (same_type mt base_station_report) && not (same_type mt utc_date_response)
      then fail_with message_decode_failure (codes "unexpected message type")
      else do
        ri ← read_uint buf 6 2
        mmsi ← read_uint buf 8 30
        year ← read_uint buf 38 14
        month ← read_uint buf 52 4
        day ← read_uint buf 56 5
        hour ← read_uint buf 61 5
        min ← read_uint buf 66 6
        sec ← read_uint buf 72 6
        pa ← read_uint buf 78 1
        lon ← read_int buf 79 28
        lat ← read_int buf 107 27
        epfd ← read_uint buf 134 4
        raim ← read_uint buf 148 1
        rs ← read_uint buf 149 19
        ok (
            construct mt (u32 mmsi) (u8 ri) (u16 year) (u8 month) (u8 day) (u8 hour) (u8 min)
              (u8 sec) (not (pa == 0)) (i32 lon) (i32 lat) (u8 epfd) (not (raim == 0)) (u32 rs))

unfoldable pub encode : BaseStationReport → Result (List ℕ × ℕ)
unfolding type_value
encode m = start do
  write_uint (type_value m.type) 6
  write_uint m.repeat_indicator 2
  write_uint m.mmsi 30
  write_uint m.utc_year 14
  write_uint m.utc_month 4
  write_uint m.utc_day 5
  write_uint m.utc_hour 5
  write_uint m.utc_minute 6
  write_uint m.utc_second 6
  write_bool m.position_accuracy
  write_int m.longitude 28
  write_int m.latitude 27
  write_uint m.epfd 4
  write_uint 0 10
  write_bool m.raim
  write_uint m.radio_status 19
  finish 168

-- `type`.
abbrev pub type_of : BaseStationReport → MessageType
type_of m = m.type

unfoldable pub longitude {ℓ} : {W : Type ℓ} ⦃d : Double W⦄ → BaseStationReport → Option W
unfolding degrees
longitude m = degrees k_longitude_unavailable 600000 m.longitude

unfoldable pub latitude {ℓ} : {W : Type ℓ} ⦃d : Double W⦄ → BaseStationReport → Option W
unfolding degrees
latitude m = degrees k_latitude_unavailable 600000 m.latitude
