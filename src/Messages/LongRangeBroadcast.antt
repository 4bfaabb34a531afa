-- ===== src/Messages/LongRangeBroadcast.antt =====
-- src/messages/msg27.cpp and include/aislib/messages/msg27.h: message type 27, long-range broadcast.
-- The record is the class `Msg27LongRangeBroadcast`.
pub mod RoundTrip
pub mod Total
use pgais.Base.{Option, ℕ, List, Bool, ltb, not, ◌==◌, ◌&&◌, if◌then◌else◌, codes}
use pgais.Base.Int.{ℤ}
use pgais.Base.Double.{Double}
use pgais.Error.{Result, ok, fail, fail_with, ◌>>=◌, payload_too_short, message_decode_failure}
use pgais.Bitfield.Reader.{bit_length, read_uint, read_int, read_bool, read_text}
use pgais.Bitfield.Writer.{◌>>◌, write_uint, write_int, write_bool, write_text}
use pgais.Messages.Degrees.{degrees, k_msg27_longitude_unavailable, k_msg27_latitude_unavailable}
use pgais.Message.{
  MessageType, type_value, position_report_long_range, message_type_from_id, same_type, u8, u16,
  u32, i8, i32, start, finish,
}

pub record LongRangeBroadcast : Type 0 where
  pub mmsi : ℕ
  pub repeat_indicator : ℕ
  pub position_accuracy : Bool
  pub raim : Bool
  pub nav_status : ℕ
  pub longitude : ℤ
  pub latitude : ℤ
  pub sog : ℕ
  pub cog : ℕ
  pub gnss_position_status : Bool

-- The constructor.
abbrev construct : ℕ → ℕ → Bool → Bool → ℕ → ℤ → ℤ → ℕ → ℕ → Bool → LongRangeBroadcast
construct mmsi repeat_indicator position_accuracy raim nav_status longitude latitude sog cog
      gnss_position_status =
    record {
      mmsi = mmsi;
      repeat_indicator = repeat_indicator;
      position_accuracy = position_accuracy;
      raim = raim;
      nav_status = nav_status;
      longitude = longitude;
      latitude = latitude;
      sog = sog;
      cog = cog;
      gnss_position_status = gnss_position_status;
    }

unfoldable pub decode : List ℕ → Result LongRangeBroadcast
decode buf = if ltb (bit_length buf) 96 then fail payload_too_short else do
  type_id ← read_uint buf 0 6
  if not (same_type (message_type_from_id (u8 type_id)) position_report_long_range)
      then fail message_decode_failure
      else do
        ri ← read_uint buf 6 2
        mmsi ← read_uint buf 8 30
        pa ← read_uint buf 38 1
        raim ← read_uint buf 39 1
        nav ← read_uint buf 40 4
        lon ← read_int buf 44 18
        lat ← read_int buf 62 17
        sog ← read_uint buf 79 6
        cog ← read_uint buf 85 9
        gnss ← read_uint buf 94 1
        ok (
            construct (u32 mmsi) (u8 ri) (not (pa == 0)) (not (raim == 0)) (u8 nav) (i32 lon)
              (i32 lat) (u8 sog) (u16 cog) (not (gnss == 0)))

unfoldable pub encode : LongRangeBroadcast → Result (List ℕ × ℕ)
unfolding type_value
encode m = start do
  write_uint (type_value position_report_long_range) 6
  write_uint m.repeat_indicator 2
  write_uint m.mmsi 30
  write_bool m.position_accuracy
  write_bool m.raim
  write_uint m.nav_status 4
  write_int m.longitude 18
  write_int m.latitude 17
  write_uint m.sog 6
  write_uint m.cog 9
  write_bool m.gnss_position_status
  write_uint 0 1
  finish 96

-- `type`.
abbrev pub type_of : LongRangeBroadcast → MessageType
type_of m = position_report_long_range

unfoldable pub longitude {ℓ} : {W : Type ℓ} ⦃d : Double W⦄ → LongRangeBroadcast → Option W
unfolding degrees
longitude m = degrees k_msg27_longitude_unavailable 10 m.longitude

unfoldable pub latitude {ℓ} : {W : Type ℓ} ⦃d : Double W⦄ → LongRangeBroadcast → Option W
unfolding degrees
latitude m = degrees k_msg27_latitude_unavailable 10 m.latitude
