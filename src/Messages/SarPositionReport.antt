-- ===== src/Messages/SarPositionReport.antt =====
-- src/messages/msg09.cpp and include/aislib/messages/msg09.h: message type 9, standard SAR aircraft position report.
-- The record is the class `Msg9SARPositionReport`.
pub mod RoundTrip
pub mod Total
use pgais.Base.{Option, none, some, ℕ, List, Bool, ltb, not, ◌==◌, ◌&&◌, if◌then◌else◌, codes}
use pgais.Base.Int.{ℤ}
use pgais.Base.Double.{Double}
use pgais.Error.{Result, ok, fail, fail_with, ◌>>=◌, payload_too_short, message_decode_failure}
use pgais.Bitfield.Reader.{bit_length, read_uint, read_int, read_bool, read_text}
use pgais.Bitfield.Writer.{◌>>◌, write_uint, write_int, write_bool, write_text}
use pgais.Messages.Degrees.{degrees, k_longitude_unavailable, k_latitude_unavailable}
use pgais.Message.{
  MessageType, type_value, standard_sar_position_report, message_type_from_id, same_type, u8, u16,
  u32, i8, i32, start, finish,
}

pub record SarPositionReport : Type 0 where
  pub mmsi : ℕ
  pub repeat_indicator : ℕ
  pub altitude : ℕ
  pub sog : ℕ
  pub position_accuracy : Bool
  pub longitude : ℤ
  pub latitude : ℤ
  pub cog : ℕ
  pub time_stamp : ℕ
  pub regional_reserved : ℕ
  pub dte : Bool
  pub assigned : Bool
  pub raim : Bool
  pub radio_status : ℕ

-- The constructor.
abbrev construct :
    ℕ → ℕ → ℕ → ℕ → Bool → ℤ → ℤ → ℕ → ℕ → ℕ → Bool → Bool → Bool → ℕ → SarPositionReport
construct mmsi repeat_indicator altitude sog position_accuracy longitude latitude cog time_stamp
      regional_reserved dte assigned raim radio_status =
    record {
      mmsi = mmsi;
      repeat_indicator = repeat_indicator;
      altitude = altitude;
      sog = sog;
      position_accuracy = position_accuracy;
      longitude = longitude;
      latitude = latitude;
      cog = cog;
      time_stamp = time_stamp;
      regional_reserved = regional_reserved;
      dte = dte;
      assigned = assigned;
      raim = raim;
      radio_status = radio_status;
    }

unfoldable pub decode : List ℕ → Result SarPositionReport
decode buf = if ltb (bit_length buf) 168 then fail payload_too_short else do
  type_id ← read_uint buf 0 6
  if not (same_type (message_type_from_id (u8 type_id)) standard_sar_position_report)
      then fail message_decode_failure
      else do
        ri ← read_uint buf 6 2
        mmsi ← read_uint buf 8 30
        alt ← read_uint buf 38 12
        sog ← read_uint buf 50 10
        pa ← read_uint buf 60 1
        lon ← read_int buf 61 28
        lat ← read_int buf 89 27
        cog ← read_uint buf 116 12
        ts ← read_uint buf 128 6
        rr ← read_uint buf 134 6
        dte ← read_uint buf 140 1
        asgn ← read_uint buf 146 1
        raim ← read_uint buf 147 1
        rs ← read_uint buf 148 20
        ok (
            construct (u32 mmsi) (u8 ri) (u16 alt) (u16 sog) (not (pa == 0)) (i32 lon) (i32 lat)
              (u16 cog) (u8 ts) (u8 rr) (not (dte == 0)) (not (asgn == 0)) (not (raim == 0))
              (u32 rs))

unfoldable pub encode : SarPositionReport → Result (List ℕ × ℕ)
unfolding type_value
encode m = start do
  write_uint (type_value standard_sar_position_report) 6
  write_uint m.repeat_indicator 2
  write_uint m.mmsi 30
  write_uint m.altitude 12
  write_uint m.sog 10
  write_bool m.position_accuracy
  write_int m.longitude 28
  write_int m.latitude 27
  write_uint m.cog 12
  write_uint m.time_stamp 6
  write_uint m.regional_reserved 6
  write_bool m.dte
  write_uint 0 5
  write_bool m.assigned
  write_bool m.raim
  write_uint m.radio_status 20
  finish 168

-- `type`.
abbrev pub type_of : SarPositionReport → MessageType
type_of m = standard_sar_position_report

unfoldable pub longitude {ℓ} : {W : Type ℓ} ⦃d : Double W⦄ → SarPositionReport → Option W
unfolding degrees
longitude m = degrees k_longitude_unavailable 600000 m.longitude

unfoldable pub latitude {ℓ} : {W : Type ℓ} ⦃d : Double W⦄ → SarPositionReport → Option W
unfolding degrees
latitude m = degrees k_latitude_unavailable 600000 m.latitude

abbrev pub k_altitude_unavailable : ℕ
k_altitude_unavailable = 4095

unfoldable pub altitude_m : SarPositionReport → Option ℕ
altitude_m m = if m.altitude == k_altitude_unavailable then none else some m.altitude
