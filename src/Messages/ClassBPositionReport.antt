-- ===== src/Messages/ClassBPositionReport.antt =====
-- src/messages/msg18.cpp and include/aislib/messages/msg18.h: message type 18, standard Class B position report.
-- The record is the class `Msg18ClassBPositionReport`.
pub mod RoundTrip
pub mod Total
use pgais.Base.{Option, ℕ, List, Bool, ltb, not, ◌==◌, ◌&&◌, if◌then◌else◌, codes}
use pgais.Base.Int.{ℤ}
use pgais.Base.Double.{Double}
use pgais.Error.{Result, ok, fail, fail_with, ◌>>=◌, payload_too_short, message_decode_failure}
use pgais.Bitfield.Reader.{bit_length, read_uint, read_int, read_bool, read_text}
use pgais.Bitfield.Writer.{◌>>◌, write_uint, write_int, write_bool, write_text}
use pgais.Messages.Degrees.{degrees, k_longitude_unavailable, k_latitude_unavailable}
use pgais.Message.{
  MessageType, type_value, standard_class_b_position_report, message_type_from_id, same_type, u8,
  u16, u32, i8, i32, start, finish,
}

pub record ClassBPositionReport : Type 0 where
  pub mmsi : ℕ
  pub repeat_indicator : ℕ
  pub sog : ℕ
  pub position_accuracy : Bool
  pub longitude : ℤ
  pub latitude : ℤ
  pub cog : ℕ
  pub true_heading : ℕ
  pub time_stamp : ℕ
  pub regional_reserved : ℕ
  pub cs_flag : Bool
  pub display_flag : Bool
  pub dsc_flag : Bool
  pub band_flag : Bool
  pub msg22_flag : Bool
  pub assigned : Bool
  pub raim : Bool
  pub radio_status : ℕ

-- The constructor.
abbrev construct :
    ℕ
    → ℕ
    → ℕ
    → Bool
    → ℤ
    → ℤ
    → ℕ
    → ℕ
    → ℕ
    → ℕ
    → Bool
    → Bool
    → Bool
    → Bool
    → Bool
    → Bool
    → Bool
    → ℕ
    → ClassBPositionReport
construct mmsi repeat_indicator sog position_accuracy longitude latitude cog true_heading time_stamp
      regional_reserved cs_flag display_flag dsc_flag band_flag msg22_flag assigned raim
      radio_status =
    record {
      mmsi = mmsi;
      repeat_indicator = repeat_indicator;
      sog = sog;
      position_accuracy = position_accuracy;
      longitude = longitude;
      latitude = latitude;
      cog = cog;
      true_heading = true_heading;
      time_stamp = time_stamp;
      regional_reserved = regional_reserved;
      cs_flag = cs_flag;
      display_flag = display_flag;
      dsc_flag = dsc_flag;
      band_flag = band_flag;
      msg22_flag = msg22_flag;
      assigned = assigned;
      raim = raim;
      radio_status = radio_status;
    }

unfoldable pub decode : List ℕ → Result ClassBPositionReport
decode buf = if ltb (bit_length buf) 168 then fail payload_too_short else do
  type_id ← read_uint buf 0 6
  if not (same_type (message_type_from_id (u8 type_id)) standard_class_b_position_report)
      then fail_with message_decode_failure (codes "unexpected message type")
      else do
        ri ← read_uint buf 6 2
        mmsi ← read_uint buf 8 30
        sog ← read_uint buf 46 10
        pa ← read_uint buf 56 1
        lon ← read_int buf 57 28
        lat ← read_int buf 85 27
        cog ← read_uint buf 112 12
        hdg ← read_uint buf 124 9
        ts ← read_uint buf 133 6
        rr ← read_uint buf 139 2
        cs ← read_uint buf 141 1
        disp ← read_uint buf 142 1
        dsc ← read_uint buf 143 1
        band ← read_uint buf 144 1
        m22 ← read_uint buf 145 1
        asgn ← read_uint buf 146 1
        raim ← read_uint buf 147 1
        rs ← read_uint buf 148 20
        ok (
            construct (u32 mmsi) (u8 ri) (u16 sog) (not (pa == 0)) (i32 lon) (i32 lat) (u16 cog)
              (u16 hdg) (u8 ts) (u8 rr) (not (cs == 0)) (not (disp == 0)) (not (dsc == 0))
              (not (band == 0)) (not (m22 == 0)) (not (asgn == 0)) (not (raim == 0)) (u32 rs))

unfoldable pub encode : ClassBPositionReport → Result (List ℕ × ℕ)
unfolding type_value
encode m = start do
  write_uint (type_value standard_class_b_position_report) 6
  write_uint m.repeat_indicator 2
  write_uint m.mmsi 30
  write_uint 0 8
  write_uint m.sog 10
  write_bool m.position_accuracy
  write_int m.longitude 28
  write_int m.latitude 27
  write_uint m.cog 12
  write_uint m.true_heading 9
  write_uint m.time_stamp 6
  write_uint m.regional_reserved 2
  write_bool m.cs_flag
  write_bool m.display_flag
  write_bool m.dsc_flag
  write_bool m.band_flag
  write_bool m.msg22_flag
  write_bool m.assigned
  write_bool m.raim
  write_uint m.radio_status 20
  finish 168

-- `type`.
abbrev pub type_of : ClassBPositionReport → MessageType
type_of m = standard_class_b_position_report

unfoldable pub longitude {ℓ} : {W : Type ℓ} ⦃d : Double W⦄ → ClassBPositionReport → Option W
unfolding degrees
longitude m = degrees k_longitude_unavailable 600000 m.longitude

unfoldable pub latitude {ℓ} : {W : Type ℓ} ⦃d : Double W⦄ → ClassBPositionReport → Option W
unfolding degrees
latitude m = degrees k_latitude_unavailable 600000 m.latitude
