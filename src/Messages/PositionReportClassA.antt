-- ===== src/Messages/PositionReportClassA.antt =====
-- src/messages/msg1_3.cpp and include/aislib/messages/msg1_3.h: message types 1 to 3, Class A position report.
-- The record is the class `Msg1_3PositionReportClassA`.
pub mod RoundTrip
pub mod Total
use pgais.Base.{Option, ℕ, List, Bool, ltb, not, ◌==◌, ◌&&◌, if◌then◌else◌, codes}
use pgais.Base.Int.{ℤ}
use pgais.Base.Double.{Double}
use pgais.Error.{Result, ok, fail, fail_with, ◌>>=◌, payload_too_short, message_decode_failure}
use pgais.Bitfield.Reader.{bit_length, read_uint, read_int, read_bool, read_text}
use pgais.Bitfield.Writer.{◌>>◌, write_uint, write_int, write_bool, write_text}
use pgais.Messages.Degrees.{degrees, k_longitude_unavailable, k_latitude_unavailable}
use pgais.Message.{
  MessageType, type_value, position_report_class_a, position_report_class_a_assigned,
  position_report_class_a_response, message_type_from_id, same_type, u8, u16, u32, i8, i32, start,
  finish,
}

pub record PositionReportClassA : Type 0 where
  pub type : MessageType
  pub mmsi : ℕ
  pub repeat_indicator : ℕ
  pub nav_status : ℕ
  pub rot : ℤ
  pub sog : ℕ
  pub position_accuracy : Bool
  pub longitude : ℤ
  pub latitude : ℤ
  pub cog : ℕ
  pub true_heading : ℕ
  pub time_stamp : ℕ
  pub manoeuvre_indicator : ℕ
  pub raim : Bool
  pub radio_status : ℕ

-- The constructor.
abbrev construct :
    MessageType → ℕ → ℕ → ℕ → ℤ → ℕ → Bool → ℤ → ℤ → ℕ → ℕ → ℕ → ℕ → Bool → ℕ → PositionReportClassA
construct type mmsi repeat_indicator nav_status rot sog position_accuracy longitude latitude cog
      true_heading time_stamp manoeuvre_indicator raim radio_status =
    record {
      type = type;
      mmsi = mmsi;
      repeat_indicator = repeat_indicator;
      nav_status = nav_status;
      rot = rot;
      sog = sog;
      position_accuracy = position_accuracy;
      longitude = longitude;
      latitude = latitude;
      cog = cog;
      true_heading = true_heading;
      time_stamp = time_stamp;
      manoeuvre_indicator = manoeuvre_indicator;
      raim = raim;
      radio_status = radio_status;
    }

unfoldable pub decode : List ℕ → Result PositionReportClassA
decode buf = if ltb (bit_length buf) 168 then fail payload_too_short else do
  type_id ← read_uint buf 0 6
  let mt = message_type_from_id (u8 type_id)
  if not (same_type mt position_report_class_a)
        && not (same_type mt position_report_class_a_assigned)
        && not (same_type mt position_report_class_a_response)
      then fail_with message_decode_failure (codes "unexpected message type")
      else do
        ri ← read_uint buf 6 2
        mmsi ← read_uint buf 8 30
        ns ← read_uint buf 38 4
        rot ← read_int buf 42 8
        sog ← read_uint buf 50 10
        pa ← read_uint buf 60 1
        lon ← read_int buf 61 28
        lat ← read_int buf 89 27
        cog ← read_uint buf 116 12
        hdg ← read_uint buf 128 9
        ts ← read_uint buf 137 6
        mi ← read_uint buf 143 2
        raim ← read_uint buf 148 1
        rs ← read_uint buf 149 19
        ok (
            construct mt (u32 mmsi) (u8 ri) (u8 ns) (i8 rot) (u16 sog) (not (pa == 0)) (i32 lon)
              (i32 lat) (u16 cog) (u16 hdg) (u8 ts) (u8 mi) (not (raim == 0)) (u32 rs))

unfoldable pub encode : PositionReportClassA → Result (List ℕ × ℕ)
unfolding type_value
encode m = start do
  write_uint (type_value m.type) 6
  write_uint m.repeat_indicator 2
  write_uint m.mmsi 30
  write_uint m.nav_status 4
  write_int m.rot 8
  write_uint m.sog 10
  write_bool m.position_accuracy
  write_int m.longitude 28
  write_int m.latitude 27
  write_uint m.cog 12
  write_uint m.true_heading 9
  write_uint m.time_stamp 6
  write_uint m.manoeuvre_indicator 2
  write_uint 0 3
  write_bool m.raim
  write_uint m.radio_status 19
  finish 168

-- `type`.
abbrev pub type_of : PositionReportClassA → MessageType
type_of m = m.type

unfoldable pub longitude {ℓ} : {W : Type ℓ} ⦃d : Double W⦄ → PositionReportClassA → Option W
unfolding degrees
longitude m = degrees k_longitude_unavailable 600000 m.longitude

unfoldable pub latitude {ℓ} : {W : Type ℓ} ⦃d : Double W⦄ → PositionReportClassA → Option W
unfolding degrees
latitude m = degrees k_latitude_unavailable 600000 m.latitude
