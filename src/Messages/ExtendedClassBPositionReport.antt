-- ===== src/Messages/ExtendedClassBPositionReport.antt =====
-- src/messages/msg19.cpp and include/aislib/messages/msg19.h: message type 19, extended Class B position report.
-- The record is the class `Msg19ExtendedClassBPositionReport`.
pub mod RoundTrip
pub mod Total
use pgais.Base.{Option, ℕ, List, Bool, ltb, not, ◌==◌, ◌&&◌, if◌then◌else◌, codes}
use pgais.Base.Int.{ℤ}
use pgais.Base.Double.{Double}
use pgais.Error.{Result, ok, fail, fail_with, ◌>>=◌, payload_too_short, message_decode_failure}
use pgais.Bitfield.Reader.{bit_length, read_uint, read_int, read_bool, read_text}
use pgais.Bitfield.Writer.{◌>>◌, write_uint, write_int, write_bool, write_text}
use pgais.Messages.Degrees.{degrees, k_longitude_unavailable, k_latitude_unavailable}
use pgais.Message.{
  MessageType, type_value, extended_class_b_position_report, message_type_from_id, same_type, u8,
  u16, u32, i8, i32, start, finish,
}

pub record ExtendedClassBPositionReport : Type 0 where
  pub mmsi : ℕ
  pub repeat_indicator : ℕ
  pub sog : ℕ
  pub position_accuracy : Bool
  pub longitude : ℤ
  pub latitude : ℤ
  pub cog : ℕ
  pub true_heading : ℕ
  pub time_stamp : ℕ
  pub regional_reserved : ℕ
  pub name : List ℕ
  pub ship_type : ℕ
  pub dim_bow : ℕ
  pub dim_stern : ℕ
  pub dim_port : ℕ
  pub dim_starboard : ℕ
  pub epfd_type : ℕ
  pub raim : Bool
  pub dte : Bool
  pub assigned : Bool

-- The constructor.
abbrev construct :
    ℕ
    → ℕ
    → ℕ
    → Bool
    → ℤ
    → ℤ
    → ℕ
    → ℕ
    → ℕ
    → ℕ
    → List ℕ
    → ℕ
    → ℕ
    → ℕ
    → ℕ
    → ℕ
    → ℕ
    → Bool
    → Bool
    → Bool
    → ExtendedClassBPositionReport
construct mmsi repeat_indicator sog position_accuracy longitude latitude cog true_heading time_stamp
      regional_reserved name ship_type dim_bow dim_stern dim_port dim_starboard epfd_type raim dte
      assigned =
    record {
      mmsi = mmsi;
      repeat_indicator = repeat_indicator;
      sog = sog;
      position_accuracy = position_accuracy;
      longitude = longitude;
      latitude = latitude;
      cog = cog;
      true_heading = true_heading;
      time_stamp = time_stamp;
      regional_reserved = regional_reserved;
      name = name;
      ship_type = ship_type;
      dim_bow = dim_bow;
      dim_stern = dim_stern;
      dim_port = dim_port;
      dim_starboard = dim_starboard;
      epfd_type = epfd_type;
      raim = raim;
      dte = dte;
      assigned = assigned;
    }

unfoldable pub decode : List ℕ → Result ExtendedClassBPositionReport
decode buf = if ltb (bit_length buf) 312 then fail payload_too_short else do
  type_id ← read_uint buf 0 6
  if not (same_type (message_type_from_id (u8 type_id)) extended_class_b_position_report)
      then fail message_decode_failure
      else do
        ri ← read_uint buf 6 2
        mmsi ← read_uint buf 8 30
        sog ← read_uint buf 48 10
        pa ← read_uint buf 58 1
        lon ← read_int buf 59 28
        lat ← read_int buf 87 27
        cog ← read_uint buf 114 12
        hdg ← read_uint buf 126 9
        ts ← read_uint buf 135 6
        rr ← read_uint buf 141 4
        name ← read_text buf 145 20
        stype ← read_uint buf 265 8
        bow ← read_uint buf 273 9
        stern ← read_uint buf 282 9
        port ← read_uint buf 291 6
        stbd ← read_uint buf 297 6
        epfd ← read_uint buf 303 4
        raim ← read_uint buf 307 1
        dte ← read_uint buf 308 1
        asgn ← read_uint buf 309 1
        ok (
            construct (u32 mmsi) (u8 ri) (u16 sog) (not (pa == 0)) (i32 lon) (i32 lat) (u16 cog)
              (u16 hdg) (u8 ts) (u8 rr) name (u8 stype) (u16 bow) (u16 stern) (u8 port) (u8 stbd)
              (u8 epfd) (not (raim == 0)) (not (dte == 0)) (not (asgn == 0)))

unfoldable pub encode : ExtendedClassBPositionReport → Result (List ℕ × ℕ)
unfolding type_value
encode m = start do
  write_uint (type_value extended_class_b_position_report) 6
  write_uint m.repeat_indicator 2
  write_uint m.mmsi 30
  write_uint 0 10
  write_uint m.sog 10
  write_bool m.position_accuracy
  write_int m.longitude 28
  write_int m.latitude 27
  write_uint m.cog 12
  write_uint m.true_heading 9
  write_uint m.time_stamp 6
  write_uint m.regional_reserved 4
  write_text m.name 20
  write_uint m.ship_type 8
  write_uint m.dim_bow 9
  write_uint m.dim_stern 9
  write_uint m.dim_port 6
  write_uint m.dim_starboard 6
  write_uint m.epfd_type 4
  write_bool m.raim
  write_bool m.dte
  write_bool m.assigned
  write_uint 0 2
  finish 312

-- `type`.
abbrev pub type_of : ExtendedClassBPositionReport → MessageType
type_of m = extended_class_b_position_report

unfoldable pub longitude {ℓ} : {W : Type ℓ} ⦃d : Double W⦄ → ExtendedClassBPositionReport → Option W
unfolding degrees
longitude m = degrees k_longitude_unavailable 600000 m.longitude

unfoldable pub latitude {ℓ} : {W : Type ℓ} ⦃d : Double W⦄ → ExtendedClassBPositionReport → Option W
unfolding degrees
latitude m = degrees k_latitude_unavailable 600000 m.latitude
