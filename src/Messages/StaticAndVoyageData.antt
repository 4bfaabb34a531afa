-- ===== src/Messages/StaticAndVoyageData.antt =====
-- src/messages/msg05.cpp and include/aislib/messages/msg05.h: message type 5, static and voyage related data.
-- The record is the class `Msg5StaticAndVoyageData`.
pub mod RoundTrip
pub mod Total
use pgais.Base.{ℕ, List, Bool, ltb, not, ◌==◌, ◌&&◌, if◌then◌else◌, codes}
use pgais.Base.Int.{ℤ}
use pgais.Error.{Result, ok, fail, fail_with, ◌>>=◌, payload_too_short, message_decode_failure}
use pgais.Bitfield.Reader.{bit_length, read_uint, read_int, read_bool, read_text}
use pgais.Bitfield.Writer.{◌>>◌, write_uint, write_int, write_bool, write_text}
use pgais.Message.{
  MessageType, type_value, static_and_voyage_data, message_type_from_id, same_type, u8, u16, u32,
  i8, i32, start, finish,
}

pub record StaticAndVoyageData : Type 0 where
  pub mmsi : ℕ
  pub repeat_indicator : ℕ
  pub ais_version : ℕ
  pub imo_number : ℕ
  pub call_sign : List ℕ
  pub vessel_name : List ℕ
  pub ship_type : ℕ
  pub dim_to_bow : ℕ
  pub dim_to_stern : ℕ
  pub dim_to_port : ℕ
  pub dim_to_starboard : ℕ
  pub epfd : ℕ
  pub eta_month : ℕ
  pub eta_day : ℕ
  pub eta_hour : ℕ
  pub eta_minute : ℕ
  pub draught : ℕ
  pub destination : List ℕ
  pub dte : Bool

-- The constructor.
abbrev construct :
    ℕ
    → ℕ
    → ℕ
    → ℕ
    → List ℕ
    → List ℕ
    → ℕ
    → ℕ
    → ℕ
    → ℕ
    → ℕ
    → ℕ
    → ℕ
    → ℕ
    → ℕ
    → ℕ
    → ℕ
    → List ℕ
    → Bool
    → StaticAndVoyageData
construct mmsi repeat_indicator ais_version imo_number call_sign vessel_name ship_type dim_to_bow
      dim_to_stern dim_to_port dim_to_starboard epfd eta_month eta_day eta_hour eta_minute draught
      destination dte =
    record {
      mmsi = mmsi;
      repeat_indicator = repeat_indicator;
      ais_version = ais_version;
      imo_number = imo_number;
      call_sign = call_sign;
      vessel_name = vessel_name;
      ship_type = ship_type;
      dim_to_bow = dim_to_bow;
      dim_to_stern = dim_to_stern;
      dim_to_port = dim_to_port;
      dim_to_starboard = dim_to_starboard;
      epfd = epfd;
      eta_month = eta_month;
      eta_day = eta_day;
      eta_hour = eta_hour;
      eta_minute = eta_minute;
      draught = draught;
      destination = destination;
      dte = dte;
    }

unfoldable pub decode : List ℕ → Result StaticAndVoyageData
decode buf = if ltb (bit_length buf) 426 then fail payload_too_short else do
  type_id ← read_uint buf 0 6
  if not (same_type (message_type_from_id (u8 type_id)) static_and_voyage_data)
      then fail_with message_decode_failure (codes "bit reader does not contain a type 5 payload")
      else do
        ri ← read_uint buf 6 2
        mmsi ← read_uint buf 8 30
        ver ← read_uint buf 38 2
        imo ← read_uint buf 40 30
        cs ← read_text buf 70 7
        name ← read_text buf 112 20
        ship ← read_uint buf 232 8
        bow ← read_uint buf 240 9
        stern ← read_uint buf 249 9
        port ← read_uint buf 258 6
        stbd ← read_uint buf 264 6
        epfd ← read_uint buf 270 4
        eta_mo ← read_uint buf 274 4
        eta_dy ← read_uint buf 278 5
        eta_hr ← read_uint buf 283 5
        eta_mn ← read_uint buf 288 6
        drft ← read_uint buf 294 8
        dest ← read_text buf 302 20
        dte ← read_bool buf 422
        ok (
            construct (u32 mmsi) (u8 ri) (u8 ver) (u32 imo) cs name (u8 ship) (u16 bow) (u16 stern)
              (u8 port) (u8 stbd) (u8 epfd) (u8 eta_mo) (u8 eta_dy) (u8 eta_hr) (u8 eta_mn)
              (u8 drft) dest dte)

unfoldable pub encode : StaticAndVoyageData → Result (List ℕ × ℕ)
unfolding type_value
encode m = start do
  write_uint (type_value static_and_voyage_data) 6
  write_uint m.repeat_indicator 2
  write_uint m.mmsi 30
  write_uint m.ais_version 2
  write_uint m.imo_number 30
  write_text m.call_sign 7
  write_text m.vessel_name 20
  write_uint m.ship_type 8
  write_uint m.dim_to_bow 9
  write_uint m.dim_to_stern 9
  write_uint m.dim_to_port 6
  write_uint m.dim_to_starboard 6
  write_uint m.epfd 4
  write_uint m.eta_month 4
  write_uint m.eta_day 5
  write_uint m.eta_hour 5
  write_uint m.eta_minute 6
  write_uint m.draught 8
  write_text m.destination 20
  write_bool m.dte
  write_uint 0 2
  finish 426

-- `type`.
abbrev pub type_of : StaticAndVoyageData → MessageType
type_of m = static_and_voyage_data
