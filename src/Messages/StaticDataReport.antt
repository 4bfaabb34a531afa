-- ===== src/Messages/StaticDataReport.antt =====
-- src/messages/msg24.cpp and include/aislib/messages/msg24.h: message type 24, Class B CS static data
-- report, parts A and B. The record is the class `Msg24StaticDataReport`.
pub mod RoundTrip
pub mod Total
use pgais.Base.{ℕ, List, [], ltb, not, ◌==◌, if◌then◌else◌, codes}
use pgais.Error.{Result, ok, fail, fail_with, ◌>>=◌, payload_too_short, message_decode_failure}
use pgais.Bitfield.Reader.{bit_length, read_uint, read_text}
use pgais.Bitfield.Writer.{BitWriter, ◌>>◌, write_uint, write_text}
use pgais.Message.{
  MessageType, type_value, class_b_cs_static_data_report, message_type_from_id, same_type, u8, u16,
  u32, start, finish,
}

pub record StaticDataReport : Type 0 where
  pub mmsi : ℕ
  pub repeat_indicator : ℕ
  pub part_number : ℕ
  pub vessel_name : List ℕ
  pub ship_type : ℕ
  pub vendor_id : List ℕ
  pub call_sign : List ℕ
  pub dim_to_bow : ℕ
  pub dim_to_stern : ℕ
  pub dim_to_port : ℕ
  pub dim_to_starboard : ℕ
  pub epfd : ℕ
  pub mothership_mmsi : ℕ

-- The constructor.
abbrev construct :
    ℕ → ℕ → ℕ → List ℕ → ℕ → List ℕ → List ℕ → ℕ → ℕ → ℕ → ℕ → ℕ → ℕ → StaticDataReport
construct mmsi repeat_indicator part_number vessel_name ship_type vendor_id call_sign dim_to_bow
      dim_to_stern dim_to_port dim_to_starboard epfd mothership_mmsi =
    record {
      mmsi = mmsi;
      repeat_indicator = repeat_indicator;
      part_number = part_number;
      vessel_name = vessel_name;
      ship_type = ship_type;
      vendor_id = vendor_id;
      call_sign = call_sign;
      dim_to_bow = dim_to_bow;
      dim_to_stern = dim_to_stern;
      dim_to_port = dim_to_port;
      dim_to_starboard = dim_to_starboard;
      epfd = epfd;
      mothership_mmsi = mothership_mmsi;
    }

abbrev pub make_part_a : ℕ → ℕ → List ℕ → StaticDataReport
make_part_a mmsi repeat_indicator vessel_name =
    construct mmsi repeat_indicator 0 vessel_name 0 [] [] 0 0 0 0 0 0

abbrev pub make_part_b : ℕ → ℕ → ℕ → List ℕ → List ℕ → ℕ → ℕ → ℕ → ℕ → ℕ → ℕ → StaticDataReport
make_part_b mmsi repeat_indicator ship_type vendor_id call_sign bow stern port starboard epfd
      mothership =
    construct mmsi repeat_indicator 1 [] ship_type vendor_id call_sign bow stern port starboard epfd
      mothership

-- The branch of `decode` for part number 0.
unfoldable pub decode_part_a : List ℕ → ℕ → ℕ → Result StaticDataReport
decode_part_a buf mmsi ri = do name ← read_text buf 40 20; ok (make_part_a (u32 mmsi) (u8 ri) name)

-- The branch for part number 1.
unfoldable pub decode_part_b : List ℕ → ℕ → ℕ → Result StaticDataReport
decode_part_b buf mmsi ri = do
  stype ← read_uint buf 40 8
  vendor ← read_text buf 48 7
  cs ← read_text buf 90 7
  bow ← read_uint buf 132 9
  stern ← read_uint buf 141 9
  port ← read_uint buf 150 6
  stbd ← read_uint buf 156 6
  epfd ← read_uint buf 162 4
  ok (
      make_part_b (u32 mmsi) (u8 ri) (u8 stype) vendor cs (u16 bow) (u16 stern) (u8 port) (u8 stbd)
        (u8 epfd) 0)

unfoldable pub decode : List ℕ → Result StaticDataReport
unfolding decode_part_a decode_part_b
decode buf = if ltb (bit_length buf) 168 then fail payload_too_short else do
  type_id ← read_uint buf 0 6
  if not (same_type (message_type_from_id (u8 type_id)) class_b_cs_static_data_report)
      then fail_with message_decode_failure (codes "unexpected message type")
      else do
        ri ← read_uint buf 6 2
        mmsi ← read_uint buf 8 30
        pn ← read_uint buf 38 2
        if u8 pn == 0
            then decode_part_a buf mmsi ri
            else if u8 pn == 1
            then decode_part_b buf mmsi ri
            else fail_with message_decode_failure (codes "invalid part number in type 24 message")

-- The writes of the two branches of `encode`, each with the call that ends the function.
unfoldable pub encode_part_a : StaticDataReport → BitWriter → Result (List ℕ × ℕ)
encode_part_a m = do write_text m.vessel_name 20; write_uint 0 8; finish 168

unfoldable pub encode_part_b : StaticDataReport → BitWriter → Result (List ℕ × ℕ)
encode_part_b m = do
  write_uint m.ship_type 8
  write_text m.vendor_id 7
  write_text m.call_sign 7
  write_uint m.dim_to_bow 9
  write_uint m.dim_to_stern 9
  write_uint m.dim_to_port 6
  write_uint m.dim_to_starboard 6
  write_uint m.epfd 4
  write_uint 0 2
  finish 168

unfoldable pub encode : StaticDataReport → Result (List ℕ × ℕ)
unfolding type_value encode_part_a encode_part_b
encode m = start do
  write_uint (type_value class_b_cs_static_data_report) 6
  write_uint m.repeat_indicator 2
  write_uint m.mmsi 30
  write_uint m.part_number 2
  if m.part_number == 0 then encode_part_a m else encode_part_b m

-- `type`.
abbrev pub type_of : StaticDataReport → MessageType
type_of m = class_b_cs_static_data_report
