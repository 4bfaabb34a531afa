-- ===== src/Messages/StaticAndVoyageData/Total.antt =====
-- Message type 5: `decode` on every buffer, and the class's contract.
use mathlib.Core.Path.{subst}
use pgais.Base.{
  ℕ, ◌^◌, ◌≤◌, ◌<◌, ◌≡◌, inl, inr, refl, sym, arith, List, false, ltb, ltb→lt, not, Bool-cases,
}
use pgais.Error.{ok}
use pgais.Bitfield.Reader.{bit_length, read_uint}
use pgais.Bitfield.Total.{
  ReadsUint, ReadsBool, ReadsText, fetch_uint, fetch_bool, fetch_text, read_uint_total, cut-lt,
}
use pgais.Message.{MessageType, type_value, message_type_from_id, same_type, u8, u16, u32}
use pgais.Messages.Codec.{Decodes, short, refused, read, IsCodec, same_type→eq, type_value-named}
use pgais.Messages.StaticAndVoyageData.{type_of, decode, encode}
use pgais.Messages.StaticAndVoyageData.RoundTrip.{IsEncodable, decode-encode_static_and_voyage_data}

-- What `decode` makes of its reads.
decode-reads :
    (buf : List ℕ) (t : ℕ) (ri : ReadsUint buf 6 2) (mmsi : ReadsUint buf 8 30)
    (ver : ReadsUint buf 38 2) (imo : ReadsUint buf 40 30) (cs : ReadsText buf 70 7)
    (name : ReadsText buf 112 20) (ship : ReadsUint buf 232 8) (bow : ReadsUint buf 240 9)
    (stern : ReadsUint buf 249 9) (port : ReadsUint buf 258 6) (stbd : ReadsUint buf 264 6)
    (epfd : ReadsUint buf 270 4) (eta_mo : ReadsUint buf 274 4) (eta_dy : ReadsUint buf 278 5)
    (eta_hr : ReadsUint buf 283 5) (eta_mn : ReadsUint buf 288 6) (drft : ReadsUint buf 294 8)
    (dest : ReadsText buf 302 20) (dte : ReadsBool buf 422)
    → 426 ≤ bit_length buf
    → ltb (bit_length buf) 426 ≡ false
    → read_uint buf 0 6 ≡ ok t
    → (not (same_type (message_type_from_id (u8 t)) MessageType.static_and_voyage_data)) ≡ false
    → read_uint buf 0 6 ≡ ok (type_value MessageType.static_and_voyage_data)
    → Decodes 426 type_of IsEncodable buf (decode buf)
unfolding decode
decode-reads buf t ri mmsi ver imo cs name ship bow stern port stbd epfd eta_mo eta_dy eta_hr eta_mn
      drft dest dte size long e accepted named =
    let done : decode buf
        ≡ ok (record {
          mmsi = u32 mmsi.value;
          repeat_indicator = u8 ri.value;
          ais_version = u8 ver.value;
          imo_number = u32 imo.value;
          call_sign = cs.value;
          vessel_name = name.value;
          ship_type = u8 ship.value;
          dim_to_bow = u16 bow.value;
          dim_to_stern = u16 stern.value;
          dim_to_port = u8 port.value;
          dim_to_starboard = u8 stbd.value;
          epfd = u8 epfd.value;
          eta_month = u8 eta_mo.value;
          eta_day = u8 eta_dy.value;
          eta_hour = u8 eta_hr.value;
          eta_minute = u8 eta_mn.value;
          draught = u8 drft.value;
          destination = dest.value;
          dte = dte.value;
        }) =
      rw
        (
          long, e, accepted, ri.is, mmsi.is, ver.is, imo.is, cs.is, name.is, ship.is, bow.is,
          stern.is, port.is, stbd.is, epfd.is, eta_mo.is, eta_dy.is, eta_hr.is, eta_mn.is, drft.is,
          dest.is, dte.is,
        )
        refl in
    subst (Decodes 426 type_of IsEncodable buf) (sym done) (
      read _ size named (record {
        repeat_indicator_fits = cut-lt ri.value (2 ^ 8) (2 ^ 2) ri.fits;
        mmsi_fits = cut-lt mmsi.value (2 ^ 32) (2 ^ 30) mmsi.fits;
        ais_version_fits = cut-lt ver.value (2 ^ 8) (2 ^ 2) ver.fits;
        imo_number_fits = cut-lt imo.value (2 ^ 32) (2 ^ 30) imo.fits;
        call_sign_fits = cs.fits;
        vessel_name_fits = name.fits;
        ship_type_fits = cut-lt ship.value (2 ^ 8) (2 ^ 8) ship.fits;
        dim_to_bow_fits = cut-lt bow.value (2 ^ 16) (2 ^ 9) bow.fits;
        dim_to_stern_fits = cut-lt stern.value (2 ^ 16) (2 ^ 9) stern.fits;
        dim_to_port_fits = cut-lt port.value (2 ^ 8) (2 ^ 6) port.fits;
        dim_to_starboard_fits = cut-lt stbd.value (2 ^ 8) (2 ^ 6) stbd.fits;
        epfd_fits = cut-lt epfd.value (2 ^ 8) (2 ^ 4) epfd.fits;
        eta_month_fits = cut-lt eta_mo.value (2 ^ 8) (2 ^ 4) eta_mo.fits;
        eta_day_fits = cut-lt eta_dy.value (2 ^ 8) (2 ^ 5) eta_dy.fits;
        eta_hour_fits = cut-lt eta_hr.value (2 ^ 8) (2 ^ 5) eta_hr.fits;
        eta_minute_fits = cut-lt eta_mn.value (2 ^ 8) (2 ^ 6) eta_mn.fits;
        draught_fits = cut-lt drft.value (2 ^ 8) (2 ^ 8) drft.fits;
        destination_fits = dest.fits;
      }))

decode-accepted :
    (buf : List ℕ) (t : ℕ)
    → 426 ≤ bit_length buf
    → ltb (bit_length buf) 426 ≡ false
    → read_uint buf 0 6 ≡ ok t
    → t < 2 ^ 6
    → (not (same_type (message_type_from_id (u8 t)) MessageType.static_and_voyage_data)) ≡ false
    → Decodes 426 type_of IsEncodable buf (decode buf)
unfolding type_value
decode-accepted buf t size long e lt accepted =
    let known : message_type_from_id (u8 t) ≡ MessageType.static_and_voyage_data =
      same_type→eq (message_type_from_id (u8 t)) MessageType.static_and_voyage_data
        (ground arith) in
    let named =
      type_value-named buf t MessageType.static_and_voyage_data lt e known (omega arith) in
    decode-reads buf t (fetch_uint buf 426 size 6 2 refl) (fetch_uint buf 426 size 8 30 refl)
      (fetch_uint buf 426 size 38 2 refl) (fetch_uint buf 426 size 40 30 refl)
      (fetch_text buf 426 size 70 7 refl) (fetch_text buf 426 size 112 20 refl)
      (fetch_uint buf 426 size 232 8 refl) (fetch_uint buf 426 size 240 9 refl)
      (fetch_uint buf 426 size 249 9 refl) (fetch_uint buf 426 size 258 6 refl)
      (fetch_uint buf 426 size 264 6 refl) (fetch_uint buf 426 size 270 4 refl)
      (fetch_uint buf 426 size 274 4 refl) (fetch_uint buf 426 size 278 5 refl)
      (fetch_uint buf 426 size 283 5 refl) (fetch_uint buf 426 size 288 6 refl)
      (fetch_uint buf 426 size 294 8 refl) (fetch_text buf 426 size 302 20 refl)
      (fetch_bool buf 426 size 422 refl) size long e accepted named

decode-Decodes : (buf : List ℕ) → Decodes 426 type_of IsEncodable buf (decode buf)
unfolding decode
decode-Decodes buf = elim (Bool-cases (ltb (bit_length buf) 426)) [
  | inl e ↦ rw e (short _ refl (ltb→lt (bit_length buf) 426 e))
  | inr long ↦
      let size : 426 ≤ bit_length buf = ground arith in
      let (t, e, lt) = read_uint_total buf 0 6 (omega arith) (omega arith) (omega arith) in
      elim (Bool-cases
        (not (same_type (message_type_from_id (u8 t)) MessageType.static_and_voyage_data))) [
          | inl wrong ↦ rw (long, e, wrong) (refused _ refl size)
          | inr accepted ↦ decode-accepted buf t size long e lt accepted
        ]
]

-- The class keeps to the contract.
pub static_and_voyage_data-IsCodec : IsCodec 426 type_of IsEncodable encode decode
static_and_voyage_data-IsCodec = record {
  comes_back = decode-encode_static_and_voyage_data;
  decodes = decode-Decodes;
}
