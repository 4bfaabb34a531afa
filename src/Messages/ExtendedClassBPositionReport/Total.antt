-- ===== src/Messages/ExtendedClassBPositionReport/Total.antt =====
-- Message type 19: `decode` on every buffer, and the class's contract.
use mathlib.Core.Path.{subst}
use pgais.Base.{
  ℕ, ◌^◌, ◌≤◌, ◌<◌, ◌≡◌, inl, inr, refl, sym, arith, List, false, ltb, ltb→lt, not, ◌==◌,
  Bool-cases,
}
use pgais.Error.{ok}
use pgais.Bitfield.Reader.{bit_length, read_uint}
use pgais.Bitfield.Total.{
  ReadsUint, ReadsInt, ReadsText, fetch_uint, fetch_int, fetch_text, read_uint_total, cut-lt,
}
use pgais.Message.{MessageType, type_value, message_type_from_id, same_type, u8, u16, u32, i32}
use pgais.Messages.Transport.{cast_int-Fits}
use pgais.Messages.Codec.{Decodes, short, refused, read, IsCodec, same_type→eq, type_value-named}
use pgais.Messages.ExtendedClassBPositionReport.{type_of, decode, encode}
use pgais.Messages.ExtendedClassBPositionReport.RoundTrip.{
  IsEncodable, decode-encode_extended_class_b_position_report,
}

-- What `decode` makes of its reads.
decode-reads :
    (buf : List ℕ) (t : ℕ) (ri : ReadsUint buf 6 2) (mmsi : ReadsUint buf 8 30)
    (sog : ReadsUint buf 48 10) (pa : ReadsUint buf 58 1) (lon : ReadsInt buf 59 28)
    (lat : ReadsInt buf 87 27) (cog : ReadsUint buf 114 12) (hdg : ReadsUint buf 126 9)
    (ts : ReadsUint buf 135 6) (rr : ReadsUint buf 141 4) (name : ReadsText buf 145 20)
    (stype : ReadsUint buf 265 8) (bow : ReadsUint buf 273 9) (stern : ReadsUint buf 282 9)
    (port : ReadsUint buf 291 6) (stbd : ReadsUint buf 297 6) (epfd : ReadsUint buf 303 4)
    (raim : ReadsUint buf 307 1) (dte : ReadsUint buf 308 1) (asgn : ReadsUint buf 309 1)
    → 312 ≤ bit_length buf
    → ltb (bit_length buf) 312 ≡ false
    → read_uint buf 0 6 ≡ ok t
    → (not (same_type (message_type_from_id (u8 t)) MessageType.extended_class_b_position_report))
      ≡ false
    → read_uint buf 0 6 ≡ ok (type_value MessageType.extended_class_b_position_report)
    → Decodes 312 type_of IsEncodable buf (decode buf)
unfolding decode
decode-reads buf t ri mmsi sog pa lon lat cog hdg ts rr name stype bow stern port stbd epfd raim dte
      asgn size long e accepted named =
    let done : decode buf
        ≡ ok (record {
          mmsi = u32 mmsi.value;
          repeat_indicator = u8 ri.value;
          sog = u16 sog.value;
          position_accuracy = not (pa.value == 0);
          longitude = i32 lon.value;
          latitude = i32 lat.value;
          cog = u16 cog.value;
          true_heading = u16 hdg.value;
          time_stamp = u8 ts.value;
          regional_reserved = u8 rr.value;
          name = name.value;
          ship_type = u8 stype.value;
          dim_bow = u16 bow.value;
          dim_stern = u16 stern.value;
          dim_port = u8 port.value;
          dim_starboard = u8 stbd.value;
          epfd_type = u8 epfd.value;
          raim = not (raim.value == 0);
          dte = not (dte.value == 0);
          assigned = not (asgn.value == 0);
        }) =
      rw
        (
          long, e, accepted, ri.is, mmsi.is, sog.is, pa.is, lon.is, lat.is, cog.is, hdg.is, ts.is,
          rr.is, name.is, stype.is, bow.is, stern.is, port.is, stbd.is, epfd.is, raim.is, dte.is,
          asgn.is,
        )
        refl in
    subst (Decodes 312 type_of IsEncodable buf) (sym done) (
      read _ size named (record {
        repeat_indicator_fits = cut-lt ri.value (2 ^ 8) (2 ^ 2) ri.fits;
        mmsi_fits = cut-lt mmsi.value (2 ^ 32) (2 ^ 30) mmsi.fits;
        sog_fits = cut-lt sog.value (2 ^ 16) (2 ^ 10) sog.fits;
        longitude_fits =
            rw (cast_int-Fits 28 32 lon.value (omega arith) (omega arith) lon.fits) lon.fits;
        latitude_fits =
            rw (cast_int-Fits 27 32 lat.value (omega arith) (omega arith) lat.fits) lat.fits;
        cog_fits = cut-lt cog.value (2 ^ 16) (2 ^ 12) cog.fits;
        true_heading_fits = cut-lt hdg.value (2 ^ 16) (2 ^ 9) hdg.fits;
        time_stamp_fits = cut-lt ts.value (2 ^ 8) (2 ^ 6) ts.fits;
        regional_reserved_fits = cut-lt rr.value (2 ^ 8) (2 ^ 4) rr.fits;
        name_fits = name.fits;
        ship_type_fits = cut-lt stype.value (2 ^ 8) (2 ^ 8) stype.fits;
        dim_bow_fits = cut-lt bow.value (2 ^ 16) (2 ^ 9) bow.fits;
        dim_stern_fits = cut-lt stern.value (2 ^ 16) (2 ^ 9) stern.fits;
        dim_port_fits = cut-lt port.value (2 ^ 8) (2 ^ 6) port.fits;
        dim_starboard_fits = cut-lt stbd.value (2 ^ 8) (2 ^ 6) stbd.fits;
        epfd_type_fits = cut-lt epfd.value (2 ^ 8) (2 ^ 4) epfd.fits;
      }))

decode-accepted :
    (buf : List ℕ) (t : ℕ)
    → 312 ≤ bit_length buf
    → ltb (bit_length buf) 312 ≡ false
    → read_uint buf 0 6 ≡ ok t
    → t < 2 ^ 6
    → (not (same_type (message_type_from_id (u8 t)) MessageType.extended_class_b_position_report))
      ≡ false
    → Decodes 312 type_of IsEncodable buf (decode buf)
unfolding type_value
decode-accepted buf t size long e lt accepted =
    let known : message_type_from_id (u8 t) ≡ MessageType.extended_class_b_position_report =
      same_type→eq (message_type_from_id (u8 t)) MessageType.extended_class_b_position_report
        (ground arith) in
    let named =
      type_value-named buf t MessageType.extended_class_b_position_report lt e known
        (omega arith) in
    decode-reads buf t (fetch_uint buf 312 size 6 2 refl) (fetch_uint buf 312 size 8 30 refl)
      (fetch_uint buf 312 size 48 10 refl) (fetch_uint buf 312 size 58 1 refl)
      (fetch_int buf 312 size 59 28 refl) (fetch_int buf 312 size 87 27 refl)
      (fetch_uint buf 312 size 114 12 refl) (fetch_uint buf 312 size 126 9 refl)
      (fetch_uint buf 312 size 135 6 refl) (fetch_uint buf 312 size 141 4 refl)
      (fetch_text buf 312 size 145 20 refl) (fetch_uint buf 312 size 265 8 refl)
      (fetch_uint buf 312 size 273 9 refl) (fetch_uint buf 312 size 282 9 refl)
      (fetch_uint buf 312 size 291 6 refl) (fetch_uint buf 312 size 297 6 refl)
      (fetch_uint buf 312 size 303 4 refl) (fetch_uint buf 312 size 307 1 refl)
      (fetch_uint buf 312 size 308 1 refl) (fetch_uint buf 312 size 309 1 refl) size long e accepted
      named

decode-Decodes : (buf : List ℕ) → Decodes 312 type_of IsEncodable buf (decode buf)
unfolding decode
decode-Decodes buf = elim (Bool-cases (ltb (bit_length buf) 312)) [
  | inl e ↦ rw e (short _ refl (ltb→lt (bit_length buf) 312 e))
  | inr long ↦
      let size : 312 ≤ bit_length buf = ground arith in
      let (t, e, lt) = read_uint_total buf 0 6 (omega arith) (omega arith) (omega arith) in
      elim (Bool-cases (
        not
          (same_type (message_type_from_id (u8 t)) MessageType.extended_class_b_position_report))) [
            | inl wrong ↦ rw (long, e, wrong) (refused _ refl size)
            | inr accepted ↦ decode-accepted buf t size long e lt accepted
          ]
]

-- The class keeps to the contract.
pub extended_class_b_position_report-IsCodec : IsCodec 312 type_of IsEncodable encode decode
extended_class_b_position_report-IsCodec = record {
  comes_back = decode-encode_extended_class_b_position_report;
  decodes = decode-Decodes;
}
