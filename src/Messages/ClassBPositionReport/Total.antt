-- ===== src/Messages/ClassBPositionReport/Total.antt =====
-- Message type 18: `decode` on every buffer, and the class's contract.
use mathlib.Core.Path.{subst}
use pgais.Base.{
  ℕ, ◌^◌, ◌≤◌, ◌<◌, ◌≡◌, inl, inr, refl, sym, arith, List, false, ltb, ltb→lt, not, ◌==◌,
  Bool-cases,
}
use pgais.Error.{ok}
use pgais.Bitfield.Reader.{bit_length, read_uint}
use pgais.Bitfield.Total.{ReadsUint, ReadsInt, fetch_uint, fetch_int, read_uint_total, cut-lt}
use pgais.Message.{MessageType, type_value, message_type_from_id, same_type, u8, u16, u32, i32}
use pgais.Messages.Transport.{cast_int-Fits}
use pgais.Messages.Codec.{Decodes, short, refused, read, IsCodec, same_type→eq, type_value-named}
use pgais.Messages.ClassBPositionReport.{type_of, decode, encode}
use pgais.Messages.ClassBPositionReport.RoundTrip.{
  IsEncodable, decode-encode_class_b_position_report,
}

-- What `decode` makes of its reads.
decode-reads :
    (buf : List ℕ) (t : ℕ) (ri : ReadsUint buf 6 2) (mmsi : ReadsUint buf 8 30)
    (sog : ReadsUint buf 46 10) (pa : ReadsUint buf 56 1) (lon : ReadsInt buf 57 28)
    (lat : ReadsInt buf 85 27) (cog : ReadsUint buf 112 12) (hdg : ReadsUint buf 124 9)
    (ts : ReadsUint buf 133 6) (rr : ReadsUint buf 139 2) (cs : ReadsUint buf 141 1)
    (disp : ReadsUint buf 142 1) (dsc : ReadsUint buf 143 1) (band : ReadsUint buf 144 1)
    (m22 : ReadsUint buf 145 1) (asgn : ReadsUint buf 146 1) (raim : ReadsUint buf 147 1)
    (rs : ReadsUint buf 148 20)
    → 168 ≤ bit_length buf
    → ltb (bit_length buf) 168 ≡ false
    → read_uint buf 0 6 ≡ ok t
    → (not (same_type (message_type_from_id (u8 t)) MessageType.standard_class_b_position_report))
      ≡ false
    → read_uint buf 0 6 ≡ ok (type_value MessageType.standard_class_b_position_report)
    → Decodes 168 type_of IsEncodable buf (decode buf)
unfolding decode
decode-reads buf t ri mmsi sog pa lon lat cog hdg ts rr cs disp dsc band m22 asgn raim rs size long
      e accepted named =
    let done : decode buf
        ≡ ok (record {
          mmsi = u32 mmsi.value;
          repeat_indicator = u8 ri.value;
          sog = u16 sog.value;
          position_accuracy = not (pa.value == 0);
          longitude = i32 lon.value;
          latitude = i32 lat.value;
          cog = u16 cog.value;
          true_heading = u16 hdg.value;
          time_stamp = u8 ts.value;
          regional_reserved = u8 rr.value;
          cs_flag = not (cs.value == 0);
          display_flag = not (disp.value == 0);
          dsc_flag = not (dsc.value == 0);
          band_flag = not (band.value == 0);
          msg22_flag = not (m22.value == 0);
          assigned = not (asgn.value == 0);
          raim = not (raim.value == 0);
          radio_status = u32 rs.value;
        }) =
      rw
        (
          long, e, accepted, ri.is, mmsi.is, sog.is, pa.is, lon.is, lat.is, cog.is, hdg.is, ts.is,
          rr.is, cs.is, disp.is, dsc.is, band.is, m22.is, asgn.is, raim.is, rs.is,
        )
        refl in
    subst (Decodes 168 type_of IsEncodable buf) (sym done) (
      read _ size named (record {
        repeat_indicator_fits = cut-lt ri.value (2 ^ 8) (2 ^ 2) ri.fits;
        mmsi_fits = cut-lt mmsi.value (2 ^ 32) (2 ^ 30) mmsi.fits;
        sog_fits = cut-lt sog.value (2 ^ 16) (2 ^ 10) sog.fits;
        longitude_fits =
            rw (cast_int-Fits 28 32 lon.value (omega arith) (omega arith) lon.fits) lon.fits;
        latitude_fits =
            rw (cast_int-Fits 27 32 lat.value (omega arith) (omega arith) lat.fits) lat.fits;
        cog_fits = cut-lt cog.value (2 ^ 16) (2 ^ 12) cog.fits;
        true_heading_fits = cut-lt hdg.value (2 ^ 16) (2 ^ 9) hdg.fits;
        time_stamp_fits = cut-lt ts.value (2 ^ 8) (2 ^ 6) ts.fits;
        regional_reserved_fits = cut-lt rr.value (2 ^ 8) (2 ^ 2) rr.fits;
        radio_status_fits = cut-lt rs.value (2 ^ 32) (2 ^ 20) rs.fits;
      }))

decode-accepted :
    (buf : List ℕ) (t : ℕ)
    → 168 ≤ bit_length buf
    → ltb (bit_length buf) 168 ≡ false
    → read_uint buf 0 6 ≡ ok t
    → t < 2 ^ 6
    → (not (same_type (message_type_from_id (u8 t)) MessageType.standard_class_b_position_report))
      ≡ false
    → Decodes 168 type_of IsEncodable buf (decode buf)
unfolding type_value
decode-accepted buf t size long e lt accepted =
    let known : message_type_from_id (u8 t) ≡ MessageType.standard_class_b_position_report =
      same_type→eq (message_type_from_id (u8 t)) MessageType.standard_class_b_position_report
        (ground arith) in
    let named =
      type_value-named buf t MessageType.standard_class_b_position_report lt e known
        (omega arith) in
    decode-reads buf t (fetch_uint buf 168 size 6 2 refl) (fetch_uint buf 168 size 8 30 refl)
      (fetch_uint buf 168 size 46 10 refl) (fetch_uint buf 168 size 56 1 refl)
      (fetch_int buf 168 size 57 28 refl) (fetch_int buf 168 size 85 27 refl)
      (fetch_uint buf 168 size 112 12 refl) (fetch_uint buf 168 size 124 9 refl)
      (fetch_uint buf 168 size 133 6 refl) (fetch_uint buf 168 size 139 2 refl)
      (fetch_uint buf 168 size 141 1 refl) (fetch_uint buf 168 size 142 1 refl)
      (fetch_uint buf 168 size 143 1 refl) (fetch_uint buf 168 size 144 1 refl)
      (fetch_uint buf 168 size 145 1 refl) (fetch_uint buf 168 size 146 1 refl)
      (fetch_uint buf 168 size 147 1 refl) (fetch_uint buf 168 size 148 20 refl) size long e
      accepted named

decode-Decodes : (buf : List ℕ) → Decodes 168 type_of IsEncodable buf (decode buf)
unfolding decode
decode-Decodes buf = elim (Bool-cases (ltb (bit_length buf) 168)) [
  | inl e ↦ rw e (short _ refl (ltb→lt (bit_length buf) 168 e))
  | inr long ↦
      let size : 168 ≤ bit_length buf = ground arith in
      let (t, e, lt) = read_uint_total buf 0 6 (omega arith) (omega arith) (omega arith) in
      elim (Bool-cases (
        not
          (same_type (message_type_from_id (u8 t)) MessageType.standard_class_b_position_report))) [
            | inl wrong ↦ rw (long, e, wrong) (refused _ refl size)
            | inr accepted ↦ decode-accepted buf t size long e lt accepted
          ]
]

-- The class keeps to the contract.
pub class_b_position_report-IsCodec : IsCodec 168 type_of IsEncodable encode decode
class_b_position_report-IsCodec = record {
  comes_back = decode-encode_class_b_position_report;
  decodes = decode-Decodes;
}
