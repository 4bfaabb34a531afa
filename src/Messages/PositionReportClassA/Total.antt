-- ===== src/Messages/PositionReportClassA/Total.antt =====
-- Message types 1 to 3: `decode` on every buffer, and the class's contract.
use mathlib.Core.Path.{subst}
use pgais.Base.{
  ℕ, ◌^◌, ◌≤◌, ◌<◌, ◌≡◌, ◌⊎◌, inl, inr, refl, sym, ap, ◌∙◌, arith, List, false, ltb, ltb→lt, not,
  ◌&&◌, ◌==◌, Bool-cases,
}
use pgais.Error.{ok}
use pgais.Bitfield.Reader.{bit_length, read_uint}
use pgais.Bitfield.Total.{ReadsUint, ReadsInt, fetch_uint, fetch_int, read_uint_total, cut-lt}
use pgais.Message.{MessageType, type_value, message_type_from_id, same_type, u8, u16, u32, i8, i32}
use pgais.Messages.Transport.{cast_int-Fits}
use pgais.Messages.Codec.{Decodes, short, refused, read, IsCodec, same_type→eq, type_value-from_id}
use pgais.Messages.PositionReportClassA.{type_of, decode, encode}
use pgais.Messages.PositionReportClassA.RoundTrip.{
  IsEncodable, decode-encode_position_report_class_a,
}

-- What `decode` makes of its reads.
decode-reads :
    (buf : List ℕ) (t : ℕ) (ri : ReadsUint buf 6 2) (mmsi : ReadsUint buf 8 30)
    (ns : ReadsUint buf 38 4) (rot : ReadsInt buf 42 8) (sog : ReadsUint buf 50 10)
    (pa : ReadsUint buf 60 1) (lon : ReadsInt buf 61 28) (lat : ReadsInt buf 89 27)
    (cog : ReadsUint buf 116 12) (hdg : ReadsUint buf 128 9) (ts : ReadsUint buf 137 6)
    (mi : ReadsUint buf 143 2) (raim : ReadsUint buf 148 1) (rs : ReadsUint buf 149 19)
    → 168 ≤ bit_length buf
    → ltb (bit_length buf) 168 ≡ false
    → read_uint buf 0 6 ≡ ok t
    → (not (same_type (message_type_from_id (u8 t)) MessageType.position_report_class_a)
        && not
            (same_type (message_type_from_id (u8 t)) MessageType.position_report_class_a_assigned)
        && not
            (same_type (message_type_from_id (u8 t)) MessageType.position_report_class_a_response))
      ≡ false
    → read_uint buf 0 6 ≡ ok (type_value (message_type_from_id (u8 t)))
    → ((message_type_from_id (u8 t) ≡ MessageType.position_report_class_a)
        ⊎ (message_type_from_id (u8 t) ≡ MessageType.position_report_class_a_assigned)
        ⊎ (message_type_from_id (u8 t) ≡ MessageType.position_report_class_a_response))
    → Decodes 168 type_of IsEncodable buf (decode buf)
unfolding decode
decode-reads buf t ri mmsi ns rot sog pa lon lat cog hdg ts mi raim rs size long e accepted named
      known =
    let done : decode buf
        ≡ ok (record {
          type = message_type_from_id (u8 t);
          mmsi = u32 mmsi.value;
          repeat_indicator = u8 ri.value;
          nav_status = u8 ns.value;
          rot = i8 rot.value;
          sog = u16 sog.value;
          position_accuracy = not (pa.value == 0);
          longitude = i32 lon.value;
          latitude = i32 lat.value;
          cog = u16 cog.value;
          true_heading = u16 hdg.value;
          time_stamp = u8 ts.value;
          manoeuvre_indicator = u8 mi.value;
          raim = not (raim.value == 0);
          radio_status = u32 rs.value;
        }) =
      rw
        (
          long, e, accepted, ri.is, mmsi.is, ns.is, rot.is, sog.is, pa.is, lon.is, lat.is, cog.is,
          hdg.is, ts.is, mi.is, raim.is, rs.is,
        )
        refl in
    subst (Decodes 168 type_of IsEncodable buf) (sym done) (
      read _ size named (record {
        type_fits = known;
        repeat_indicator_fits = cut-lt ri.value (2 ^ 8) (2 ^ 2) ri.fits;
        mmsi_fits = cut-lt mmsi.value (2 ^ 32) (2 ^ 30) mmsi.fits;
        nav_status_fits = cut-lt ns.value (2 ^ 8) (2 ^ 4) ns.fits;
        rot_fits = rw (cast_int-Fits 8 8 rot.value (omega arith) (omega arith) rot.fits) rot.fits;
        sog_fits = cut-lt sog.value (2 ^ 16) (2 ^ 10) sog.fits;
        longitude_fits =
            rw (cast_int-Fits 28 32 lon.value (omega arith) (omega arith) lon.fits) lon.fits;
        latitude_fits =
            rw (cast_int-Fits 27 32 lat.value (omega arith) (omega arith) lat.fits) lat.fits;
        cog_fits = cut-lt cog.value (2 ^ 16) (2 ^ 12) cog.fits;
        true_heading_fits = cut-lt hdg.value (2 ^ 16) (2 ^ 9) hdg.fits;
        time_stamp_fits = cut-lt ts.value (2 ^ 8) (2 ^ 6) ts.fits;
        manoeuvre_indicator_fits = cut-lt mi.value (2 ^ 8) (2 ^ 2) mi.fits;
        radio_status_fits = cut-lt rs.value (2 ^ 32) (2 ^ 19) rs.fits;
      }))

one_of_types :
    (a : MessageType)
    → (not (same_type a MessageType.position_report_class_a)
        && not (same_type a MessageType.position_report_class_a_assigned)
        && not (same_type a MessageType.position_report_class_a_response))
      ≡ false
    → (a ≡ MessageType.position_report_class_a)
      ⊎ (a ≡ MessageType.position_report_class_a_assigned)
      ⊎ (a ≡ MessageType.position_report_class_a_response)
one_of_types a h =
    let is_0 = same_type→eq a MessageType.position_report_class_a in
    let is_1 = same_type→eq a MessageType.position_report_class_a_assigned in
    let is_2 = same_type→eq a MessageType.position_report_class_a_response in ground arith

decode-accepted :
    (buf : List ℕ) (t : ℕ)
    → 168 ≤ bit_length buf
    → ltb (bit_length buf) 168 ≡ false
    → read_uint buf 0 6 ≡ ok t
    → t < 2 ^ 6
    → (not (same_type (message_type_from_id (u8 t)) MessageType.position_report_class_a)
        && not
            (same_type (message_type_from_id (u8 t)) MessageType.position_report_class_a_assigned)
        && not
            (same_type (message_type_from_id (u8 t)) MessageType.position_report_class_a_response))
      ≡ false
    → Decodes 168 type_of IsEncodable buf (decode buf)
unfolding type_value
decode-accepted buf t size long e lt accepted =
    let known = one_of_types (message_type_from_id (u8 t)) accepted in
    let one : 1 ≤ type_value (message_type_from_id (u8 t)) = elim known [
      | inl p ↦ rw p (omega arith)
      | inr (inl p) ↦ rw p (omega arith)
      | inr (inr p) ↦ rw p (omega arith)
    ] in
    let named : read_uint buf 0 6 ≡ ok (type_value (message_type_from_id (u8 t))) =
      e ∙ ap (λ (k : ℕ). ok k) (sym (type_value-from_id t lt one)) in
    decode-reads buf t (fetch_uint buf 168 size 6 2 refl) (fetch_uint buf 168 size 8 30 refl)
      (fetch_uint buf 168 size 38 4 refl) (fetch_int buf 168 size 42 8 refl)
      (fetch_uint buf 168 size 50 10 refl) (fetch_uint buf 168 size 60 1 refl)
      (fetch_int buf 168 size 61 28 refl) (fetch_int buf 168 size 89 27 refl)
      (fetch_uint buf 168 size 116 12 refl) (fetch_uint buf 168 size 128 9 refl)
      (fetch_uint buf 168 size 137 6 refl) (fetch_uint buf 168 size 143 2 refl)
      (fetch_uint buf 168 size 148 1 refl) (fetch_uint buf 168 size 149 19 refl) size long e
      accepted named known

decode-Decodes : (buf : List ℕ) → Decodes 168 type_of IsEncodable buf (decode buf)
unfolding decode
decode-Decodes buf = elim (Bool-cases (ltb (bit_length buf) 168)) [
  | inl e ↦ rw e (short _ refl (ltb→lt (bit_length buf) 168 e))
  | inr long ↦
      let size : 168 ≤ bit_length buf = ground arith in
      let (t, e, lt) = read_uint_total buf 0 6 (omega arith) (omega arith) (omega arith) in
      elim (Bool-cases (
        not (same_type (message_type_from_id (u8 t)) MessageType.position_report_class_a)
        && not
            (same_type (message_type_from_id (u8 t)) MessageType.position_report_class_a_assigned)
        && not (
            same_type (message_type_from_id (u8 t))
              MessageType.position_report_class_a_response))) [
                | inl wrong ↦ rw (long, e, wrong) (refused _ refl size)
                | inr accepted ↦ decode-accepted buf t size long e lt accepted
              ]
]

-- The class keeps to the contract.
pub position_report_class_a-IsCodec : IsCodec 168 type_of IsEncodable encode decode
position_report_class_a-IsCodec = record {
  comes_back = decode-encode_position_report_class_a;
  decodes = decode-Decodes;
}
