-- ===== src/Messages/BaseStationReport/Total.antt =====
-- Message types 4 and 11: `decode` on every buffer, and the class's contract.
use mathlib.Core.Path.{subst}
use pgais.Base.{
  ℕ, ◌^◌, ◌≤◌, ◌<◌, ◌≡◌, ◌⊎◌, inl, inr, refl, sym, ap, ◌∙◌, arith, List, false, ltb, ltb→lt, not,
  ◌&&◌, ◌==◌, Bool-cases,
}
use pgais.Error.{ok}
use pgais.Bitfield.Reader.{bit_length, read_uint}
use pgais.Bitfield.Total.{ReadsUint, ReadsInt, fetch_uint, fetch_int, read_uint_total, cut-lt}
use pgais.Message.{MessageType, type_value, message_type_from_id, same_type, u8, u16, u32, i32}
use pgais.Messages.Transport.{cast_int-Fits}
use pgais.Messages.Codec.{Decodes, short, refused, read, IsCodec, same_type→eq, type_value-from_id}
use pgais.Messages.BaseStationReport.{type_of, decode, encode}
use pgais.Messages.BaseStationReport.RoundTrip.{IsEncodable, decode-encode_base_station_report}

-- What `decode` makes of its reads.
decode-reads :
    (buf : List ℕ) (t : ℕ) (ri : ReadsUint buf 6 2) (mmsi : ReadsUint buf 8 30)
    (year : ReadsUint buf 38 14) (month : ReadsUint buf 52 4) (day : ReadsUint buf 56 5)
    (hour : ReadsUint buf 61 5) (min : ReadsUint buf 66 6) (sec : ReadsUint buf 72 6)
    (pa : ReadsUint buf 78 1) (lon : ReadsInt buf 79 28) (lat : ReadsInt buf 107 27)
    (epfd : ReadsUint buf 134 4) (raim : ReadsUint buf 148 1) (rs : ReadsUint buf 149 19)
    → 168 ≤ bit_length buf
    → ltb (bit_length buf) 168 ≡ false
    → read_uint buf 0 6 ≡ ok t
    → (not (same_type (message_type_from_id (u8 t)) MessageType.base_station_report)
        && not (same_type (message_type_from_id (u8 t)) MessageType.utc_date_response))
      ≡ false
    → read_uint buf 0 6 ≡ ok (type_value (message_type_from_id (u8 t)))
    → ((message_type_from_id (u8 t) ≡ MessageType.base_station_report)
        ⊎ (message_type_from_id (u8 t) ≡ MessageType.utc_date_response))
    → Decodes 168 type_of IsEncodable buf (decode buf)
unfolding decode
decode-reads buf t ri mmsi year month day hour min sec pa lon lat epfd raim rs size long e accepted
      named known =
    let done : decode buf
        ≡ ok (record {
          type = message_type_from_id (u8 t);
          mmsi = u32 mmsi.value;
          repeat_indicator = u8 ri.value;
          utc_year = u16 year.value;
          utc_month = u8 month.value;
          utc_day = u8 day.value;
          utc_hour = u8 hour.value;
          utc_minute = u8 min.value;
          utc_second = u8 sec.value;
          position_accuracy = not (pa.value == 0);
          longitude = i32 lon.value;
          latitude = i32 lat.value;
          epfd = u8 epfd.value;
          raim = not (raim.value == 0);
          radio_status = u32 rs.value;
        }) =
      rw
        (
          long, e, accepted, ri.is, mmsi.is, year.is, month.is, day.is, hour.is, min.is, sec.is,
          pa.is, lon.is, lat.is, epfd.is, raim.is, rs.is,
        )
        refl in
    subst (Decodes 168 type_of IsEncodable buf) (sym done) (
      read _ size named (record {
        type_fits = known;
        repeat_indicator_fits = cut-lt ri.value (2 ^ 8) (2 ^ 2) ri.fits;
        mmsi_fits = cut-lt mmsi.value (2 ^ 32) (2 ^ 30) mmsi.fits;
        utc_year_fits = cut-lt year.value (2 ^ 16) (2 ^ 14) year.fits;
        utc_month_fits = cut-lt month.value (2 ^ 8) (2 ^ 4) month.fits;
        utc_day_fits = cut-lt day.value (2 ^ 8) (2 ^ 5) day.fits;
        utc_hour_fits = cut-lt hour.value (2 ^ 8) (2 ^ 5) hour.fits;
        utc_minute_fits = cut-lt min.value (2 ^ 8) (2 ^ 6) min.fits;
        utc_second_fits = cut-lt sec.value (2 ^ 8) (2 ^ 6) sec.fits;
        longitude_fits =
            rw (cast_int-Fits 28 32 lon.value (omega arith) (omega arith) lon.fits) lon.fits;
        latitude_fits =
            rw (cast_int-Fits 27 32 lat.value (omega arith) (omega arith) lat.fits) lat.fits;
        epfd_fits = cut-lt epfd.value (2 ^ 8) (2 ^ 4) epfd.fits;
        radio_status_fits = cut-lt rs.value (2 ^ 32) (2 ^ 19) rs.fits;
      }))

one_of_types :
    (a : MessageType)
    → (not (same_type a MessageType.base_station_report)
        && not (same_type a MessageType.utc_date_response))
      ≡ false
    → (a ≡ MessageType.base_station_report) ⊎ (a ≡ MessageType.utc_date_response)
one_of_types a h =
    let is_0 = same_type→eq a MessageType.base_station_report in
    let is_1 = same_type→eq a MessageType.utc_date_response in ground arith

decode-accepted :
    (buf : List ℕ) (t : ℕ)
    → 168 ≤ bit_length buf
    → ltb (bit_length buf) 168 ≡ false
    → read_uint buf 0 6 ≡ ok t
    → t < 2 ^ 6
    → (not (same_type (message_type_from_id (u8 t)) MessageType.base_station_report)
        && not (same_type (message_type_from_id (u8 t)) MessageType.utc_date_response))
      ≡ false
    → Decodes 168 type_of IsEncodable buf (decode buf)
unfolding type_value
decode-accepted buf t size long e lt accepted =
    let known = one_of_types (message_type_from_id (u8 t)) accepted in
    let one : 1 ≤ type_value (message_type_from_id (u8 t)) = elim known [
      | inl p ↦ rw p (omega arith)
      | inr p ↦ rw p (omega arith)
    ] in
    let named : read_uint buf 0 6 ≡ ok (type_value (message_type_from_id (u8 t))) =
      e ∙ ap (λ (k : ℕ). ok k) (sym (type_value-from_id t lt one)) in
    decode-reads buf t (fetch_uint buf 168 size 6 2 refl) (fetch_uint buf 168 size 8 30 refl)
      (fetch_uint buf 168 size 38 14 refl) (fetch_uint buf 168 size 52 4 refl)
      (fetch_uint buf 168 size 56 5 refl) (fetch_uint buf 168 size 61 5 refl)
      (fetch_uint buf 168 size 66 6 refl) (fetch_uint buf 168 size 72 6 refl)
      (fetch_uint buf 168 size 78 1 refl) (fetch_int buf 168 size 79 28 refl)
      (fetch_int buf 168 size 107 27 refl) (fetch_uint buf 168 size 134 4 refl)
      (fetch_uint buf 168 size 148 1 refl) (fetch_uint buf 168 size 149 19 refl) size long e
      accepted named known

decode-Decodes : (buf : List ℕ) → Decodes 168 type_of IsEncodable buf (decode buf)
unfolding decode
decode-Decodes buf = elim (Bool-cases (ltb (bit_length buf) 168)) [
  | inl e ↦ rw e (short _ refl (ltb→lt (bit_length buf) 168 e))
  | inr long ↦
      let size : 168 ≤ bit_length buf = ground arith in
      let (t, e, lt) = read_uint_total buf 0 6 (omega arith) (omega arith) (omega arith) in
      elim (Bool-cases (
        not (same_type (message_type_from_id (u8 t)) MessageType.base_station_report)
        && not (same_type (message_type_from_id (u8 t)) MessageType.utc_date_response))) [
          | inl wrong ↦ rw (long, e, wrong) (refused _ refl size)
          | inr accepted ↦ decode-accepted buf t size long e lt accepted
        ]
]

-- The class keeps to the contract.
pub base_station_report-IsCodec : IsCodec 168 type_of IsEncodable encode decode
base_station_report-IsCodec = record {
  comes_back = decode-encode_base_station_report;
  decodes = decode-Decodes;
}
