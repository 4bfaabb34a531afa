-- ===== src/Messages/LongRangeBroadcast/Total.antt =====
-- Message type 27: `decode` on every buffer, and the class's contract.
use mathlib.Core.Path.{subst}
use pgais.Base.{
  ℕ, ◌^◌, ◌≤◌, ◌<◌, ◌≡◌, inl, inr, refl, sym, arith, List, false, ltb, ltb→lt, not, ◌==◌,
  Bool-cases,
}
use pgais.Error.{ok}
use pgais.Bitfield.Reader.{bit_length, read_uint}
use pgais.Bitfield.Total.{ReadsUint, ReadsInt, fetch_uint, fetch_int, read_uint_total, cut-lt}
use pgais.Message.{MessageType, type_value, message_type_from_id, same_type, u8, u16, u32, i32}
use pgais.Messages.Transport.{cast_int-Fits}
use pgais.Messages.Codec.{Decodes, short, refused, read, IsCodec, same_type→eq, type_value-named}
use pgais.Messages.LongRangeBroadcast.{type_of, decode, encode}
use pgais.Messages.LongRangeBroadcast.RoundTrip.{IsEncodable, decode-encode_long_range_broadcast}

-- What `decode` makes of its reads.
decode-reads :
    (buf : List ℕ) (t : ℕ) (ri : ReadsUint buf 6 2) (mmsi : ReadsUint buf 8 30)
    (pa : ReadsUint buf 38 1) (raim : ReadsUint buf 39 1) (nav : ReadsUint buf 40 4)
    (lon : ReadsInt buf 44 18) (lat : ReadsInt buf 62 17) (sog : ReadsUint buf 79 6)
    (cog : ReadsUint buf 85 9) (gnss : ReadsUint buf 94 1)
    → 96 ≤ bit_length buf
    → ltb (bit_length buf) 96 ≡ false
    → read_uint buf 0 6 ≡ ok t
    → (not (same_type (message_type_from_id (u8 t)) MessageType.position_report_long_range)) ≡ false
    → read_uint buf 0 6 ≡ ok (type_value MessageType.position_report_long_range)
    → Decodes 96 type_of IsEncodable buf (decode buf)
unfolding decode
decode-reads buf t ri mmsi pa raim nav lon lat sog cog gnss size long e accepted named =
    let done : decode buf
        ≡ ok (record {
          mmsi = u32 mmsi.value;
          repeat_indicator = u8 ri.value;
          position_accuracy = not (pa.value == 0);
          raim = not (raim.value == 0);
          nav_status = u8 nav.value;
          longitude = i32 lon.value;
          latitude = i32 lat.value;
          sog = u8 sog.value;
          cog = u16 cog.value;
          gnss_position_status = not (gnss.value == 0);
        }) =
      rw
        (
          long, e, accepted, ri.is, mmsi.is, pa.is, raim.is, nav.is, lon.is, lat.is, sog.is, cog.is,
          gnss.is,
        )
        refl in
    subst (Decodes 96 type_of IsEncodable buf) (sym done) (
      read _ size named (record {
        repeat_indicator_fits = cut-lt ri.value (2 ^ 8) (2 ^ 2) ri.fits;
        mmsi_fits = cut-lt mmsi.value (2 ^ 32) (2 ^ 30) mmsi.fits;
        nav_status_fits = cut-lt nav.value (2 ^ 8) (2 ^ 4) nav.fits;
        longitude_fits =
            rw (cast_int-Fits 18 32 lon.value (omega arith) (omega arith) lon.fits) lon.fits;
        latitude_fits =
            rw (cast_int-Fits 17 32 lat.value (omega arith) (omega arith) lat.fits) lat.fits;
        sog_fits = cut-lt sog.value (2 ^ 8) (2 ^ 6) sog.fits;
        cog_fits = cut-lt cog.value (2 ^ 16) (2 ^ 9) cog.fits;
      }))

decode-accepted :
    (buf : List ℕ) (t : ℕ)
    → 96 ≤ bit_length buf
    → ltb (bit_length buf) 96 ≡ false
    → read_uint buf 0 6 ≡ ok t
    → t < 2 ^ 6
    → (not (same_type (message_type_from_id (u8 t)) MessageType.position_report_long_range)) ≡ false
    → Decodes 96 type_of IsEncodable buf (decode buf)
unfolding type_value
decode-accepted buf t size long e lt accepted =
    let known : message_type_from_id (u8 t) ≡ MessageType.position_report_long_range =
      same_type→eq (message_type_from_id (u8 t)) MessageType.position_report_long_range
        (ground arith) in
    let named =
      type_value-named buf t MessageType.position_report_long_range lt e known (omega arith) in
    decode-reads buf t (fetch_uint buf 96 size 6 2 refl) (fetch_uint buf 96 size 8 30 refl)
      (fetch_uint buf 96 size 38 1 refl) (fetch_uint buf 96 size 39 1 refl)
      (fetch_uint buf 96 size 40 4 refl) (fetch_int buf 96 size 44 18 refl)
      (fetch_int buf 96 size 62 17 refl) (fetch_uint buf 96 size 79 6 refl)
      (fetch_uint buf 96 size 85 9 refl) (fetch_uint buf 96 size 94 1 refl) size long e accepted
      named

decode-Decodes : (buf : List ℕ) → Decodes 96 type_of IsEncodable buf (decode buf)
unfolding decode
decode-Decodes buf = elim (Bool-cases (ltb (bit_length buf) 96)) [
  | inl e ↦ rw e (short _ refl (ltb→lt (bit_length buf) 96 e))
  | inr long ↦
      let size : 96 ≤ bit_length buf = ground arith in
      let (t, e, lt) = read_uint_total buf 0 6 (omega arith) (omega arith) (omega arith) in
      elim (Bool-cases
        (not (same_type (message_type_from_id (u8 t)) MessageType.position_report_long_range))) [
          | inl wrong ↦ rw (long, e, wrong) (refused _ refl size)
          | inr accepted ↦ decode-accepted buf t size long e lt accepted
        ]
]

-- The class keeps to the contract.
pub long_range_broadcast-IsCodec : IsCodec 96 type_of IsEncodable encode decode
long_range_broadcast-IsCodec = record {
  comes_back = decode-encode_long_range_broadcast;
  decodes = decode-Decodes;
}
