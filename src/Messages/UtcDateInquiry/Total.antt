-- ===== src/Messages/UtcDateInquiry/Total.antt =====
-- Message type 10: `decode` on every buffer, and the class's contract.
use mathlib.Core.Path.{subst}
use pgais.Base.{
  ℕ, ◌^◌, ◌≤◌, ◌<◌, ◌≡◌, inl, inr, refl, sym, arith, List, false, ltb, ltb→lt, not, Bool-cases,
}
use pgais.Error.{ok}
use pgais.Bitfield.Reader.{bit_length, read_uint}
use pgais.Bitfield.Total.{ReadsUint, fetch_uint, read_uint_total, cut-lt}
use pgais.Message.{MessageType, type_value, message_type_from_id, same_type, u8, u32}
use pgais.Messages.Codec.{Decodes, short, refused, read, IsCodec, same_type→eq, type_value-named}
use pgais.Messages.UtcDateInquiry.{type_of, decode, encode}
use pgais.Messages.UtcDateInquiry.RoundTrip.{IsEncodable, decode-encode_utc_date_inquiry}

-- What `decode` makes of its reads.
decode-reads :
    (buf : List ℕ) (t : ℕ) (ri : ReadsUint buf 6 2) (mmsi : ReadsUint buf 8 30)
    (dest : ReadsUint buf 40 30)
    → 72 ≤ bit_length buf
    → ltb (bit_length buf) 72 ≡ false
    → read_uint buf 0 6 ≡ ok t
    → (not (same_type (message_type_from_id (u8 t)) MessageType.utc_date_inquiry)) ≡ false
    → read_uint buf 0 6 ≡ ok (type_value MessageType.utc_date_inquiry)
    → Decodes 72 type_of IsEncodable buf (decode buf)
unfolding decode
decode-reads buf t ri mmsi dest size long e accepted named =
    let done : decode buf
        ≡ ok (record {
          mmsi = u32 mmsi.value;
          repeat_indicator = u8 ri.value;
          destination_mmsi = u32 dest.value;
        }) =
      rw (long, e, accepted, ri.is, mmsi.is, dest.is) refl in
    subst (Decodes 72 type_of IsEncodable buf) (sym done) (
      read _ size named (record {
        repeat_indicator_fits = cut-lt ri.value (2 ^ 8) (2 ^ 2) ri.fits;
        mmsi_fits = cut-lt mmsi.value (2 ^ 32) (2 ^ 30) mmsi.fits;
        destination_mmsi_fits = cut-lt dest.value (2 ^ 32) (2 ^ 30) dest.fits;
      }))

decode-accepted :
    (buf : List ℕ) (t : ℕ)
    → 72 ≤ bit_length buf
    → ltb (bit_length buf) 72 ≡ false
    → read_uint buf 0 6 ≡ ok t
    → t < 2 ^ 6
    → (not (same_type (message_type_from_id (u8 t)) MessageType.utc_date_inquiry)) ≡ false
    → Decodes 72 type_of IsEncodable buf (decode buf)
unfolding type_value
decode-accepted buf t size long e lt accepted =
    let known : message_type_from_id (u8 t) ≡ MessageType.utc_date_inquiry =
      same_type→eq (message_type_from_id (u8 t)) MessageType.utc_date_inquiry (ground arith) in
    let named = type_value-named buf t MessageType.utc_date_inquiry lt e known (omega arith) in
    decode-reads buf t (fetch_uint buf 72 size 6 2 refl) (fetch_uint buf 72 size 8 30 refl)
      (fetch_uint buf 72 size 40 30 refl) size long e accepted named

decode-Decodes : (buf : List ℕ) → Decodes 72 type_of IsEncodable buf (decode buf)
unfolding decode
decode-Decodes buf = elim (Bool-cases (ltb (bit_length buf) 72)) [
  | inl e ↦ rw e (short _ refl (ltb→lt (bit_length buf) 72 e))
  | inr long ↦
      let size : 72 ≤ bit_length buf = ground arith in
      let (t, e, lt) = read_uint_total buf 0 6 (omega arith) (omega arith) (omega arith) in
      elim (Bool-cases
        (not (same_type (message_type_from_id (u8 t)) MessageType.utc_date_inquiry))) [
          | inl wrong ↦ rw (long, e, wrong) (refused _ refl size)
          | inr accepted ↦ decode-accepted buf t size long e lt accepted
        ]
]

-- The class keeps to the contract.
pub utc_date_inquiry-IsCodec : IsCodec 72 type_of IsEncodable encode decode
utc_date_inquiry-IsCodec = record {
  comes_back = decode-encode_utc_date_inquiry;
  decodes = decode-Decodes;
}
