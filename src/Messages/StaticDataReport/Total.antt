-- ===== src/Messages/StaticDataReport/Total.antt =====
-- Message type 24: `decode` on every buffer, and the class's contract.
use mathlib.Core.Path.{subst}
use pgais.Base.{
  ℕ, ◌^◌, ◌≤◌, ◌<◌, ◌≡◌, ◌⊎◌, inl, inr, refl, sym, arith, List, false, ltb, ltb→lt, not, ◌==◌,
  if◌then◌else◌, Bool-cases, codes,
}
use pgais.Error.{Result, ok, fail_with, message_decode_failure}
use pgais.Bitfield.Reader.{bit_length, read_uint}
use pgais.Bitfield.Total.{ReadsUint, ReadsText, fetch_uint, fetch_text, read_uint_total, cut-lt}
use pgais.Bitfield.Fields.{FitsText}
use pgais.Message.{MessageType, type_value, message_type_from_id, same_type, u8, u16, u32}
use pgais.Messages.Transport.{ComesBack}
use pgais.Messages.Codec.{Decodes, short, refused, read, IsCodec, same_type→eq, type_value-named}
use pgais.Messages.StaticDataReport.{
  type_of, StaticDataReport, make_part_a, make_part_b, decode, decode_part_a, decode_part_b, encode,
}
use pgais.Messages.StaticDataReport.RoundTrip.{
  FitsPartB, carried, decode-encode_part_a, decode-encode_part_b,
}

-- Part A: all but the first fields and the name have the values of a part A.
pub record IsPartA (m : StaticDataReport) : Type 0 where
  pub is_part_a : m ≡ make_part_a m.mmsi m.repeat_indicator m.vessel_name
  pub repeat_fits : m.repeat_indicator < 2 ^ 2
  pub mmsi_fits : m.mmsi < 2 ^ 30
  pub name_fits : FitsText 20 m.vessel_name

-- Part B: no name and no mothership, and values that fit.
pub record IsPartB (m : StaticDataReport) : Type 0 where
  pub is_carried : m ≡ carried m
  pub fits : FitsPartB m

abbrev pub IsEncodable : StaticDataReport → Type 0
IsEncodable m = IsPartA m ⊎ IsPartB m

comes_back : (m : StaticDataReport) → IsEncodable m → ComesBack encode decode m (type_of m)
comes_back m (inl h) =
    subst (λ x. ComesBack encode decode x MessageType.class_b_cs_static_data_report)
      (sym h.is_part_a)
      (decode-encode_part_a m.mmsi m.repeat_indicator m.vessel_name h.repeat_fits h.mmsi_fits
        h.name_fits)
comes_back m (inr h) =
    subst (λ x. ComesBack encode decode x MessageType.class_b_cs_static_data_report)
      (sym h.is_carried) (decode-encode_part_b m h.fits).1

abbrev Ends : List ℕ → Result StaticDataReport → Type 0
Ends buf = Decodes 168 type_of IsEncodable buf

module _ (buf : List ℕ) (size : 168 ≤ bit_length buf)
    (named : read_uint buf 0 6 ≡ ok (type_value MessageType.class_b_cs_static_data_report))
    (ri : ReadsUint buf 6 2) (mmsi : ReadsUint buf 8 30) where
  Ends-part_a : ReadsText buf 40 20 → Ends buf (decode_part_a buf mmsi.value ri.value)
  unfolding decode_part_a
  Ends-part_a name = rw name.is (
      read _ size named (
        inl (record {
          is_part_a = refl;
          repeat_fits = cut-lt ri.value (2 ^ 8) (2 ^ 2) ri.fits;
          mmsi_fits = cut-lt mmsi.value (2 ^ 32) (2 ^ 30) mmsi.fits;
          name_fits = name.fits;
        })))

  Ends-part_b :
      (stype : ReadsUint buf 40 8) (vendor : ReadsText buf 48 7) (cs : ReadsText buf 90 7)
      (bow : ReadsUint buf 132 9) (stern : ReadsUint buf 141 9) (port : ReadsUint buf 150 6)
      (stbd : ReadsUint buf 156 6) (epfd : ReadsUint buf 162 4)
      → Ends buf (decode_part_b buf mmsi.value ri.value)
  unfolding decode_part_b
  Ends-part_b stype vendor cs bow stern port stbd epfd =
      let done : decode_part_b buf mmsi.value ri.value
          ≡ ok (
              make_part_b (u32 mmsi.value) (u8 ri.value) (u8 stype.value) vendor.value cs.value
                (u16 bow.value) (u16 stern.value) (u8 port.value) (u8 stbd.value) (u8 epfd.value)
                0) =
        rw (stype.is, vendor.is, cs.is, bow.is, stern.is, port.is, stbd.is, epfd.is) refl in
      subst (Ends buf) (sym done) (
        read _ size named (
          inr (record {
            is_carried = refl;
            fits = record {
              repeat_fits = cut-lt ri.value (2 ^ 8) (2 ^ 2) ri.fits;
              mmsi_fits = cut-lt mmsi.value (2 ^ 32) (2 ^ 30) mmsi.fits;
              ship_type_fits = cut-lt stype.value (2 ^ 8) (2 ^ 8) stype.fits;
              vendor_id_fits = vendor.fits;
              call_sign_fits = cs.fits;
              bow_fits = cut-lt bow.value (2 ^ 16) (2 ^ 9) bow.fits;
              stern_fits = cut-lt stern.value (2 ^ 16) (2 ^ 9) stern.fits;
              port_fits = cut-lt port.value (2 ^ 8) (2 ^ 6) port.fits;
              starboard_fits = cut-lt stbd.value (2 ^ 8) (2 ^ 6) stbd.fits;
              epfd_fits = cut-lt epfd.value (2 ^ 8) (2 ^ 4) epfd.fits;
              is_part_b = refl;
            };
          })))

  -- Behind the type: parts A and B are read, and every other part number is refused.
  Ends-by_part :
      (pn : ReadsUint buf 38 2)
      → Ends buf (
          if u8 pn.value == 0
          then decode_part_a buf mmsi.value ri.value
          else if u8 pn.value == 1
          then decode_part_b buf mmsi.value ri.value
          else fail_with message_decode_failure (codes "invalid part number in type 24 message"))
  Ends-by_part pn = elim (Bool-cases (u8 pn.value == 0)) [
    | inl a ↦ rw a (Ends-part_a (fetch_text buf 168 size 40 20 refl))
    | inr not_a ↦ rw not_a (elim (Bool-cases (u8 pn.value == 1)) [
      | inl b ↦ rw b (
          Ends-part_b (fetch_uint buf 168 size 40 8 refl) (fetch_text buf 168 size 48 7 refl)
            (fetch_text buf 168 size 90 7 refl) (fetch_uint buf 168 size 132 9 refl)
            (fetch_uint buf 168 size 141 9 refl) (fetch_uint buf 168 size 150 6 refl)
            (fetch_uint buf 168 size 156 6 refl) (fetch_uint buf 168 size 162 4 refl))
      | inr not_b ↦ rw not_b (refused _ refl size)
    ])
  ]

decode-reads :
    (buf : List ℕ) (t : ℕ) (ri : ReadsUint buf 6 2) (mmsi : ReadsUint buf 8 30)
    (pn : ReadsUint buf 38 2)
    → 168 ≤ bit_length buf
    → ltb (bit_length buf) 168 ≡ false
    → read_uint buf 0 6 ≡ ok t
    → not (same_type (message_type_from_id (u8 t)) MessageType.class_b_cs_static_data_report)
      ≡ false
    → read_uint buf 0 6 ≡ ok (type_value MessageType.class_b_cs_static_data_report)
    → Ends buf (decode buf)
unfolding decode
decode-reads buf t ri mmsi pn size long e accepted named =
    rw (long, e, accepted, ri.is, mmsi.is, pn.is) (Ends-by_part buf size named ri mmsi pn)

decode-accepted :
    (buf : List ℕ) (t : ℕ)
    → 168 ≤ bit_length buf
    → ltb (bit_length buf) 168 ≡ false
    → read_uint buf 0 6 ≡ ok t
    → t < 2 ^ 6
    → not (same_type (message_type_from_id (u8 t)) MessageType.class_b_cs_static_data_report)
      ≡ false
    → Ends buf (decode buf)
unfolding type_value
decode-accepted buf t size long e lt accepted =
    let known =
      same_type→eq (message_type_from_id (u8 t)) MessageType.class_b_cs_static_data_report
        (ground arith) in
    let named =
      type_value-named buf t MessageType.class_b_cs_static_data_report lt e known (omega arith) in
    decode-reads buf t (fetch_uint buf 168 size 6 2 refl) (fetch_uint buf 168 size 8 30 refl)
      (fetch_uint buf 168 size 38 2 refl) size long e accepted named

decode-Decodes : (buf : List ℕ) → Ends buf (decode buf)
unfolding decode
decode-Decodes buf = elim (Bool-cases (ltb (bit_length buf) 168)) [
  | inl e ↦ rw e (short _ refl (ltb→lt (bit_length buf) 168 e))
  | inr long ↦
      let size : 168 ≤ bit_length buf = ground arith in
      let (t, e, lt) = read_uint_total buf 0 6 (omega arith) (omega arith) (omega arith) in
      elim (Bool-cases
        (not (same_type (message_type_from_id (u8 t)) MessageType.class_b_cs_static_data_report))) [
          | inl wrong ↦ rw (long, e, wrong) (refused _ refl size)
          | inr accepted ↦ decode-accepted buf t size long e lt accepted
        ]
]

-- The class keeps to the contract.
pub static_data_report-IsCodec : IsCodec 168 type_of IsEncodable encode decode
static_data_report-IsCodec = record { comes_back = comes_back; decodes = decode-Decodes }
