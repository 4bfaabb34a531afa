-- ===== src/Messages/StaticDataReport/RoundTrip.antt =====
-- Message type 24: what comes back of each part.
use pgais.Base.{ℕ, ◌<◌, ◌^◌, ◌≤◌, ◌≡◌, ◌∙◌, refl, sym, arith, List, [], ◌∷◌, All}
use pgais.Error.{ok}
use pgais.Bitfield.Reader.{bit_length}
use pgais.Bitfield.Writer.{new_writer}
use pgais.Bitfield.Fields.{Field, uint, text, FitsText, IsField, write_fields, Reads}
use pgais.Message.{
  type_value, class_b_cs_static_data_report, message_type_from_id, same_type, finish,
}
use pgais.Messages.Transport.{write_fields-Arrives, ComesBack}
use pgais.Messages.StaticDataReport.{StaticDataReport, make_part_a, make_part_b, decode, encode}

abbrev start_layout : ℕ → ℕ → ℕ → List Field → List Field
start_layout mmsi ri part rest =
    uint 6 (type_value class_b_cs_static_data_report)
    ∷ uint 2 ri
    ∷ uint 30 mmsi
    ∷ uint 2 part
    ∷ rest

-- Part A: a repeat indicator, an MMSI and a vessel name.
module _ (mmsi ri : ℕ) (name : List ℕ) where
  abbrev part_a : StaticDataReport
  part_a = make_part_a mmsi ri name

  abbrev layout_a : List Field
  layout_a = start_layout mmsi ri 0 (text 20 name ∷ uint 8 0 ∷ [])

  layout_a-IsField : ri < 2 ^ 2 → mmsi < 2 ^ 30 → FitsText 20 name → All IsField layout_a
  unfolding type_value
  layout_a-IsField hr hm hn = (
    (omega arith, omega arith),
    (
      (omega arith, hr),
      (
        (omega arith, hm),
        ((omega arith, omega arith), ((omega arith, hn), ((omega arith, omega arith), tt))),
      ),
    ),
  )

  read_a :
      (buf : List ℕ)
      → mmsi < 2 ^ 30
      → ri < 2 ^ 2
      → Reads buf 0 layout_a
      → 168 ≤ bit_length buf
      → decode buf ≡ ok part_a
  unfolding decode message_type_from_id same_type
  read_a buf hm hr r k = ground arith

  encode-layout_a : encode part_a ≡ write_fields layout_a (finish 168) new_writer
  unfolding encode
  encode-layout_a = refl

  -- Part A comes back as it was sent, whenever its values fit their fields.
  pub decode-encode_part_a :
      ri < 2 ^ 2
      → mmsi < 2 ^ 30
      → FitsText 20 name
      → ComesBack encode decode part_a class_b_cs_static_data_report
  decode-encode_part_a hr hm hn =
      let a =
        write_fields-Arrives layout_a 168 0 (layout_a-IsField hr hm hn) (omega arith) (omega arith)
          (omega arith) (omega arith) in
      record {
        payload = a.payload;
        fill_bits = a.fill_bits;
        buf = a.buf;
        encoded = rw encode-layout_a a.encoded;
        unpacked = a.decoded;
        starts = omega (arith, a.long_enough);
        type_read = a.found.0;
        read = read_a a.buf hm hr a.found a.long_enough;
      }

-- A part B whose values fit the bits of their fields.
pub record FitsPartB (m : StaticDataReport) : Type 0 where
  pub repeat_fits : m.repeat_indicator < 2 ^ 2
  pub mmsi_fits : m.mmsi < 2 ^ 30
  pub ship_type_fits : m.ship_type < 2 ^ 8
  pub vendor_id_fits : FitsText 7 m.vendor_id
  pub call_sign_fits : FitsText 7 m.call_sign
  pub bow_fits : m.dim_to_bow < 2 ^ 9
  pub stern_fits : m.dim_to_stern < 2 ^ 9
  pub port_fits : m.dim_to_port < 2 ^ 6
  pub starboard_fits : m.dim_to_starboard < 2 ^ 6
  pub epfd_fits : m.epfd < 2 ^ 4
  pub is_part_b : m.part_number ≡ 1

-- What the layout of part B has a place for: neither a name nor the MMSI of a mothership.
abbrev pub carried : StaticDataReport → StaticDataReport
carried m =
    make_part_b m.mmsi m.repeat_indicator m.ship_type m.vendor_id m.call_sign m.dim_to_bow
      m.dim_to_stern m.dim_to_port m.dim_to_starboard m.epfd 0

abbrev layout_b : StaticDataReport → List Field
layout_b m = start_layout m.mmsi m.repeat_indicator 1 (
    uint 8 m.ship_type
    ∷ text 7 m.vendor_id
    ∷ text 7 m.call_sign
    ∷ uint 9 m.dim_to_bow
    ∷ uint 9 m.dim_to_stern
    ∷ uint 6 m.dim_to_port
    ∷ uint 6 m.dim_to_starboard
    ∷ uint 4 m.epfd
    ∷ uint 2 0
    ∷ [])

layout_b-IsField : (m : StaticDataReport) → FitsPartB m → All IsField (layout_b m)
unfolding type_value
layout_b-IsField m h = (
  (omega arith, omega arith),
  (
    (omega arith, h.repeat_fits),
    (
      (omega arith, h.mmsi_fits),
      (
        (omega arith, omega arith),
        (
          (omega arith, h.ship_type_fits),
          (
            (omega arith, h.vendor_id_fits),
            (
              (omega arith, h.call_sign_fits),
              (
                (omega arith, h.bow_fits),
                (
                  (omega arith, h.stern_fits),
                  (
                    (omega arith, h.port_fits),
                    (
                      (omega arith, h.starboard_fits),
                      ((omega arith, h.epfd_fits), ((omega arith, omega arith), tt)),
                    ),
                  ),
                ),
              ),
            ),
          ),
        ),
      ),
    ),
  ),
)

read_b :
    (m : StaticDataReport) (buf : List ℕ)
    → FitsPartB m
    → Reads buf 0 (layout_b m)
    → 168 ≤ bit_length buf
    → decode buf ≡ ok (carried m)
unfolding decode message_type_from_id same_type
read_b m buf h r k = ground arith

encode-layout_b :
    (m : StaticDataReport)
    → FitsPartB m
    → encode m ≡ write_fields (layout_b m) (finish 168) new_writer
unfolding encode
encode-layout_b m h = rw h.is_part_b

carried-FitsPartB : (m : StaticDataReport) → FitsPartB m → FitsPartB (carried m)
carried-FitsPartB m h = record {
  repeat_fits = h.repeat_fits;
  mmsi_fits = h.mmsi_fits;
  ship_type_fits = h.ship_type_fits;
  vendor_id_fits = h.vendor_id_fits;
  call_sign_fits = h.call_sign_fits;
  bow_fits = h.bow_fits;
  stern_fits = h.stern_fits;
  port_fits = h.port_fits;
  starboard_fits = h.starboard_fits;
  epfd_fits = h.epfd_fits;
  is_part_b = refl;
}

-- A part B whose values fit the bits of their fields is sent without its vessel name and without the MMSI
-- of its mothership: `encode` gives what it gives for the same report with no name and mothership 0,
-- and that report is what comes back.
pub decode-encode_part_b :
    (m : StaticDataReport)
    → FitsPartB m
    → (encode m ≡ encode (carried m))
      × ComesBack encode decode (carried m) class_b_cs_static_data_report
decode-encode_part_b m h =
    let a =
      write_fields-Arrives (layout_b m) 168 0 (layout_b-IsField m h) (omega arith) (omega arith)
        (omega arith) (omega arith) in
    let sent : encode m ≡ encode (carried m) =
      encode-layout_b m h ∙ sym (encode-layout_b (carried m) (carried-FitsPartB m h)) in
    (
      sent,
      record {
        payload = a.payload;
        fill_bits = a.fill_bits;
        buf = a.buf;
        encoded = sym sent ∙ encode-layout_b m h ∙ a.encoded;
        unpacked = a.decoded;
        starts = omega (arith, a.long_enough);
        type_read = a.found.0;
        read = read_b m a.buf h a.found a.long_enough;
      },
    )
