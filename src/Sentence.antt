-- ===== src/Sentence.antt =====
-- `Sentence` of src/core/sentence.cpp and include/aislib/sentence.h: the NMEA line. A text is a list of
-- character codes, and a `char` is read as its unsigned value, which no test here tells apart from the
-- signed one.
pub mod Checksum
pub mod Line
pub mod Valid
pub mod Print
pub mod Parsed
pub mod Parts
pub mod Corruption
pub mod Numerals
pub mod Fields
pub mod Grammar
pub mod Accepted
pub mod Ranges
pub mod NumberErrors
pub mod NumberCases
pub mod FieldErrors
pub mod Refused
pub mod Outcomes
use pgais.Base.{
  ℕ, zero, suc, ◌+◌, ◌-◌, ◌*◌, ◌/◌, ◌%◌, ◌^◌, List, [], ◌∷◌, ◌++◌, Bool, true, false, ◌&&◌, ◌||◌,
  not, Option, none, some, ltb, leb, ◌==◌, if◌then◌else◌, text_eq, bit_and, bit_or, bit_xor, length,
  get_or, take, drop, codes,
}
use pgais.Error.{
  Error, ErrorCode, Result, ok, err, fail, fail_with, ◌>>=◌, to_string, sentence_empty,
  sentence_too_short, sentence_invalid_start, sentence_missing_checksum, sentence_checksum_bad,
  sentence_field_missing, sentence_field_invalid, sentence_talker_invalid, sentence_type_invalid,
  multipart_count_invalid, multipart_seq_invalid, payload_empty, payload_fill_bits_invalid,
}
use pgais.Payload.{is_empty}

pub record Sentence : Type 0 where
  pub talker : List ℕ
  pub sentence_type : List ℕ
  pub part_count : ℕ
  pub part_index : ℕ
  pub seq_id : Option ℕ
  pub channel : ℕ
  pub payload : List ℕ
  pub fill_bits : ℕ

abbrev pub k_max_sentence_parts : ℕ
k_max_sentence_parts = 5

abbrev pub k_max_seq_id : ℕ
k_max_seq_id = 9

abbrev pub k_valid_talkers : List (List ℕ)
k_valid_talkers =
    codes "AB"
    ∷ codes "AI"
    ∷ codes "AN"
    ∷ codes "AR"
    ∷ codes "AS"
    ∷ codes "AT"
    ∷ codes "AX"
    ∷ codes "BS"
    ∷ codes "SA"
    ∷ []

-- The loop of `is_valid_talker` over the talkers that are left.
unfoldable pub matches_talker : ℕ → ℕ → List (List ℕ) → Bool
matches_talker a b [] = false
matches_talker a b (t ∷ ts) = a == get_or t 0 0 && b == get_or t 1 0 || matches_talker a b ts

unfoldable pub is_valid_talker : List ℕ → Bool
is_valid_talker talker =
    if not (length talker == 2)
    then false
    else matches_talker (get_or talker 0 0) (get_or talker 1 0) k_valid_talkers

-- The loop of `split_fields` over the rest of the text, with the characters since `start`.
unfoldable pub split_from : List ℕ → List ℕ → ℕ → List (List ℕ)
split_from field [] delim = field ∷ []
split_from field (c ∷ str) delim =
    if c == delim then field ∷ split_from [] str delim else split_from (field ++ c ∷ []) str delim

unfoldable pub split_fields : List ℕ → ℕ → List (List ℕ)
split_fields str delim = split_from [] str delim

abbrev pub is_digit : ℕ → Bool
is_digit c = leb b'0' c && leb c b'9'

-- The loop of `parse_uint8`; `v` is an `unsigned int`.
unfoldable pub parse_digits : List ℕ → ℕ → Option ℕ
parse_digits [] v = some (v % 2 ^ 8)
parse_digits (c ∷ s) v =
    let v' = (v * 10 + (c - b'0')) % 2 ^ 32 in
    let rest = parse_digits s v' in
    if not (is_digit c) then none else if ltb 255 v' then none else rest

-- `none` is `false`; no caller reads `out` then.
unfoldable pub parse_uint8 : List ℕ → Option ℕ
parse_uint8 [] = none
parse_uint8 (c ∷ s) = parse_digits (c ∷ s) 0

-- The digit that a round of `parse_hex8` adds.
unfoldable pub hex_value : ℕ → Option ℕ
hex_value c =
    if leb b'0' c && leb c b'9'
    then some (c - b'0')
    else if leb b'A' c && leb c b'F'
    then some (c - b'A' + 10)
    else if leb b'a' c && leb c b'f'
    then some (c - b'a' + 10)
    else none

-- The loop of `parse_hex8`; `result` is a `uint8_t`.
unfoldable pub parse_hex_digits : List ℕ → ℕ → Option ℕ
parse_hex_digits [] result = some result
parse_hex_digits (c ∷ s) result = elim (hex_value c) [
  | none ↦ none
  | some d ↦ parse_hex_digits s (bit_or (result * 2 ^ 4 % 2 ^ 8) d)
]

unfoldable pub parse_hex8 : List ℕ → Option ℕ
unfolding parse_hex_digits
parse_hex8 s = if not (length s == 2) then none else parse_hex_digits s 0

abbrev pub hex_digits : List ℕ
hex_digits = codes "0123456789ABCDEF"

-- The loop of `compute_checksum`.
unfoldable pub xor_from : ℕ → List ℕ → ℕ
xor_from xor_val [] = xor_val
xor_from xor_val (c ∷ text) = xor_from (bit_xor xor_val c) text

-- The two digits of a byte.
unfoldable pub hex8 : ℕ → List ℕ
hex8 xor_val =
    get_or hex_digits (bit_and (xor_val / 2 ^ 4) 0x0f) 0
    ∷ get_or hex_digits (bit_and xor_val 0x0f) 0
    ∷ []

unfoldable pub compute_checksum : List ℕ → List ℕ
compute_checksum text = hex8 (xor_from 0 text)

-- `while (end > 0 && newline(raw[end - 1])) --end;`: a character goes when it is a line end and all
-- behind it went.
unfoldable pub keep_line : ℕ → List ℕ → List ℕ
keep_line c [] = if c == b'\r' || c == b'\n' then [] else c ∷ []
keep_line c (d ∷ ds) = c ∷ d ∷ ds

unfoldable pub chomp : List ℕ → List ℕ
unfolding keep_line
chomp [] = []
chomp (c ∷ cs) = keep_line c (chomp cs)

-- `rfind`.
unfoldable pub rfind : List ℕ → ℕ → Option ℕ
rfind [] c = none
rfind (x ∷ s) c = elim (rfind s c) [
  | some i ↦ some (suc i)
  | none ↦ if x == c then some 0 else none
]

-- `if (!parse_uint8(field, v) || bad(v)) return e;`, then `v`.
unfoldable pub parse_number : List ℕ → (ℕ → Bool) → Error → Result ℕ
parse_number field bad e = elim (parse_uint8 field) [
  | none ↦ err e
  | some v ↦ if bad v then err e else ok v
]

unfoldable pub parse_seq_id : List ℕ → ℕ → Result (Option ℕ)
parse_seq_id field part_count =
    if not (is_empty field)
    then (do
      sid ←
          parse_number field (λ sid. ltb k_max_seq_id sid)
            (record { code = multipart_seq_invalid; detail = field })
      ok (some sid))
    else if ltb 1 part_count
    then fail_with multipart_seq_invalid (codes "empty seq_id for multi-part sentence")
    else ok none

-- `parse` from the part count on.
unfoldable pub parse_numbers : List ℕ → List ℕ → List (List ℕ) → Result Sentence
unfolding parse_number parse_seq_id
parse_numbers talker sentence_type fields = do
  part_count ←
      parse_number (get_or fields 1 []) (λ n. n == 0 || ltb k_max_sentence_parts n)
        (record { code = multipart_count_invalid; detail = get_or fields 1 [] })
  part_index ←
      parse_number (get_or fields 2 []) (λ n. n == 0 || ltb part_count n)
        (record {
          code = sentence_field_invalid;
          detail = codes "part_index=" ++ get_or fields 2 [];
        })
  seq_id ← parse_seq_id (get_or fields 3 []) part_count
  if is_empty (get_or fields 5 []) && part_count == 1 then fail payload_empty else do
    fill_bits ←
        parse_number (get_or fields 6 []) (λ n. ltb 5 n)
          (record { code = payload_fill_bits_invalid; detail = get_or fields 6 [] })
    ok (record {
      talker = talker;
      sentence_type = sentence_type;
      part_count = part_count;
      part_index = part_index;
      seq_id = seq_id;
      channel = get_or (get_or fields 4 []) 0 b'A';
      payload = get_or fields 5 [];
      fill_bits = fill_bits;
    })

-- `parse` on the fields of the body.
unfoldable pub parse_fields : List (List ℕ) → Result Sentence
unfolding parse_numbers
parse_fields fields =
    let type_field = get_or fields 0 [] in
    let talker = take 2 type_field in
    let sentence_type = take 3 (drop 2 type_field) in
    if ltb (length fields) 7
    then fail_with sentence_field_missing
        (codes "expected 7 comma-separated fields, got " ++ to_string (length fields))
    else if not (length type_field == 5)
    then fail_with sentence_field_invalid type_field
    else if not (is_valid_talker talker)
    then fail_with sentence_talker_invalid talker
    else if not (text_eq sentence_type (codes "VDM")) && not (text_eq sentence_type (codes "VDO"))
    then fail_with sentence_type_invalid sentence_type
    else parse_numbers talker sentence_type fields

-- `uint8_t v = 0u; parse_hex8(text, v);`
unfoldable pub value_or_zero : Option ℕ → ℕ
value_or_zero none = 0
value_or_zero (some v) = v

-- `parse` with the transmitted checksum, as text and as a number if it is one.
unfoldable pub check_sum : List ℕ → List ℕ → Option ℕ → Result Sentence
unfolding parse_fields parse_hex8 split_fields value_or_zero
check_sum body checksum_str none = fail_with sentence_checksum_bad checksum_str
check_sum body checksum_str (some transmitted) =
    let computed_str = compute_checksum body in
    let computed = value_or_zero (parse_hex8 computed_str) in
    if not (computed == transmitted)
    then fail_with sentence_checksum_bad
        (codes "expected " ++ computed_str ++ codes " got " ++ checksum_str)
    else parse_fields (split_fields body b',')

-- `parse` once the delimiter was looked for.
unfoldable pub parse_at : List ℕ → Option ℕ → Result Sentence
unfolding check_sum
parse_at s none = fail sentence_missing_checksum
parse_at s (some star_pos) =
    let checksum_str = take 2 (drop (star_pos + 1) s) in
    if ltb (length s) (star_pos + 3)
    then fail sentence_missing_checksum
    else check_sum (take (star_pos - 1) (drop 1 s)) checksum_str (parse_hex8 checksum_str)

unfoldable pub parse : List ℕ → Result Sentence
unfolding parse_at
parse raw =
    let s = chomp raw in
    if is_empty raw
    then fail sentence_empty
    else if ltb (length s) 14
    then fail sentence_too_short
    else if not (get_or s 0 0 == b'!') && not (get_or s 0 0 == b'$')
    then fail sentence_invalid_start
    else parse_at s (rfind s b'*')
