-- ===== src/Sentence/Grammar.antt =====
-- The lines that `Sentence::parse` accepts.
use pgais.Base.{
  ℕ, Bool, All-front, ◌&&◌, ◌+◌, ◌≤◌, ◌≡◌, inl, inr, refl, sym, ◌∙◌, arith, List, [], ◌∷◌, ◌++◌,
  true, false, All, length, length-append, ltb, ◌==◌, ◌||◌,
}
use mathlib.Core.Path.{subst}
use pgais.Error.{Error, ok}
use pgais.Payload.{is_empty}
use pgais.Bitfield.Storage.{IsByte}
use pgais.Sentence.{
  Sentence, split_fields, parse_number, parse_numbers, parse_fields, parse, xor_from,
}
use pgais.Sentence.Parts.{Avoids, join, split_fields-join}
use pgais.Sentence.Checksum.{is_inner}
use pgais.Sentence.Line.{IsMark, parse-digits, check_sum-body_of}
use pgais.Sentence.Valid.{IsSentence, length-head, parse_fields-head}
use pgais.Sentence.Numerals.{
  IsNumber, parse_uint8-IsNumber, IsHexDigit, digit, upper, lower, IsHexByte, parse_hex8-IsHexByte,
}
use pgais.Sentence.Fields.{IsFields, IsSeqIdField-parse_seq_id}

-- A field that is the numeral of an accepted number.
pub parse_number-IsNumber :
    (text : List ℕ) (v : ℕ) (bad : ℕ → Bool) (e : Error)
    → IsNumber text v
    → bad v ≡ false
    → parse_number text bad e ≡ ok v
unfolding parse_number
parse_number-IsNumber text v bad e n h =
    let read = (parse_uint8-IsNumber text v).1 n in ground arith

pub IsFields-parse_numbers :
    (fields : List (List ℕ)) (s : Sentence)
    → IsSentence s
    → IsFields fields s
    → parse_numbers s.talker s.sentence_type fields ≡ ok s
unfolding parse_numbers
IsFields-parse_numbers fields s h f =
    let low = h.count_low in
    let high = h.count_high in
    let index_low = h.index_low in
    let index_high = h.index_high in
    let fill_high = h.fill_bits_high in
    let payload : (is_empty s.payload && s.part_count == 1) ≡ false = elim h.has_payload [
      | inl more ↦ ground arith
      | inr full ↦ rw full refl
    ] in
    rw
      (
        f.seven,
        parse_number-IsNumber f.count s.part_count (λ n. n == 0 || ltb 5 n) _ f.counted
            (ground arith),
        parse_number-IsNumber f.index s.part_index (λ n. n == 0 || ltb s.part_count n) _ f.indexed
            (ground arith),
        IsSeqIdField-parse_seq_id f.seq_id s.part_count h.seq_id_fits f.numbered,
        payload,
        parse_number-IsNumber f.fill s.fill_bits (λ n. ltb 5 n) _ f.filled (ground arith),
        sym f.heard,
      )
      refl

-- A line that `parse` accepts as a sentence: `!` or `$`, a body, `*`, the two hexadecimal digits of the
-- body's checksum and any text without `*`, line ends among it. The body is fields with commas between
-- them.
pub record IsLine (raw : List ℕ) (s : Sentence) : Type 0 where
  pub mark : ℕ
  pub body : List ℕ
  pub high : ℕ
  pub low : ℕ
  pub rest : List ℕ
  pub fields : List (List ℕ)
  pub whole : raw ≡ mark ∷ body ++ b'*' ∷ high ∷ low ∷ rest
  pub marked : IsMark mark
  pub summed : IsHexByte high low (xor_from 0 body)
  pub last : Avoids b'*' rest
  pub joined : body ≡ join fields b','
  pub plain : All (Avoids b',') fields
  pub split : IsFields fields s
  pub valid : IsSentence s

length-join :
    (f : List ℕ) (fs : List (List ℕ)) (delim : ℕ)
    → length f + length fs ≤ length (join (f ∷ fs) delim)
unfolding join
length-join f [] delim = omega arith
length-join f (g ∷ fs) delim =
    omega (arith, length-append f (delim ∷ join (g ∷ fs) delim), length-join g fs delim)

-- What the fields of a body are parsed to.
IsFields-parse_fields :
    (s : Sentence) (body : List ℕ) (fields : List (List ℕ))
    → IsSentence s
    → body ≡ join fields b','
    → All (Avoids b',') fields
    → IsFields fields s
    → (parse_fields (split_fields body b',') ≡ ok s) × (10 ≤ length body)
IsFields-parse_fields s body fields h joined plain f =
    let rest = f.count ∷ f.index ∷ f.seq_id ∷ f.channel ∷ s.payload ∷ f.fill ∷ f.further in
    let head = s.talker ++ s.sentence_type in
    let numbers = IsFields-parse_numbers fields s h f in
    let plain' : All (Avoids b',') (head ∷ rest) = rw f.seven at plain in
    (
      rw (joined, f.seven, split_fields-join head rest b',' plain')
          (parse_fields-head s rest h (omega arith) ∙ rw f.seven at numbers),
      rw (joined, f.seven) (omega (arith, length-head s h, length-join head rest b',')),
    )

-- Two digits with a value are neither the delimiter of the checksum nor line ends.
IsHexDigit-is_inner : (c : ℕ) {v : ℕ} → IsHexDigit c v → is_inner c ≡ true
IsHexDigit-is_inner c (digit h k) = ground arith
IsHexDigit-is_inner c (upper h k) = ground arith
IsHexDigit-is_inner c (lower h k) = ground arith

pub IsLine-parse : (raw : List ℕ) (s : Sentence) → All IsByte raw → IsLine raw s → parse raw ≡ ok s
IsLine-parse raw s bytes l =
    let (fields, long) = IsFields-parse_fields s l.body l.fields l.valid l.joined l.plain l.split in
    let whole_bytes : All IsByte (l.mark ∷ l.body ++ b'*' ∷ l.high ∷ l.low ∷ l.rest) =
      subst (All IsByte) l.whole bytes in
    let body_bytes = All-front IsByte l.body (b'*' ∷ l.high ∷ l.low ∷ l.rest) whole_bytes.1 in
    subst (λ text. parse text ≡ ok s) (sym l.whole)
      (parse-digits l.mark (xor_from 0 l.body) l.body l.high l.low l.rest l.marked
          (IsHexDigit-is_inner l.high l.summed.high_digit)
          (IsHexDigit-is_inner l.low l.summed.low_digit)
          ((parse_hex8-IsHexByte l.high l.low _).1 l.summed) long l.last
        ∙ check_sum-body_of l.body body_bytes (l.high ∷ l.low ∷ [])
        ∙ fields)
