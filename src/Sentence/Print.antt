-- ===== src/Sentence/Print.antt =====
-- A sentence as the line that carries it, and what `Sentence::parse` makes of that line.
use pgais.Base.{
  ℕ, ◌∙◌, ◌+◌, ◌≤◌, ◌≡◌, ◌⊎◌, inl, inr, refl, arith, List, [], ◌∷◌, ◌++◌, false, ◌==◌, Option, none,
  some, All, All-append, length, length-append, drop,
}
use pgais.Error.{ok}
use pgais.Payload.{is_empty}
use pgais.Bitfield.Storage.{IsByte}
use pgais.Sentence.{
  Sentence, parse_number, parse_seq_id, parse_numbers, parse_fields, parse, compute_checksum,
}
use pgais.Sentence.Line.{parse-line}
use pgais.Sentence.Parts.{IsLineEnd, join, Avoids, split_fields-join, parse_uint8-digit}
use pgais.Sentence.Valid.{IsSentence, IsLetter, talker_of, parse_fields-head}

-- The channel and the payload are bytes other than a comma.
pub record IsPlain (s : Sentence) : Type 0 where
  pub channel_byte : IsByte s.channel
  pub channel_plain : (s.channel == b',') ≡ false
  pub payload_bytes : All IsByte s.payload
  pub payload_plain : Avoids b',' s.payload

abbrev digit_text : ℕ → List ℕ
digit_text n = (b'0' + n) ∷ []

abbrev seq_id_text : Option ℕ → List ℕ
seq_id_text none = []
seq_id_text (some id) = digit_text id

abbrev fields_of : Sentence → List (List ℕ)
fields_of s =
    (s.talker ++ s.sentence_type)
    ∷ digit_text s.part_count
    ∷ digit_text s.part_index
    ∷ seq_id_text s.seq_id
    ∷ (s.channel ∷ [])
    ∷ s.payload
    ∷ digit_text s.fill_bits
    ∷ []

unfoldable body_of : Sentence → List ℕ
body_of s = join (fields_of s) b','

-- `!AIVDM,1,1,,A,payload,0*hh`, without a line end.
unfoldable pub print : Sentence → List ℕ
unfolding body_of
print s = b'!' ∷ body_of s ++ b'*' ∷ compute_checksum (body_of s)

parse_numbers-fields_of :
    (s : Sentence) → IsSentence s → parse_numbers s.talker s.sentence_type (fields_of s) ≡ ok s
unfolding parse_numbers parse_seq_id parse_number is_empty
parse_numbers-fields_of s h =
    let count = parse_uint8-digit s.part_count (omega (arith, h.count_high)) in
    let index = parse_uint8-digit s.part_index (omega (arith, h.count_high, h.index_high)) in
    let fill = parse_uint8-digit s.fill_bits (omega (arith, h.fill_bits_high)) in
    elim h.seq_id_fits [
      | inl (e, one) ↦ ground arith
      | inr (id, e, k) ↦ let seq = parse_uint8-digit id (omega arith) in ground arith
    ]

parse_fields-fields_of : (s : Sentence) → IsSentence s → parse_fields (fields_of s) ≡ ok s
parse_fields-fields_of s h =
    parse_fields-head s (drop 1 (fields_of s)) h (omega arith) ∙ parse_numbers-fields_of s h

IsLetter-IsByte : (c : ℕ) → IsLetter c → IsByte c × ((c == b',') ≡ false)
IsLetter-IsByte c h = (omega (arith, h.0, h.1), ground (arith, h.0, h.1))

digit-IsByte : (n : ℕ) → n ≤ 9 → IsByte (b'0' + n) × (((b'0' + n) == b',') ≡ false)
digit-IsByte n h = (omega arith, ground arith)

-- A field of bytes other than the comma.
abbrev IsField : List ℕ → Type 0
IsField f = All IsByte f × Avoids b',' f

digit-IsField : (n : ℕ) → n ≤ 9 → IsField (digit_text n)
digit-IsField n h = let (b, c) = digit-IsByte n h in ((b, tt), (c, tt))

head-IsField : (s : Sentence) → IsSentence s → IsField (s.talker ++ s.sentence_type)
head-IsField s h =
    let (a, b, e, la, lb) = talker_of s.talker h.talker_valid in
    let (a_byte, a_plain) = IsLetter-IsByte a la in
    let (b_byte, b_plain) = IsLetter-IsByte b lb in
    elim h.type_valid [
      | inl t ↦
          rw (e, t)
            (
              (a_byte, (b_byte, (omega arith, (omega arith, (omega arith, tt))))),
              (a_plain, (b_plain, (refl, (refl, (refl, tt))))),
            )
      | inr t ↦
          rw (e, t)
            (
              (a_byte, (b_byte, (omega arith, (omega arith, (omega arith, tt))))),
              (a_plain, (b_plain, (refl, (refl, (refl, tt))))),
            )
    ]

seq_id-IsField :
    (s : Sentence)
    → ((s.seq_id ≡ none) × (s.part_count ≡ 1)) ⊎ ((id : ℕ) × (s.seq_id ≡ some id) × (id ≤ 9))
    → IsField (seq_id_text s.seq_id)
seq_id-IsField s (inl (e, one)) = rw e (tt, tt)
seq_id-IsField s (inr (id, e, k)) = rw e (digit-IsField id k)

fields_of-IsField : (s : Sentence) → IsSentence s → IsPlain s → All IsField (fields_of s)
fields_of-IsField s h p =
    let fill = digit-IsField s.fill_bits (omega (arith, h.fill_bits_high)) in
    (
      head-IsField s h,
      (
        digit-IsField s.part_count (omega (arith, h.count_high)),
        (
          digit-IsField s.part_index (omega (arith, h.count_high, h.index_high)),
          (
            seq_id-IsField s h.seq_id_fits,
            (
              ((p.channel_byte, tt), (p.channel_plain, tt)),
              ((p.payload_bytes, p.payload_plain), (fill, tt)),
            ),
          ),
        ),
      ),
    )

join-IsByte : (fs : List (List ℕ)) → All IsField fs → All IsByte (join fs b',')
unfolding join
join-IsByte [] h = tt
join-IsByte (f ∷ []) h = h.0.0
join-IsByte (f ∷ g ∷ fs) h =
    All-append IsByte f (b',' ∷ join (g ∷ fs) b',') h.0.0 (omega arith, join-IsByte (g ∷ fs) h.1)

IsField-Avoids : (fs : List (List ℕ)) → All IsField fs → All (Avoids b',') fs
IsField-Avoids [] h = tt
IsField-Avoids (f ∷ fs) h = (h.0.1, IsField-Avoids fs h.1)

length-body_of : (s : Sentence) → 10 ≤ length (body_of s)
unfolding body_of join
length-body_of s =
    let tail = b',' ∷ digit_text s.fill_bits in
    let rest = b',' ∷ s.channel ∷ b',' ∷ s.payload ++ tail in
    omega (
      arith,
      length-append (s.talker ++ s.sentence_type) (
          b',' ∷ (b'0' + s.part_count) ∷ b',' ∷ (b'0' + s.part_index) ∷ b',' ∷ seq_id_text s.seq_id
          ++ rest),
      length-append (seq_id_text s.seq_id) rest,
      length-append s.payload tail,
    )

-- A sentence that keeps to the invariant, and whose channel and payload are bytes other than a comma,
-- is printed to a line, which with any line ends behind it is parsed to the same sentence.
pub parse-print :
    (s : Sentence) (ending : List ℕ)
    → IsSentence s
    → IsPlain s
    → All IsLineEnd ending
    → parse (print s ++ ending) ≡ ok s
unfolding print body_of
parse-print s ending h p k =
    let plain = fields_of-IsField s h p in
    rw
      (
        parse-line (body_of s) ending (join-IsByte (fields_of s) plain) (length-body_of s) k,
        split_fields-join (s.talker ++ s.sentence_type) (drop 1 (fields_of s)) b','
            (IsField-Avoids (fields_of s) plain),
      )
      (parse_fields-fields_of s h)
