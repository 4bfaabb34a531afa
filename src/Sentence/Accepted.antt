-- ===== src/Sentence/Accepted.antt =====
-- `Sentence::parse` against the grammar of the lines that it accepts.
use pgais.Base.{
  ℕ, ◌≡◌, ◌≢◌, ◌↔◌, inl, inr, sym, ap, ◌∙◌, arith, List, [], ◌∷◌, ◌++◌, false, not, ◌&&◌, ◌==◌,
  some, All, All-front, append_assoc, All-append, length, length-append, get_or, Bool-cases,
  Option-cases,
}
use mathlib.Core.Path.{subst}
use pgais.Error.{ok}
use pgais.Bitfield.Storage.{IsByte}
use pgais.Sentence.{
  Sentence, split_fields, parse_fields, check_sum, parse_at, parse, chomp, rfind, xor_from,
  parse_hex8,
}
use pgais.Sentence.Parts.{Avoids, IsLineEnd-Avoids, join-split_fields, rfind-split, chomp-split}
use pgais.Sentence.Line.{IsMark, parse_at-line, check_sum-body_of, check_sum-other}
use pgais.Sentence.Parsed.{parse-IsSentence}
use pgais.Sentence.Numerals.{IsHexByte, parse_hex8-IsHexByte}
use pgais.Sentence.Fields.{parse_fields-IsFields, split_fields-Avoids}
use pgais.Sentence.Grammar.{IsLine, IsLine-parse}

-- A checksum that is accepted.
check_sum-ok :
    (body : List ℕ) (c d : ℕ) (s : Sentence)
    → All IsByte body
    → check_sum body (c ∷ d ∷ []) (parse_hex8 (c ∷ d ∷ [])) ≡ ok s
    → IsHexByte c d (xor_from 0 body) × (parse_fields (split_fields body b',') ≡ ok s)
unfolding check_sum
check_sum-ok body c d s bytes e = elim (Option-cases (parse_hex8 (c ∷ d ∷ []))) [
  | inl p ↦ absurd (ground arith)
  | inr (n, p) ↦ elim (Bool-cases (n == xor_from 0 body)) [
    | inl q ↦
        let same : n ≡ xor_from 0 body = ground arith in
        (
          (parse_hex8-IsHexByte c d (xor_from 0 body)).0 (p ∙ ap some same),
          sym (check_sum-body_of body bytes (c ∷ d ∷ [])) ∙ rw (p, same) at e,
        )
    | inr q ↦
        let differ : n ≢ xor_from 0 body = λ same. ground arith in
        let refused = check_sum-other body n (c ∷ d ∷ []) bytes differ in absurd (ground arith)
  ]
]

-- A line without its line ends, at the delimiter that was found.
record IsSummed (line : List ℕ) (s : Sentence) : Type 0 where
  pub mark : ℕ
  pub body : List ℕ
  pub high : ℕ
  pub low : ℕ
  pub rest : List ℕ
  pub whole : line ≡ mark ∷ body ++ b'*' ∷ high ∷ low ∷ rest
  pub marked : IsMark mark
  pub last : Avoids b'*' rest
  pub accepted : check_sum body (high ∷ low ∷ []) (parse_hex8 (high ∷ low ∷ [])) ≡ ok s

parse_at-IsSummed :
    (line front back : List ℕ) (s : Sentence)
    → IsMark (get_or line 0 0)
    → line ≡ front ++ b'*' ∷ back
    → Avoids b'*' back
    → parse_at line (some (length front)) ≡ ok s
    → IsSummed line s
unfolding parse_at
parse_at-IsSummed line [] back s marked split avoids e =
    let start : IsMark b'*' = rw split at marked in absurd (ground arith)
parse_at-IsSummed line (mark ∷ body) [] s marked split avoids e =
    absurd (ground (arith, length-append body (b'*' ∷ []), ap length split))
parse_at-IsSummed line (mark ∷ body) (c ∷ []) s marked split avoids e =
    absurd (ground (arith, length-append body (b'*' ∷ c ∷ []), ap length split))
parse_at-IsSummed line (mark ∷ body) (c ∷ d ∷ rest) s marked split avoids e = record {
  mark = mark;
  body = body;
  high = c;
  low = d;
  rest = rest;
  whole = split;
  marked = rw split at marked;
  last = avoids.1.1;
  accepted = sym (parse_at-line mark body c d rest) ∙ rw split at e;
}

parse-IsSummed : (raw : List ℕ) (s : Sentence) → parse raw ≡ ok s → IsSummed (chomp raw) s
unfolding parse parse_at
parse-IsSummed raw s e =
    let line = chomp raw in
    let start : (not (get_or line 0 0 == b'!') && not (get_or line 0 0 == b'$')) ≡ false =
      ground arith in
    let marked : IsMark (get_or line 0 0) = ground arith in
    let at : parse_at line (rfind line b'*') ≡ ok s = ground arith in
    elim (Option-cases (rfind line b'*')) [
      | inl p ↦ absurd (ground arith)
      | inr (i, p) ↦
          let (front, back, split, size, avoids) = rfind-split line b'*' i p in
          parse_at-IsSummed line front back s marked split avoids (rw (p, sym size) at at)
    ]

parse-IsLine : (raw : List ℕ) (s : Sentence) → All IsByte raw → parse raw ≡ ok s → IsLine raw s
parse-IsLine raw s bytes e =
    let l = parse-IsSummed raw s e in
    let (ending, came, ends) = chomp-split raw in
    let whole : raw ≡ l.mark ∷ l.body ++ b'*' ∷ l.high ∷ l.low ∷ (l.rest ++ ending) =
      came
      ∙ ap (λ (t : List ℕ). t ++ ending) l.whole
      ∙ append_assoc (l.mark ∷ l.body) (b'*' ∷ l.high ∷ l.low ∷ l.rest) ending in
    let whole_bytes : All IsByte (l.mark ∷ l.body ++ b'*' ∷ l.high ∷ l.low ∷ (l.rest ++ ending)) =
      subst (All IsByte) whole bytes in
    let body_bytes = All-front IsByte l.body _ whole_bytes.1 in
    let (summed, fields) = check_sum-ok l.body l.high l.low s body_bytes l.accepted in
    record {
      mark = l.mark;
      body = l.body;
      high = l.high;
      low = l.low;
      rest = l.rest ++ ending;
      fields = split_fields l.body b',';
      whole = whole;
      marked = l.marked;
      summed = summed;
      last =
          All-append (λ (c : ℕ). (c == b'*') ≡ false) l.rest ending l.last
            (IsLineEnd-Avoids ending ends);
      joined = sym (join-split_fields l.body b',');
      plain = split_fields-Avoids l.body b',';
      split = parse_fields-IsFields (split_fields l.body b',') s fields;
      valid = parse-IsSentence raw s e;
    }

-- A text of bytes is parsed to a sentence just when the grammar has it as a line of that sentence: `!` or
-- `$`, at least seven fields with commas between them, the last `*`, the checksum of the text before it
-- as two hexadecimal digits, and any text without `*`. The fields are the talker and the type, the
-- decimal numerals of the count, the number of the part and the sequence number, which may be empty, the
-- channel, of which the first character counts, the payload and the fill bits, within the limits of
-- `IsSentence`; further fields are passed over.
pub parse-grammar :
    (raw : List ℕ) (s : Sentence) → All IsByte raw → (parse raw ≡ ok s) ↔ IsLine raw s
parse-grammar raw s bytes = (parse-IsLine raw s bytes, IsLine-parse raw s bytes)
