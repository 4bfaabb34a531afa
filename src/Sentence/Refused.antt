-- ===== src/Sentence/Refused.antt =====
-- The lines that `Sentence::parse` refuses.
use pgais.Base.{
  ℕ, suc, ◌<◌, ◌≤◌, ◌≡◌, ◌≢◌, refl, ◌∙◌, arith, List, [], ◌∷◌, ◌++◌, false, some, All, All-front,
  length, get_or, ltb, le→ltb, codes,
}
use mathlib.Core.Path.{subst}
use pgais.Error.{
  Error, sentence_empty, sentence_too_short, sentence_invalid_start, sentence_missing_checksum,
  sentence_checksum_bad,
}
use pgais.Payload.{is_empty}
use pgais.Bitfield.Storage.{IsByte}
use pgais.Sentence.{
  split_fields, check_sum, parse_at, parse, chomp, rfind, xor_from, compute_checksum, parse_hex8,
}
use pgais.Sentence.Parts.{Avoids, rfind-append, rfind-Avoids, chomp-split}
use pgais.Sentence.Line.{IsMark, IsMark-accepted, parse_at-line}
use pgais.Sentence.Numerals.{IsHexByte}
use pgais.Sentence.FieldErrors.{FieldsRefused}

-- Without its line ends, a line of at least fourteen characters that starts with a mark.
pub record IsStarted (raw : List ℕ) : Type 0 where
  pub long : 14 ≤ length (chomp raw)
  pub marked : IsMark (get_or (chomp raw) 0 0)

-- A body between the mark and the last `*`, and the two characters of the checksum.
pub record IsFramed (raw body : List ℕ) (high low : ℕ) : Type 0 where
  pub mark : ℕ
  pub rest : List ℕ
  pub started : IsStarted raw
  pub whole : chomp raw ≡ mark ∷ body ++ b'*' ∷ high ∷ low ∷ rest
  pub last : Avoids b'*' (high ∷ low ∷ rest)

-- The errors of `parse`, each with the first condition that fails.
pub data Refused (raw : List ℕ) : Error → Type 0 where
  empty : raw ≡ [] → Refused raw (record { code = sentence_empty; detail = [] })
  short :
      raw ≢ []
      → length (chomp raw) < 14
      → Refused raw (record { code = sentence_too_short; detail = [] })
  bad_start :
      14 ≤ length (chomp raw)
      → ¬ IsMark (get_or (chomp raw) 0 0)
      → Refused raw (record { code = sentence_invalid_start; detail = [] })
  no_star :
      IsStarted raw
      → Avoids b'*' (chomp raw)
      → Refused raw (record { code = sentence_missing_checksum; detail = [] })
  few_digits :
      (front back : List ℕ)
      → IsStarted raw
      → chomp raw ≡ front ++ b'*' ∷ back
      → Avoids b'*' back
      → length back < 2
      → Refused raw (record { code = sentence_missing_checksum; detail = [] })
  bad_digits :
      (body : List ℕ) (high low : ℕ)
      → IsFramed raw body high low
      → ¬ ((n : ℕ) × IsHexByte high low n)
      → Refused raw (record { code = sentence_checksum_bad; detail = high ∷ low ∷ [] })
  bad_sum :
      (body : List ℕ) (high low n : ℕ)
      → IsFramed raw body high low
      → IsHexByte high low n
      → n ≢ xor_from 0 body
      → Refused raw (record {
        code = sentence_checksum_bad;
        detail = codes "expected " ++ compute_checksum body ++ codes " got " ++ (high ∷ low ∷ []);
      })
  bad_fields :
      (body : List ℕ) (high low : ℕ) (e : Error)
      → IsFramed raw body high low
      → IsHexByte high low (xor_from 0 body)
      → FieldsRefused (split_fields body b',') e
      → Refused raw e

pub long_nonempty : (raw : List ℕ) → 14 ≤ length (chomp raw) → is_empty raw ≡ false
unfolding is_empty chomp
long_nonempty [] h = absurd (omega arith)
long_nonempty (c ∷ raw) h = refl

module _ (raw : List ℕ) (bytes : All IsByte raw) where
  pub parse-IsStarted : IsStarted raw → parse raw ≡ parse_at (chomp raw) (rfind (chomp raw) b'*')
  unfolding parse
  parse-IsStarted h =
      let full = long_nonempty raw h.long in
      let long : ltb (length (chomp raw)) 14 ≡ false = le→ltb (length (chomp raw)) 14 h.long in
      rw (full, long, IsMark-accepted (get_or (chomp raw) 0 0) h.marked) refl

  pub IsFramed-IsByte :
      {body : List ℕ} {high low : ℕ} → IsFramed raw body high low → All IsByte body
  IsFramed-IsByte {body} {high} {low} f =
      let (ending, came, _) = chomp-split raw in
      let line : All IsByte (chomp raw) =
        All-front IsByte (chomp raw) ending (subst (All IsByte) came bytes) in
      let whole : All IsByte (f.mark ∷ body ++ b'*' ∷ high ∷ low ∷ f.rest) =
        subst (All IsByte) f.whole line in
      All-front IsByte body _ whole.1

  pub parse-IsFramed :
      (body : List ℕ) (high low : ℕ)
      → IsFramed raw body high low
      → parse raw ≡ check_sum body (high ∷ low ∷ []) (parse_hex8 (high ∷ low ∷ []))
  parse-IsFramed body high low f =
      let star : rfind (f.mark ∷ body ++ b'*' ∷ high ∷ low ∷ f.rest) b'*'
          ≡ some (suc (length body)) =
        rfind-append (f.mark ∷ body) (high ∷ low ∷ f.rest) b'*'
          (rfind-Avoids (high ∷ low ∷ f.rest) b'*' f.last) in
      parse-IsStarted f.started ∙ rw (f.whole, star) (parse_at-line f.mark body high low f.rest)
