-- ===== src/Sentence/Outcomes.antt =====
-- `Sentence::parse` against the lines that it refuses: a line is a sentence's or it is refused.
use pgais.Base.{
  ℕ, ◌+◌, ◌≤◌, ◌≡◌, ◌⊎◌, ◌↔◌, inl, inr, refl, sym, ap, ◌∙◌, arith, List, [], ◌∷◌, ◌++◌, true, false,
  not, ◌&&◌, ◌==◌, All, length, length-append, get_or, ltb, le→ltb, Bool-cases, Option-cases,
}
use mathlib.Core.Path.{subst}
use pgais.Error.{Error, Result, ok, err}
use pgais.Payload.{is_empty}
use pgais.Bitfield.Storage.{IsByte}
use pgais.Sentence.{
  Sentence, split_fields, check_sum, parse_at, parse, chomp, rfind, xor_from, parse_hex8,
}
use pgais.Sentence.Parts.{Avoids, rfind-append, rfind-Avoids, rfind-split, rfind_none}
use pgais.Sentence.Line.{IsMark, check_sum-body_of, check_sum-other}
use pgais.Sentence.Numerals.{IsHexByte, parse_hex8-IsHexByte}
use pgais.Sentence.FieldErrors.{parse_fields-refused, parse_fields-cases}
use pgais.Sentence.NumberErrors.{is_empty_ne}
use pgais.Sentence.NumberCases.{nil_cases}
use pgais.Sentence.Refused.{
  IsStarted, IsFramed, Refused, empty, short, bad_start, no_star, few_digits, bad_digits, bad_sum,
  bad_fields, long_nonempty, parse-IsStarted, IsFramed-IsByte, parse-IsFramed,
}

start_refused : (c : ℕ) → ¬ IsMark c → (not (c == b'!') && not (c == b'$')) ≡ true
start_refused c ne = ground arith

IsMark-cases : (c : ℕ) → IsMark c ⊎ ¬ IsMark c
IsMark-cases c = elim (Bool-cases (c == b'!')) [
  | inl e ↦ inl (inl (ground arith))
  | inr e ↦ elim (Bool-cases (c == b'$')) [
    | inl f ↦ inl (inr (ground arith))
    | inr f ↦ inr (λ h. ground arith)
  ]
]

error_or : {A : Type 0} → Result A → Error → Error
error_or (ok a) e = e
error_or (err f) e = f

module _ (raw : List ℕ) (bytes : All IsByte raw) where
  Refused-parse : (e : Error) → Refused raw e → parse raw ≡ err e
  unfolding parse parse_at check_sum is_empty
  Refused-parse _ (empty same) = rw same refl
  Refused-parse _ (short ne h) =
      let full = is_empty_ne raw ne in
      let few : ltb (length (chomp raw)) 14 ≡ true = ground arith in rw (full, few) refl
  Refused-parse _ (bad_start h ne) =
      let full = long_nonempty raw h in
      let long : ltb (length (chomp raw)) 14 ≡ false = le→ltb (length (chomp raw)) 14 h in
      rw (full, long, start_refused (get_or (chomp raw) 0 0) ne) refl
  Refused-parse _ (no_star h none_there) =
      parse-IsStarted raw bytes h ∙ rw (rfind-Avoids (chomp raw) b'*' none_there) refl
  Refused-parse _ (few_digits front back h split avoids few) =
      let star = rfind-append front back b'*' (rfind-Avoids back b'*' avoids) in
      let size = length-append front (b'*' ∷ back) in
      let cut : ltb (length (front ++ b'*' ∷ back)) (length front + 3) ≡ true = ground arith in
      parse-IsStarted raw bytes h ∙ rw (split, star, cut) refl
  Refused-parse _ (bad_digits body high low f ne) =
      elim (Option-cases (parse_hex8 (high ∷ low ∷ []))) [
        | inl p ↦ parse-IsFramed raw bytes body high low f ∙ rw p refl
        | inr (n, p) ↦ absurd (ne (n, (parse_hex8-IsHexByte high low n).0 p))
      ]
  Refused-parse _ (bad_sum body high low n f h ne) =
      parse-IsFramed raw bytes body high low f
      ∙ rw ((parse_hex8-IsHexByte high low n).1 h)
          (check_sum-other body n (high ∷ low ∷ []) (IsFramed-IsByte raw bytes f) ne)
  Refused-parse e (bad_fields body high low _ f h refused) =
      parse-IsFramed raw bytes body high low f
      ∙ rw ((parse_hex8-IsHexByte high low _).1 h) (
          check_sum-body_of body (IsFramed-IsByte raw bytes f) (high ∷ low ∷ [])
          ∙ parse_fields-refused (split_fields body b',') e refused)

  framed_cases :
      (body : List ℕ) (high low : ℕ)
      → IsFramed raw body high low
      → ((s : Sentence) × (parse raw ≡ ok s)) ⊎ ((e : Error) × Refused raw e)
  framed_cases body high low f = elim (Option-cases (parse_hex8 (high ∷ low ∷ []))) [
    | inl p ↦ inr (
      _,
      bad_digits body high low f
          (λ h. let read = (parse_hex8-IsHexByte high low h.0).1 h.1 in absurd cc),
    )
    | inr (n, p) ↦
        let h = (parse_hex8-IsHexByte high low n).0 p in
        elim (Bool-cases (n == xor_from 0 body)) [
          | inr differ ↦ inr (_, bad_sum body high low n f h (ground arith))
          | inl equal ↦
              let same : n ≡ xor_from 0 body = ground arith in
              elim (parse_fields-cases (split_fields body b',')) [
                | inr (e, refused) ↦
                    inr
                      (e, bad_fields body high low e f (subst (IsHexByte high low) same h) refused)
                | inl (s, q) ↦ inl (
                  s,
                  parse-IsFramed raw bytes body high low f
                      ∙ rw (p, same)
                          (check_sum-body_of body (IsFramed-IsByte raw bytes f) (high ∷ low ∷ [])
                            ∙ q),
                )
              ]
        ]
  ]

  split_cases :
      (front back : List ℕ)
      → IsStarted raw
      → chomp raw ≡ front ++ b'*' ∷ back
      → Avoids b'*' back
      → ((s : Sentence) × (parse raw ≡ ok s)) ⊎ ((e : Error) × Refused raw e)
  split_cases [] back h split avoids =
      let start : IsMark b'*' = rw split at h.marked in absurd (ground arith)
  split_cases (mark ∷ body) [] h split avoids =
      inr (_, few_digits (mark ∷ body) [] h split avoids (omega arith))
  split_cases (mark ∷ body) (c ∷ []) h split avoids =
      inr (_, few_digits (mark ∷ body) (c ∷ []) h split avoids (omega arith))
  split_cases (mark ∷ body) (c ∷ d ∷ rest) h split avoids =
      framed_cases body c d
        (record { mark = mark; rest = rest; started = h; whole = split; last = avoids })

  started_cases :
      IsStarted raw → ((s : Sentence) × (parse raw ≡ ok s)) ⊎ ((e : Error) × Refused raw e)
  started_cases h = elim (Option-cases (rfind (chomp raw) b'*')) [
    | inl p ↦ inr (_, no_star h (rfind_none (chomp raw) b'*' p))
    | inr (i, p) ↦
        let (front, back, split, _, avoids) = rfind-split (chomp raw) b'*' i p in
        split_cases front back h split avoids
  ]

  parse_cases : ((s : Sentence) × (parse raw ≡ ok s)) ⊎ ((e : Error) × Refused raw e)
  parse_cases = elim (nil_cases raw) [
    | inl e ↦ inr (_, empty e)
    | inr ne ↦ elim (Bool-cases (ltb (length (chomp raw)) 14)) [
      | inl few ↦ inr (_, short ne (ground arith))
      | inr enough ↦
          let long : 14 ≤ length (chomp raw) = ground arith in
          elim (IsMark-cases (get_or (chomp raw) 0 0)) [
            | inl marked ↦ started_cases (record { long = long; marked = marked })
            | inr unmarked ↦ inr (_, bad_start long unmarked)
          ]
    ]
  ]

  refusal : (e : Error) → parse raw ≡ err e → Refused raw e
  unfolding error_or
  refusal e p = elim parse_cases [
    | inl (s, q) ↦ absurd cc
    | inr (f, refused) ↦
        subst (Refused raw)
          (ap (λ (r : Result Sentence). error_or r e) (sym (Refused-parse f refused) ∙ p)) refused
  ]

-- `parse` of a text of bytes fails with an error, its code and its detail, just when the text has the
-- first defect that belongs to the error. In order: it is empty; it has fewer than 14 characters without
-- its line ends; it starts with neither `!` nor `$`; it has no `*`, or fewer than two characters behind
-- the last one; these are not hexadecimal digits, or not those of the body's checksum; there are fewer
-- than seven fields; the first is not of five characters, not of a known talker, or not of VDM or VDO;
-- the number of parts is not 1 to 5, or the part's number not 1 to that; the sequence number is not 0 to
-- 9, or is missing with several parts; a single part has no payload; the fill bits are not 0 to 5.
pub parse-Refused :
    (raw : List ℕ) (e : Error) → All IsByte raw → (parse raw ≡ err e) ↔ Refused raw e
parse-Refused raw e bytes = (refusal raw bytes e, Refused-parse raw bytes e)
