-- ===== src/Sentence/NumberCases.antt =====
-- Which numbers of a sentence `Sentence::parse` accepts and which it refuses: one or the other.
use pgais.Base.{
  ℕ, ◌≤◌, ◌≡◌, ◌≢◌, ◌⊎◌, inl, inr, refl, arith, List, [], ◌∷◌, ◌==◌, Option, none, some, get_or,
  ltb, Bool-cases,
}
use pgais.Error.{Error, ok}
use pgais.Sentence.{Sentence, parse_numbers}
use pgais.Sentence.Ranges.{
  parse_number-in, parse_number-cases, count-Bounds, index-Bounds, most-Bounds,
}
use pgais.Sentence.NumberErrors.{
  IsCounted, IsNumbered, single, numbered, NumbersRefused, bad_count, bad_index, bad_seq_id,
  no_seq_id, no_payload, bad_fill_bits, parse_seq_id-IsNumbered, payload_enough,
}

pub nil_cases : (text : List ℕ) → (text ≡ []) ⊎ (text ≢ [])
nil_cases [] = inl refl
nil_cases (c ∷ text) = inr (λ e. cc)

numbered_cases :
    (fields : List (List ℕ)) (n i : ℕ)
    → IsCounted fields n i
    → ((o : Option ℕ) × IsNumbered fields n o) ⊎ ((e : Error) × NumbersRefused fields e)
numbered_cases fields n i c = elim (nil_cases (get_or fields 3 [])) [
  | inl e ↦ elim (Bool-cases (n == 1)) [
    | inl one ↦ inl (none, single e (ground arith))
    | inr more ↦ let low = c.count.low in inr (_, no_seq_id n i c e (ground arith))
  ]
  | inr ne ↦ elim (parse_number-cases (get_or fields 3 []) _ 0 9 (most-Bounds 9)) [
    | inl (id, h) ↦ inl (some id, numbered id h)
    | inr (h, _) ↦ inr (_, bad_seq_id n i c ne h)
  ]
]

payload_cases : (payload : List ℕ) (n : ℕ) → ((payload ≢ []) ⊎ (2 ≤ n)) ⊎ ((payload ≡ []) × (n ≤ 1))
payload_cases payload n = elim (nil_cases payload) [
  | inr ne ↦ inl (inl ne)
  | inl e ↦ elim (Bool-cases (ltb n 2)) [
    | inl few ↦ inr (e, ground arith)
    | inr many ↦ inl (inr (ground arith))
  ]
]

fill_cases :
    (talker type : List ℕ) (fields : List (List ℕ)) (n i : ℕ) (o : Option ℕ)
    → IsCounted fields n i
    → IsNumbered fields n o
    → ((s : Sentence) × (parse_numbers talker type fields ≡ ok s))
      ⊎ ((e : Error) × NumbersRefused fields e)
unfolding parse_numbers
fill_cases talker type fields n i o c s = elim (payload_cases (get_or fields 5 []) n) [
  | inr (e, few) ↦
      let low = c.count.low in
      let one : n ≡ 1 = omega arith in inr (_, no_payload i o (rw one at c) (rw one at s) e)
  | inl p ↦ elim (parse_number-cases (get_or fields 6 []) _ 0 5 (most-Bounds 5)) [
    | inr (h, _) ↦ inr (_, bad_fill_bits n i o c s p h)
    | inl (f, fill) ↦ inl (
      record {
        talker = talker;
        sentence_type = type;
        part_count = n;
        part_index = i;
        seq_id = o;
        channel = get_or (get_or fields 4 []) 0 b'A';
        payload = get_or fields 5 [];
        fill_bits = f;
      },
      rw
          (
            parse_number-in _ _ 1 5 count-Bounds _ n c.count,
            parse_number-in _ _ 1 n (index-Bounds n) _ i c.index,
            parse_seq_id-IsNumbered fields n o s,
            payload_enough (get_or fields 5 []) n p,
            parse_number-in _ _ 0 5 (most-Bounds 5) _ f fill,
          )
          refl,
    )
  ]
]

-- The numbers are either those of a sentence or refused.
pub parse_numbers-cases :
    (talker type : List ℕ) (fields : List (List ℕ))
    → ((s : Sentence) × (parse_numbers talker type fields ≡ ok s))
      ⊎ ((e : Error) × NumbersRefused fields e)
parse_numbers-cases talker type fields =
    elim (parse_number-cases (get_or fields 1 []) _ 1 5 count-Bounds) [
      | inr (h, _) ↦ inr (_, bad_count h)
      | inl (n, count) ↦ elim (parse_number-cases (get_or fields 2 []) _ 1 n (index-Bounds n)) [
        | inr (h, _) ↦ inr (_, bad_index n count h)
        | inl (i, index) ↦
            let c : IsCounted fields n i = record { count = count; index = index } in
            elim (numbered_cases fields n i c) [
              | inr refused ↦ inr refused
              | inl (o, s) ↦ fill_cases talker type fields n i o c s
            ]
      ]
    ]
