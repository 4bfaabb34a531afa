-- ===== src/Sentence/NumberErrors.antt =====
-- The numbers of a sentence that `Sentence::parse` refuses.
use pgais.Base.{
  ℕ, ◌≤◌, ◌≡◌, ◌≢◌, ◌⊎◌, inl, inr, refl, ap, arith, List, [], ◌∷◌, ◌++◌, true, false, ◌&&◌, ◌==◌,
  Option, none, some, length, get_or, ltb, codes,
}
use pgais.Error.{
  Error, ok, err, multipart_count_invalid, multipart_seq_invalid, sentence_field_invalid,
  payload_empty, payload_fill_bits_invalid,
}
use pgais.Payload.{is_empty}
use pgais.Sentence.{parse_seq_id, parse_numbers}
use pgais.Sentence.Ranges.{
  IsIn, IsOutOf, parse_number-in, parse_number-out, count-Bounds, index-Bounds, most-Bounds,
}

-- The number of parts and the number of the part.
pub record IsCounted (fields : List (List ℕ)) (n i : ℕ) : Type 0 where
  pub count : IsIn (get_or fields 1 []) 1 5 n
  pub index : IsIn (get_or fields 2 []) 1 n i

-- The sequence number, which only a sentence of one part may lack.
pub data IsNumbered (fields : List (List ℕ)) (n : ℕ) : Option ℕ → Type 0 where
  single : get_or fields 3 [] ≡ [] → n ≡ 1 → IsNumbered fields n none
  numbered : (id : ℕ) → IsIn (get_or fields 3 []) 0 9 id → IsNumbered fields n (some id)

-- The errors of the numbers of a sentence, each with the first condition that fails.
pub data NumbersRefused (fields : List (List ℕ)) : Error → Type 0 where
  bad_count :
      IsOutOf (get_or fields 1 []) 1 5
      → NumbersRefused fields
          (record { code = multipart_count_invalid; detail = get_or fields 1 [] })
  bad_index :
      (n : ℕ)
      → IsIn (get_or fields 1 []) 1 5 n
      → IsOutOf (get_or fields 2 []) 1 n
      → NumbersRefused fields (record {
        code = sentence_field_invalid;
        detail = codes "part_index=" ++ get_or fields 2 [];
      })
  bad_seq_id :
      (n i : ℕ)
      → IsCounted fields n i
      → get_or fields 3 [] ≢ []
      → IsOutOf (get_or fields 3 []) 0 9
      → NumbersRefused fields (record { code = multipart_seq_invalid; detail = get_or fields 3 [] })
  no_seq_id :
      (n i : ℕ)
      → IsCounted fields n i
      → get_or fields 3 [] ≡ []
      → 2 ≤ n
      → NumbersRefused fields (record {
        code = multipart_seq_invalid;
        detail = codes "empty seq_id for multi-part sentence";
      })
  no_payload :
      (i : ℕ) (o : Option ℕ)
      → IsCounted fields 1 i
      → IsNumbered fields 1 o
      → get_or fields 5 [] ≡ []
      → NumbersRefused fields (record { code = payload_empty; detail = [] })
  bad_fill_bits :
      (n i : ℕ) (o : Option ℕ)
      → IsCounted fields n i
      → IsNumbered fields n o
      → (get_or fields 5 [] ≢ []) ⊎ (2 ≤ n)
      → IsOutOf (get_or fields 6 []) 0 5
      → NumbersRefused fields
          (record { code = payload_fill_bits_invalid; detail = get_or fields 6 [] })

pub is_empty_ne : (text : List ℕ) → text ≢ [] → is_empty text ≡ false
unfolding is_empty
is_empty_ne [] h = absurd (h refl)
is_empty_ne (c ∷ text) h = refl

pub is_empty_nil : (text : List ℕ) → text ≡ [] → is_empty text ≡ true
unfolding is_empty
is_empty_nil text e = rw e refl

nil-IsOutOf : (text : List ℕ) (least most : ℕ) → text ≡ [] → IsOutOf text least most
nil-IsOutOf text least most e h = absurd (omega (arith, h.1.numeral.some_digit, ap length e))

pub parse_seq_id-IsNumbered :
    (fields : List (List ℕ)) (n : ℕ) (o : Option ℕ)
    → IsNumbered fields n o
    → parse_seq_id (get_or fields 3 []) n ≡ ok o
unfolding parse_seq_id
parse_seq_id-IsNumbered fields n _ (single e one) =
    rw (is_empty_nil (get_or fields 3 []) e, one) refl
parse_seq_id-IsNumbered fields n _ (numbered id h) =
    let some_text : is_empty (get_or fields 3 []) ≡ false =
      is_empty_ne (get_or fields 3 []) (λ e. nil-IsOutOf (get_or fields 3 []) 0 9 e (id, h)) in
    rw
      (
        some_text,
        parse_number-in (get_or fields 3 []) (λ sid. ltb 9 sid) 0 9 (most-Bounds 9) _ id h,
      )
      refl

pub payload_enough :
    (payload : List ℕ) (n : ℕ) → (payload ≢ []) ⊎ (2 ≤ n) → (is_empty payload && n == 1) ≡ false
payload_enough payload n (inl ne) = rw (is_empty_ne payload ne) refl
payload_enough payload n (inr more) = let ne : (n == 1) ≡ false = ground arith in ground arith

pub parse_numbers-refused :
    (talker type : List ℕ) (fields : List (List ℕ)) (e : Error)
    → NumbersRefused fields e
    → parse_numbers talker type fields ≡ err e
unfolding parse_numbers parse_seq_id
parse_numbers-refused talker type fields _ (bad_count h) =
    rw (parse_number-out _ _ 1 5 count-Bounds _ h) refl
parse_numbers-refused talker type fields _ (bad_index n c h) =
    rw (parse_number-in _ _ 1 5 count-Bounds _ n c, parse_number-out _ _ 1 n (index-Bounds n) _ h)
      refl
parse_numbers-refused talker type fields _ (bad_seq_id n i c ne h) =
    rw
      (
        parse_number-in _ _ 1 5 count-Bounds _ n c.count,
        parse_number-in _ _ 1 n (index-Bounds n) _ i c.index,
        is_empty_ne (get_or fields 3 []) ne,
        parse_number-out _ _ 0 9 (most-Bounds 9) _ h,
      )
      refl
parse_numbers-refused talker type fields _ (no_seq_id n i c e more) =
    let several : ltb 1 n ≡ true = ground arith in
    rw
      (
        parse_number-in _ _ 1 5 count-Bounds _ n c.count,
        parse_number-in _ _ 1 n (index-Bounds n) _ i c.index,
        is_empty_nil (get_or fields 3 []) e,
        several,
      )
      refl
parse_numbers-refused talker type fields _ (no_payload i o c s e) =
    rw
      (
        parse_number-in _ _ 1 5 count-Bounds _ 1 c.count,
        parse_number-in _ _ 1 1 (index-Bounds 1) _ i c.index,
        parse_seq_id-IsNumbered fields 1 o s,
        is_empty_nil (get_or fields 5 []) e,
      )
      refl
parse_numbers-refused talker type fields _ (bad_fill_bits n i o c s p h) =
    rw
      (
        parse_number-in _ _ 1 5 count-Bounds _ n c.count,
        parse_number-in _ _ 1 n (index-Bounds n) _ i c.index,
        parse_seq_id-IsNumbered fields n o s,
        payload_enough (get_or fields 5 []) n p,
        parse_number-out _ _ 0 5 (most-Bounds 5) _ h,
      )
      refl
