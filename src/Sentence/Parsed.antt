-- ===== src/Sentence/Parsed.antt =====
-- What `Sentence::parse` returns keeps to the invariant of a sentence.
use mathlib.Core.Path.{subst}
use pgais.Base.{
  ℕ, ◌+◌, ◌-◌, ◌≤◌, ◌≡◌, ◌⊎◌, inl, inr, refl, arith, List, [], Bool, true, false, Option, none,
  some, ltb, get_or, take, drop, codes, text_eq→eq,
}
use pgais.Error.{multipart_seq_invalid, Error, Result, ok, err}
use pgais.Sentence.{
  Sentence, is_valid_talker, split_fields, parse_number, parse_seq_id, parse_numbers, parse_fields,
  check_sum, parse_at, parse, rfind, parse_hex8, chomp,
}
use pgais.Sentence.Valid.{IsSentence}

Result-cases : {A : Type 0} (r : Result A) → ((a : A) × (r ≡ ok a)) ⊎ ((e : Error) × (r ≡ err e))
Result-cases (ok a) = inl (a, refl)
Result-cases (err e) = inr (e, refl)

parse_number-ok :
    (field : List ℕ) (bad : ℕ → Bool) (e : Error) (v : ℕ)
    → parse_number field bad e ≡ ok v
    → bad v ≡ false
unfolding parse_number
parse_number-ok field bad e v h = ground arith

abbrev IsSeqId : ℕ → Option ℕ → Type 0
IsSeqId part_count o = ((o ≡ none) × (part_count ≡ 1)) ⊎ ((id : ℕ) × (o ≡ some id) × (id ≤ 9))

parse_seq_id-ok :
    (field : List ℕ) (part_count : ℕ) (o : Option ℕ)
    → 1 ≤ part_count
    → parse_seq_id field part_count ≡ ok o
    → IsSeqId part_count o
unfolding parse_seq_id
parse_seq_id-ok field part_count o low h =
    let e : Error = record { code = multipart_seq_invalid; detail = field } in
    elim (Result-cases (parse_number field (λ sid. ltb 9 sid) e)) [
      | inl (v, p) ↦ let q = parse_number-ok field (λ sid. ltb 9 sid) e v p in ground arith
      | inr (v, p) ↦ ground arith
    ]

abbrev IsType : List ℕ → Type 0
IsType type = (type ≡ codes "VDM") ⊎ (type ≡ codes "VDO")

parse_numbers-IsSentence :
    (talker type : List ℕ) (fields : List (List ℕ)) (s : Sentence)
    → is_valid_talker talker ≡ true
    → IsType type
    → parse_numbers talker type fields ≡ ok s
    → IsSentence s
unfolding parse_numbers parse_number
parse_numbers-IsSentence talker type fields s valid typed h = record {
  talker_valid = ground arith;
  type_valid = subst IsType (ground arith) typed;
  count_low = ground arith;
  count_high = ground arith;
  index_low = ground arith;
  index_high = ground arith;
  seq_id_fits = ground (arith, parse_seq_id-ok (get_or fields 3 []));
  has_payload = ground arith;
  fill_bits_high = ground arith;
}

pub parse_fields-IsSentence :
    (fields : List (List ℕ)) (s : Sentence) → parse_fields fields ≡ ok s → IsSentence s
unfolding parse_fields
parse_fields-IsSentence fields s h =
    let head = get_or fields 0 [] in
    let from = parse_numbers-IsSentence (take 2 head) (take 3 (drop 2 head)) fields s in
    let vdm = text_eq→eq (take 3 (drop 2 head)) (codes "VDM") in
    let vdo = text_eq→eq (take 3 (drop 2 head)) (codes "VDO") in ground arith

check_sum-IsSentence :
    (body text : List ℕ) (o : Option ℕ) (s : Sentence) → check_sum body text o ≡ ok s → IsSentence s
unfolding check_sum
check_sum-IsSentence body text none s h = cc
check_sum-IsSentence body text (some transmitted) s h =
    let from = parse_fields-IsSentence (split_fields body b',') s in ground arith

parse_at-IsSentence :
    (line : List ℕ) (o : Option ℕ) (s : Sentence) → parse_at line o ≡ ok s → IsSentence s
unfolding parse_at
parse_at-IsSentence line none s h = cc
parse_at-IsSentence line (some star) s h =
    let text = take 2 (drop (star + 1) line) in
    let from = check_sum-IsSentence (take (star - 1) (drop 1 line)) text (parse_hex8 text) s in
    ground arith

-- Whatever `parse` returns: a known talker, VDM or VDO, 1 to 5 parts, a part number from 1 to that count,
-- a sequence number of at most 9 that only a single part may lack, a payload that only a part of several
-- may lack, and at most 5 fill bits.
pub parse-IsSentence : (raw : List ℕ) (s : Sentence) → parse raw ≡ ok s → IsSentence s
unfolding parse
parse-IsSentence raw s h =
    let line = chomp raw in let from = parse_at-IsSentence line (rfind line b'*') s in ground arith
