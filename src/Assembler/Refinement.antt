-- ===== src/Assembler/Refinement.antt =====
-- `feed` implements the specification of Spec.antt, sentence by sentence.
use pgais.Base.{
  ℕ, suc, ◌+◌, ◌%◌, ◌^◌, ◌≤◌, ◌≡◌, inl, inr, refl, sym, ◌∙◌, arith, List, [], ◌∷◌, true, false,
  ◌||◌, not, Option, none, some, ltb, leb, ◌==◌, ==_self, if◌then◌else◌, text_eq, All, Bool-cases,
  length-replicate,
}
use pgais.Error.{fail_with, multipart_duplicate, multipart_out_of_order}
use pgais.Sentence.{Sentence}
use pgais.Sentence.Valid.{IsSentence}
use pgais.Assembler.{
  Sequence, Sequences, find, open_sequence, accept, feed_part, feed_multi, feed, reset,
}
use pgais.Assembler.Invariant.{Waits, IsAssembler, find-some}
use pgais.Assembler.Preservation.{feed-IsAssembler}
use pgais.Assembler.Spec.{
  put, Outcome, pending, delivered, refused, outcome, opened, extended, completed, accept_part,
  accept_numbered, accept_sentence, answers,
}
use pgais.Assembler.Tables.{
  pending_of, seen, table_of, Agrees, HasRoom, put-table_of, length-take, accept-more-Agrees,
  accept-last-Agrees,
}

-- The answers of the code to sentences, one after the other.
unfoldable pub feed_answers : List Sentence → Sequences → List Outcome
feed_answers [] st = []
feed_answers (s ∷ ss) st = outcome (feed s st).1 ∷ feed_answers ss (feed s st).0

-- The end of `feed`, for a first part.
accept-opened-Agrees :
    (id : ℕ) (s : Sentence) (st : Sequences)
    → 2 ≤ s.part_count
    → s.part_count ≤ 5
    → s.part_index ≡ 1
    → Agrees
        (accept id s (open_sequence s) ((id, open_sequence s) ∷ st))
        (put id (some (opened s)) (table_of st), pending)
unfolding find
accept-opened-Agrees id s st low high first =
    let r : HasRoom s (open_sequence s) = record {
      count_high = high;
      some_missing = omega arith;
      places = length-replicate {A = List ℕ} s.part_count [];
      next = first;
    } in
    let found : find id ((id, open_sequence s) ∷ st) ≡ some (open_sequence s) =
      rw (==_self id) refl in
    let (table, answer) =
      accept-more-Agrees id s (open_sequence s) ((id, open_sequence s) ∷ st) r found
        (omega arith) in
    (table ∙ put-table_of id (open_sequence s) st (some (opened s)), answer)

-- What `feed` does with a part that fits the sequence, by its number.
next_part-Agrees :
    (id : ℕ) (s : Sentence) (seq : Sequence) (st : Sequences) (duplicate out_of_order : List ℕ)
    (expected : ℕ)
    → expected ≡ suc seq.received
    → Waits id seq
    → IsAssembler st
    → find id st ≡ some seq
    → seq.part_count ≡ s.part_count
    → Agrees
        (if not (s.part_index == expected)
          then (
            st,
            (if leb s.part_index seq.received
                then fail_with multipart_duplicate duplicate
                else fail_with multipart_out_of_order out_of_order),
          )
          else accept id s seq st)
        (if leb s.part_index seq.received
          then (table_of st, refused multipart_duplicate)
          else if ltb (suc seq.received) s.part_index
          then (table_of st, refused multipart_out_of_order)
          else if s.part_index == seq.part_count
          then (put id none (table_of st), delivered (completed s (pending_of seq)))
          else (put id (some (extended s (pending_of seq))) (table_of st), pending))
unfolding outcome
next_part-Agrees id s seq st duplicate out_of_order expected counted w h e same =
    elim (Bool-cases (s.part_index == expected)) [
      | inr b ↦ elim (Bool-cases (leb s.part_index seq.received)) [
        | inl c ↦ rw (b, c) (refl, refl)
        | inr c ↦
            let late : ltb (suc seq.received) s.part_index ≡ true = ground arith in
            rw (b, c, late) (refl, refl)
      ]
      | inl b ↦
          let next : s.part_index ≡ suc seq.received = ground arith in
          let r : HasRoom s seq = record {
            count_high = w.count_high;
            some_missing = w.some_missing;
            places = w.places;
            next = next;
          } in
          let fresh : leb s.part_index seq.received ≡ false = ground arith in
          let in_order : ltb (suc seq.received) s.part_index ≡ false = ground arith in
          elim (Bool-cases (s.part_index == seq.part_count)) [
            | inl c ↦ rw (b, fresh, in_order, c) (accept-last-Agrees id s seq st r h (ground arith))
            | inr c ↦
                rw (b, fresh, in_order, c)
                  (accept-more-Agrees id s seq st r e (ground (arith, w.some_missing)))
          ]
    ]

feed_part-Agrees :
    (id : ℕ) (s : Sentence) (o : Option Sequence) (st : Sequences)
    → 2 ≤ s.part_count
    → s.part_count ≤ 5
    → IsAssembler st
    → find id st ≡ o
    → Agrees (feed_part id s o st) (accept_part id s (seen o) (table_of st))
unfolding feed_part accept_part seen outcome
feed_part-Agrees id s none st low high h e = elim (Bool-cases (s.part_index == 1)) [
  | inl b ↦ rw b (accept-opened-Agrees id s st low high (ground arith))
  | inr b ↦ rw b (refl, refl)
]
feed_part-Agrees id s (some seq) st low high h e =
    let w = find-some id seq st h e in
    let counted = length-take seq.received seq.parts (omega (arith, w.some_missing, w.places)) in
    let next : (seq.received + 1) % 2 ^ 8 ≡ suc seq.received =
      omega (arith, w.count_high, w.some_missing) in
    rw counted (elim (Bool-cases (seq.part_count == s.part_count)) [
      | inr b ↦ rw b (refl, refl)
      | inl b ↦ rw b (elim (Bool-cases (text_eq s.sentence_type seq.sentence_type)) [
        | inr c ↦ rw c (refl, refl)
        | inl c ↦ rw c (
            next_part-Agrees id s seq st _ _ ((seq.received + 1) % 2 ^ 8) next w h e (ground arith))
      ])
    ])

-- One sentence that `parse` can return: the code's step and the specification's step agree.
feed-Agrees :
    (s : Sentence) (st : Sequences)
    → IsSentence s
    → IsAssembler st
    → Agrees (feed s st) (accept_sentence s (table_of st))
unfolding feed feed_multi accept_sentence accept_numbered outcome table_of
feed-Agrees s st v h = elim (Bool-cases (s.part_count == 1)) [
  | inl one ↦ rw one (refl, refl)
  | inr more ↦
      let counted : (s.part_count == 0 || ltb 5 s.part_count) ≡ false =
        ground (arith, v.count_low, v.count_high) in
      elim v.seq_id_fits [
        | inl (e, one) ↦ rw (more, counted, e) (refl, refl)
        | inr (id, e, k) ↦
            rw (more, counted, e)
              (feed_part-Agrees id s (find id st) st (ground (arith, v.count_low)) v.count_high h
                refl)
      ]
]

feed_answers-answers :
    (ss : List Sentence) (st : Sequences)
    → All IsSentence ss
    → IsAssembler st
    → feed_answers ss st ≡ answers ss (table_of st)
unfolding feed_answers answers
feed_answers-answers [] st v h = refl
feed_answers-answers (s ∷ ss) st v h =
    let (table, answer) = feed-Agrees s st v.0 h in
    let rest = feed_answers-answers ss (feed s st).0 v.1 (feed-IsAssembler s st v.0 h).0 in
    rw (sym table, sym answer, rest) refl

-- The assembler implements its specification: whatever sentences that `parse` can return are fed to an
-- assembler that was just made or reset, the answers are those of the specification, which starts with no
-- message pending.
pub feed-refines :
    (ss : List Sentence) (st : Sequences)
    → All IsSentence ss
    → feed_answers ss (reset st) ≡ answers ss (λ id. none)
unfolding reset table_of find seen IsAssembler
feed-refines ss st v = feed_answers-answers ss [] v tt
