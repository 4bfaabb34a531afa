-- ===== src/Assembler/Preservation.antt =====
-- `feed` and `reset` keep the assembler's invariant.
use pgais.Base.{
  ℕ, ◌+◌, ◌-◌, ◌%◌, ◌^◌, ◌<◌, ◌≤◌, ◌≡◌, inl, inr, refl, arith, List, [], ◌∷◌, true, ◌||◌, text_eq,
  ◌==◌, ==_self, Option, none, some, length, length-set, length-replicate, ltb, ltb→lt, Bool-cases,
}
use pgais.Sentence.{Sentence}
use pgais.Sentence.Valid.{IsSentence}
use pgais.Assembler.{
  Sequence, Sequences, find, erase, update, open_sequence, store_part, accept, feed_part,
  feed_multi, feed, reset,
}
use pgais.Assembler.Invariant.{
  Waits, NoKey, IsAssembler, update-IsAssembler, erase-IsAssembler, find-none, find-some,
}

-- A part more, when another is still missing.
store_part-Waits :
    (id : ℕ) (s : Sentence) (seq : Sequence)
    → id ≤ 9
    → seq.part_count ≤ 5
    → seq.received < seq.part_count
    → length seq.parts ≡ seq.part_count
    → ltb (store_part s seq).received (store_part s seq).part_count ≡ true
    → Waits id (store_part s seq)
unfolding store_part
store_part-Waits id s seq key high missing places more = record {
  key_fits = key;
  count_high = high;
  some_received = omega arith;
  some_missing = ltb→lt _ _ more;
  places = omega (arith, length-set seq.parts (s.part_index - 1) s.payload);
}

accept-IsAssembler :
    (id : ℕ) (s : Sentence) (seq : Sequence) (st : Sequences)
    → Waits id seq
    → IsAssembler st
    → IsAssembler (accept id s seq st).0
unfolding accept
accept-IsAssembler id s seq st w h =
    elim (Bool-cases (ltb (store_part s seq).received (store_part s seq).part_count)) [
      | inl e ↦ rw e (
          update-IsAssembler id (store_part s seq) st
            (store_part-Waits id s seq w.key_fits w.count_high w.some_missing w.places e) h)
      | inr e ↦ rw e (erase-IsAssembler id st h)
    ]

accept-IsAssembler_open :
    (id : ℕ) (s : Sentence) (st : Sequences)
    → id ≤ 9
    → IsSentence s
    → NoKey id st
    → IsAssembler st
    → IsAssembler (accept id s (open_sequence s) ((id, open_sequence s) ∷ st)).0
unfolding accept update erase IsAssembler
accept-IsAssembler_open id s st key v fresh h =
    let seq = open_sequence s in
    let places = length-replicate {A = List ℕ} s.part_count [] in
    elim (Bool-cases (ltb (store_part s seq).received (store_part s seq).part_count)) [
      | inl e ↦
          rw (e, ==_self id)
            (
              store_part-Waits id s seq key v.count_high (omega (arith, v.count_low)) places e,
              fresh,
              h,
            )
      | inr e ↦ rw (e, ==_self id) h
    ]

feed_part-IsAssembler :
    (id : ℕ) (s : Sentence) (o : Option Sequence) (st : Sequences)
    → id ≤ 9
    → IsSentence s
    → IsAssembler st
    → find id st ≡ o
    → IsAssembler (feed_part id s o st).0
unfolding feed_part
feed_part-IsAssembler id s none st key v h e = elim (Bool-cases (s.part_index == 1)) [
  | inl b ↦ rw b (accept-IsAssembler_open id s st key v (find-none id st e) h)
  | inr b ↦ rw b h
]
feed_part-IsAssembler id s (some seq) st key v h e =
    elim (Bool-cases (seq.part_count == s.part_count)) [
      | inr b ↦ rw b h
      | inl b ↦ rw b (elim (Bool-cases (text_eq s.sentence_type seq.sentence_type)) [
        | inr c ↦ rw c h
        | inl c ↦ rw c (elim (Bool-cases (s.part_index == (seq.received + 1) % 2 ^ 8)) [
          | inr d ↦ rw d h
          | inl d ↦ rw d (accept-IsAssembler id s seq st (find-some id seq st h e) h)
        ])
      ])
    ]

feed_multi-IsAssembler :
    (s : Sentence) (st : Sequences)
    → IsSentence s
    → IsAssembler st
    → IsAssembler (feed_multi s s.seq_id st).0
unfolding feed_multi
feed_multi-IsAssembler s st v h = elim v.seq_id_fits [
  | inl (e, one) ↦ rw e h
  | inr (id, e, k) ↦ rw e (feed_part-IsAssembler id s (find id st) st k v h refl)
]

-- Every sentence that `parse` can return keeps the invariant, and `reset` sets it up.
pub feed-IsAssembler :
    (s : Sentence) (st : Sequences)
    → IsSentence s
    → IsAssembler st
    → IsAssembler (feed s st).0 × IsAssembler (reset st)
unfolding feed reset IsAssembler
feed-IsAssembler s st v h = (
  elim (Bool-cases (s.part_count == 1)) [
    | inl one ↦ rw one h
    | inr more ↦ rw more (elim (Bool-cases (s.part_count == 0 || ltb 5 s.part_count)) [
      | inl bad ↦ rw bad h
      | inr good ↦ rw good (feed_multi-IsAssembler s st v h)
    ])
  ],
  tt,
)
