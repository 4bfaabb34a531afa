-- ===== src/Assembler/Order.antt =====
-- The order in which sentences of different sequences come in.
use pgais.Base.{
  ℕ, ◌+◌, ◌%◌, ◌^◌, ◌≡◌, ◌≢◌, ◌⊎◌, inl, inr, refl, sym, ap, ◌∙◌, arith, ◌∷◌, ◌==◌, ==_self, ◌||◌,
  ltb, text_eq, Option, none, some, lt→ltb, ◌≤◌, if◌then◌else◌, Bool-cases,
}
use native.Mathlib.Decide.{ℕ_discrete}
use pgais.Sentence.{Sentence}
use pgais.Sentence.Valid.{IsSentence}
use pgais.Assembler.{
  Sequence, Sequences, find, open_sequence, store_part, accept, feed_part, feed_multi, feed,
}
use pgais.Assembler.Invariant.{IsAssembler, find-feed_ne}
use pgais.Assembler.Preservation.{feed-IsAssembler}
use pgais.Assembler.Steps.{find-update_self}
use pgais.Assembler.Tables.{find-erase}

-- What `feed` returns depends on the sequence of the sentence's own number only.
feed_part-result :
    (id : ℕ) (s : Sentence) (o : Option Sequence) (st st' : Sequences)
    → (feed_part id s o st).1 ≡ (feed_part id s o st').1
unfolding feed_part accept
feed_part-result id s none st st' = ground arith
feed_part-result id s (some seq) st st' = ground arith

feed_multi-result :
    (s : Sentence) (o : Option ℕ) (st st' : Sequences)
    → ((id : ℕ) → o ≡ some id → find id st ≡ find id st')
    → (feed_multi s o st).1 ≡ (feed_multi s o st').1
unfolding feed_multi
feed_multi-result s none st st' h = refl
feed_multi-result s (some id) st st' h = rw (h id refl) (feed_part-result id s (find id st') st st')

feed-result :
    (s : Sentence) (st st' : Sequences)
    → ((id : ℕ) → s.seq_id ≡ some id → find id st ≡ find id st')
    → (feed s st).1 ≡ (feed s st').1
unfolding feed
feed-result s st st' h = let multi = feed_multi-result s s.seq_id st st' h in ground arith

-- The sequence that the end of `feed` leaves under the number, if any.
abbrev left_by : Sentence → Sequence → Option Sequence
left_by s seq =
    if ltb (store_part s seq).received (store_part s seq).part_count
    then some (store_part s seq)
    else none

find-accept :
    (id : ℕ) (s : Sentence) (seq : Sequence) (st : Sequences)
    → IsAssembler st
    → find id st ≡ some seq
    → find id (accept id s seq st).0 ≡ left_by s seq
unfolding accept
find-accept id s seq st h e =
    let updated = find-update_self id seq (store_part s seq) st e in
    let erased = find-erase id st h in
    elim (Bool-cases (ltb (store_part s seq).received (store_part s seq).part_count)) [
      | inl more ↦ rw more updated
      | inr last ↦ rw last erased
    ]

find-accept_open :
    (id : ℕ) (s : Sentence) (st : Sequences)
    → 2 ≤ s.part_count
    → find id (accept id s (open_sequence s) ((id, open_sequence s) ∷ st)).0
      ≡ some (store_part s (open_sequence s))
unfolding accept store_part find
find-accept_open id s st low =
    let here : find id ((id, open_sequence s) ∷ st) ≡ some (open_sequence s) =
      rw (find, ==_self id) refl in
    let updated =
      find-update_self id (open_sequence s) (store_part s (open_sequence s))
        ((id, open_sequence s) ∷ st) here in
    rw (lt→ltb 1 s.part_count low) updated

find-feed_part :
    (id : ℕ) (s : Sentence) (o : Option Sequence) (st st' : Sequences)
    → 2 ≤ s.part_count
    → IsAssembler st
    → IsAssembler st'
    → find id st ≡ o
    → find id st' ≡ o
    → find id (feed_part id s o st).0 ≡ find id (feed_part id s o st').0
unfolding feed_part
find-feed_part id s none st st' low h h' e e' =
    let one = find-accept_open id s st low in
    let other = find-accept_open id s st' low in
    elim (Bool-cases (s.part_index == 1)) [
      | inl b ↦ rw b (one ∙ sym other)
      | inr b ↦ rw b (e ∙ sym e')
    ]
find-feed_part id s (some seq) st st' low h h' e e' =
    let accepted = find-accept id s seq st h e ∙ sym (find-accept id s seq st' h' e') in
    let kept = e ∙ sym e' in
    elim (Bool-cases (seq.part_count == s.part_count)) [
      | inr b ↦ rw b kept
      | inl b ↦ elim (Bool-cases (text_eq s.sentence_type seq.sentence_type)) [
        | inr c ↦ rw (b, c) kept
        | inl c ↦ elim (Bool-cases (s.part_index == (seq.received + 1) % 2 ^ 8)) [
          | inr d ↦ rw (b, c, d) kept
          | inl d ↦ rw (b, c, d) accepted
        ]
      ]
    ]

find-feed_multi :
    (s : Sentence) (o : Option ℕ) (st st' : Sequences) (id : ℕ)
    → 2 ≤ s.part_count
    → IsAssembler st
    → IsAssembler st'
    → o ≡ some id
    → find id st ≡ find id st'
    → find id (feed_multi s o st).0 ≡ find id (feed_multi s o st').0
unfolding feed_multi
find-feed_multi s none st st' id low h h' e same = same
find-feed_multi s (some key) st st' id low h h' e same =
    let own : key ≡ id = ground arith in
    rw (own, same) (find-feed_part id s (find id st') st st' low h h' same refl)

find-feed :
    (s : Sentence) (st st' : Sequences) (id : ℕ)
    → IsSentence s
    → IsAssembler st
    → IsAssembler st'
    → s.seq_id ≡ some id
    → find id st ≡ find id st'
    → find id (feed s st).0 ≡ find id (feed s st').0
unfolding feed
find-feed s st st' id v h h' e same = elim (Bool-cases (s.part_count == 1)) [
  | inl one ↦ rw one same
  | inr more ↦
      let low = v.count_low in
      let multi = find-feed_multi s s.seq_id st st' id (ground arith) h h' e same in
      elim (Bool-cases (s.part_count == 0 || ltb 5 s.part_count)) [
        | inl bad ↦ rw (more, bad) same
        | inr good ↦ rw (more, good) multi
      ]
]

some-cases : (o : Option ℕ) (id : ℕ) → (o ≡ some id) ⊎ (o ≢ some id)
some-cases none id = inr (λ e. cc)
some-cases (some key) id = elim (ℕ_discrete key id) [
  | yes e ↦ inl (ap (λ (k : ℕ). some k) e)
  | no n ↦ inr (λ e. n (ground arith))
]

find-feed_both :
    (s t : Sentence) (st : Sequences) (id : ℕ)
    → IsSentence s
    → IsAssembler st
    → IsAssembler (feed t st).0
    → t.seq_id ≢ some id
    → find id (feed t (feed s st).0).0 ≡ find id (feed s (feed t st).0).0
find-feed_both s t st id v h h' ne =
    let later = find-feed_ne t (feed s st).0 id ne in
    let sooner = find-feed_ne t st id ne in
    elim (some-cases s.seq_id id) [
      | inl own ↦ later ∙ sym (find-feed s (feed t st).0 st id v h' h own sooner)
      | inr other ↦
          later ∙ find-feed_ne s st id other ∙ sym (find-feed_ne s (feed t st).0 id other ∙ sooner)
    ]

-- Two sentences that `parse` can return, with different sequence numbers, may come in either order: each
-- gets the answer that it gets alone, and either order leaves the same sequence under every number.
pub feed-commutes :
    (s t : Sentence) (st : Sequences)
    → IsSentence s
    → IsSentence t
    → IsAssembler st
    → s.seq_id ≢ t.seq_id
    → ((feed t (feed s st).0).1 ≡ (feed t st).1)
      × ((feed s (feed t st).0).1 ≡ (feed s st).1)
      × ((id : ℕ) → find id (feed t (feed s st).0).0 ≡ find id (feed s (feed t st).0).0)
feed-commutes s t st v u h apart =
    let after_s = (feed-IsAssembler s st v h).0 in
    let after_t = (feed-IsAssembler t st u h).0 in
    (
      feed-result t (feed s st).0 st (λ id e. find-feed_ne s st id (λ q. apart (q ∙ sym e))),
      feed-result s (feed t st).0 st (λ id e. find-feed_ne t st id (λ q. apart (e ∙ sym q))),
      λ id. elim (some-cases t.seq_id id) [
        | inl own ↦ sym (find-feed_both t s st id u h after_s (λ q. apart (q ∙ sym own)))
        | inr other ↦ find-feed_both s t st id v h after_t other
      ],
    )
