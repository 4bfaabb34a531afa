-- ===== src/Assembler/Tables.antt =====
-- The table of the specification that a state of the assembler stands for, and what the end of `feed` does
-- to it.
use mathlib.Core.Path.{fun_ext}
use pgais.Base.{
  ℕ, zero, suc, ◌+◌, ◌-◌, ◌%◌, ◌^◌, ◌<◌, ◌≤◌, ◌≡◌, inl, inr, refl, sym, ap, ◌∙◌, arith, List, [],
  ◌∷◌, ◌++◌, false, Option, none, some, ◌==◌, length, take, set, Bool-cases, length-set,
}
use pgais.Error.{Result}
use pgais.Sentence.{Sentence}
use pgais.Assembler.{
  Sequence, Sequences, AssembledMessage, find, erase, update, store_part, assemble, accept,
}
use pgais.Assembler.Invariant.{NoKey, IsAssembler, find-update_ne, find-erase_ne}
use pgais.Assembler.Steps.{find-update_self, accept-more, accept-last}
use pgais.Assembler.Spec.{
  Pending, Table, put, Outcome, pending, delivered, outcome, extended, completed,
}

-- What the specification sees of a sequence, and of the map.
abbrev pub pending_of : Sequence → Pending
pending_of seq = record {
  payloads = take seq.received seq.parts;
  part_count = seq.part_count;
  talker = seq.talker;
  sentence_type = seq.sentence_type;
  is_own_vessel = seq.is_own_vessel;
}

unfoldable pub seen : Option Sequence → Option Pending
seen none = none
seen (some seq) = some (pending_of seq)

unfoldable pub table_of : Sequences → Table
unfolding find seen
table_of st key = seen (find key st)

pub length-take : (k : ℕ) (ps : List (List ℕ)) → k ≤ length ps → length (take k ps) ≡ k
length-take zero ps h = refl
length-take (suc k) [] h = absurd (omega arith)
length-take (suc k) (p ∷ ps) h = ap suc (length-take k ps (omega arith))

take_all : (k : ℕ) (ps : List (List ℕ)) → length ps ≡ k → take k ps ≡ ps
take_all zero [] h = refl
take_all (suc k) [] h = refl
take_all zero (p ∷ ps) h = absurd (omega arith)
take_all (suc k) (p ∷ ps) h = ap (◌∷◌ p) (take_all k ps (omega arith))

take-set :
    (k : ℕ) (ps : List (List ℕ)) (p : List ℕ)
    → k < length ps
    → take (suc k) (set ps k p) ≡ take k ps ++ p ∷ []
take-set zero [] p h = absurd (omega arith)
take-set zero (q ∷ ps) p h = refl
take-set (suc k) [] p h = absurd (omega arith)
take-set (suc k) (q ∷ ps) p h = ap (◌∷◌ q) (take-set k ps p (omega arith))

NoKey-find : (key : ℕ) (st : Sequences) → NoKey key st → find key st ≡ none
unfolding find
NoKey-find key [] h = refl
NoKey-find key ((k, q) ∷ st) h = let rest = NoKey-find key st h.1 in let first = h.0 in ground arith

pub find-erase : (id : ℕ) (st : Sequences) → IsAssembler st → find id (erase id st) ≡ none
unfolding find erase IsAssembler
find-erase id [] h = refl
find-erase id ((k, q) ∷ st) (w, fresh, h) = elim (Bool-cases (k == id)) [
  | inl e ↦ let same : k ≡ id = ground arith in rw e (NoKey-find id st (rw same at fresh))
  | inr e ↦ rw (e, e) (find-erase id st h)
]

table_of-update :
    (id : ℕ) (seq seq' : Sequence) (st : Sequences)
    → find id st ≡ some seq
    → table_of (update id seq' st) ≡ put id (some (pending_of seq')) (table_of st)
unfolding table_of put seen
table_of-update id seq seq' st h = fun_ext λ key. elim (Bool-cases (key == id)) [
  | inl e ↦
      let same : key ≡ id = ground arith in rw (e, same, find-update_self id seq seq' st h) refl
  | inr e ↦ rw (e, find-update_ne id key seq' st (λ p. ground arith)) refl
]

table_of-erase :
    (id : ℕ) (st : Sequences) → IsAssembler st → table_of (erase id st) ≡ put id none (table_of st)
unfolding table_of put seen
table_of-erase id st h = fun_ext λ key. elim (Bool-cases (key == id)) [
  | inl e ↦ let same : key ≡ id = ground arith in rw (e, same, find-erase id st h) refl
  | inr e ↦ rw (e, find-erase_ne id key st (λ p. ground arith)) refl
]

-- The code's step and the specification's step leave the same table and give the same answer.
abbrev pub Agrees : Sequences × Result (Option AssembledMessage) → Table × Outcome → Type 0
Agrees fed spec = (table_of fed.0 ≡ spec.0) × (outcome fed.1 ≡ spec.1)

-- A sequence that has room for the part.
pub record HasRoom (s : Sentence) (seq : Sequence) : Type 0 where
  pub count_high : seq.part_count ≤ 5
  pub some_missing : seq.received < seq.part_count
  pub places : length seq.parts ≡ seq.part_count
  pub next : s.part_index ≡ suc seq.received

store_part-received :
    (s : Sentence) (seq : Sequence) → HasRoom s seq → (store_part s seq).received ≡ suc seq.received
unfolding store_part
store_part-received s seq r = omega (arith, r.count_high, r.some_missing)

store_part-part_count :
    (s : Sentence) (seq : Sequence) → (store_part s seq).part_count ≡ seq.part_count
unfolding store_part
store_part-part_count s seq = refl

store_part-extended :
    (s : Sentence) (seq : Sequence)
    → HasRoom s seq
    → pending_of (store_part s seq) ≡ extended s (pending_of seq)
unfolding store_part
store_part-extended s seq r =
    let index : s.part_index - 1 ≡ seq.received = omega (arith, r.next) in
    let received : (seq.received + 1) % 2 ^ 8 ≡ suc seq.received =
      omega (arith, r.count_high, r.some_missing) in
    rw
      (
        index,
        received,
        take-set seq.received seq.parts s.payload (omega (arith, r.places, r.some_missing)),
      )
      refl

assemble-completed :
    (s : Sentence) (seq : Sequence)
    → HasRoom s seq
    → suc seq.received ≡ seq.part_count
    → assemble s (store_part s seq) ≡ completed s (pending_of seq)
unfolding store_part assemble
assemble-completed s seq r full =
    let index : s.part_index - 1 ≡ seq.received = omega (arith, r.next) in
    let all : set seq.parts seq.received s.payload ≡ take seq.received seq.parts ++ s.payload ∷ [] =
      sym (
        take_all (suc seq.received) (set seq.parts seq.received s.payload)
          (omega (arith, length-set seq.parts seq.received s.payload, r.places)))
      ∙ take-set seq.received seq.parts s.payload (omega (arith, r.places, r.some_missing)) in
    rw (index, all) refl

-- The end of `feed`, for a sequence in the map.
pub accept-more-Agrees :
    (id : ℕ) (s : Sentence) (seq : Sequence) (st : Sequences)
    → HasRoom s seq
    → find id st ≡ some seq
    → suc seq.received < seq.part_count
    → Agrees
        (accept id s seq st)
        (put id (some (extended s (pending_of seq))) (table_of st), pending)
unfolding outcome
accept-more-Agrees id s seq st r found more =
    let received = store_part-received s seq r in
    let count = store_part-part_count s seq in
    rw (accept-more id s seq st (omega (arith, more, received, count))) (
      table_of-update id seq (store_part s seq) st found ∙ rw (store_part-extended s seq r) refl,
      refl,
    )

pub accept-last-Agrees :
    (id : ℕ) (s : Sentence) (seq : Sequence) (st : Sequences)
    → HasRoom s seq
    → IsAssembler st
    → suc seq.received ≡ seq.part_count
    → Agrees
        (accept id s seq st)
        (put id none (table_of st), delivered (completed s (pending_of seq)))
unfolding outcome
accept-last-Agrees id s seq st r h full =
    let received = store_part-received s seq r in
    let count = store_part-part_count s seq in
    rw (accept-last id s seq st (omega (arith, full, received, count)))
      (table_of-erase id st h, rw (assemble-completed s seq r full) refl)

pub put-table_of :
    (id : ℕ) (seq : Sequence) (st : Sequences) (o : Option Pending)
    → put id o (table_of ((id, seq) ∷ st)) ≡ put id o (table_of st)
unfolding put table_of find
put-table_of id seq st o = fun_ext λ key. elim (Bool-cases (key == id)) [
  | inl e ↦ rw e refl
  | inr e ↦ let apart : (id == key) ≡ false = ground arith in rw (e, apart) refl
]
