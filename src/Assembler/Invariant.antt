-- ===== src/Assembler/Invariant.antt =====
-- The assembler's state: the invariant that `feed` and `reset` keep, what an error leaves, and what
-- other sequences see.
use pgais.Base.{
  ℕ, ◌<◌, ◌≤◌, ◌≡◌, ◌≢◌, inl, inr, refl, ap, arith, [], ◌∷◌, ◌==◌, Option, none, some, length, All,
  Bool-cases,
}
use pgais.Error.{Error, err}
use pgais.Sentence.{Sentence}
use pgais.Assembler.{
  Sequence, Sequences, find, erase, update, open_sequence, store_part, accept, feed_part,
  feed_multi, feed,
}

-- A feed that is refused leaves the state as it was.
pub feed-err :
    (s : Sentence) (st : Sequences) (e : Error) → (feed s st).1 ≡ err e → (feed s st).0 ≡ st
unfolding feed feed_multi feed_part accept
feed-err s st e h = ground arith

-- A sequence that waits: of its 2 to 5 parts some but not all were received.
pub record Waits (key : ℕ) (seq : Sequence) : Type 0 where
  pub key_fits : key ≤ 9
  pub count_high : seq.part_count ≤ 5
  pub some_received : 1 ≤ seq.received
  pub some_missing : seq.received < seq.part_count
  pub places : length seq.parts ≡ seq.part_count

-- The keys of the map differ from `key`.
abbrev pub NoKey : ℕ → Sequences → Type 0
NoKey key st = All (λ entry. entry.0 ≢ key) st

-- The invariant: every sequence waits, and no key occurs twice.
unfoldable pub IsAssembler : Sequences → Type 0
IsAssembler [] = Unit {0}
IsAssembler ((key, seq) ∷ st) = Waits key seq × NoKey key st × IsAssembler st

pub find-update_ne :
    (key other : ℕ) (seq : Sequence) (st : Sequences)
    → key ≢ other
    → find other (update key seq st) ≡ find other st
unfolding find update
find-update_ne key other seq [] h = refl
find-update_ne key other seq ((k, q) ∷ st) h =
    let rest = find-update_ne key other seq st h in ground arith

pub find-erase_ne :
    (key other : ℕ) (st : Sequences) → key ≢ other → find other (erase key st) ≡ find other st
unfolding find erase
find-erase_ne key other [] h = refl
find-erase_ne key other ((k, q) ∷ st) h = let rest = find-erase_ne key other st h in ground arith

find-accept_ne :
    (id other : ℕ) (s : Sentence) (seq : Sequence) (st : Sequences)
    → id ≢ other
    → find other (accept id s seq st).0 ≡ find other st
unfolding accept
find-accept_ne id other s seq st h =
    let updated = find-update_ne id other (store_part s seq) st h in
    let erased = find-erase_ne id other st h in ground arith

find-feed_part_ne :
    (id other : ℕ) (s : Sentence) (o : Option Sequence) (st : Sequences)
    → id ≢ other
    → find other (feed_part id s o st).0 ≡ find other st
unfolding feed_part find
find-feed_part_ne id other s none st h =
    let opened = find-accept_ne id other s (open_sequence s) ((id, open_sequence s) ∷ st) h in
    ground arith
find-feed_part_ne id other s (some seq) st h =
    let accepted = find-accept_ne id other s seq st h in ground arith

find-feed_multi_ne :
    (s : Sentence) (o : Option ℕ) (st : Sequences) (other : ℕ)
    → o ≢ some other
    → find other (feed_multi s o st).0 ≡ find other st
unfolding feed_multi
find-feed_multi_ne s none st other h = refl
find-feed_multi_ne s (some id) st other h =
    find-feed_part_ne id other s (find id st) st (λ p. h (ap (λ (k : ℕ). some k) p))

-- A sentence changes no sequence but the one of its own number.
pub find-feed_ne :
    (s : Sentence) (st : Sequences) (other : ℕ)
    → s.seq_id ≢ some other
    → find other (feed s st).0 ≡ find other st
unfolding feed
find-feed_ne s st other h = let multi = find-feed_multi_ne s s.seq_id st other h in ground arith

NoKey-update :
    (key id : ℕ) (seq : Sequence) (st : Sequences) → NoKey key st → NoKey key (update id seq st)
unfolding update
NoKey-update key id seq [] h = tt
NoKey-update key id seq ((k, q) ∷ st) h = elim (Bool-cases (k == id)) [
  | inl e ↦ rw e h
  | inr e ↦ rw e (h.0, NoKey-update key id seq st h.1)
]

NoKey-erase : (key id : ℕ) (st : Sequences) → NoKey key st → NoKey key (erase id st)
unfolding erase
NoKey-erase key id [] h = tt
NoKey-erase key id ((k, q) ∷ st) h = elim (Bool-cases (k == id)) [
  | inl e ↦ rw e h.1
  | inr e ↦ rw e (h.0, NoKey-erase key id st h.1)
]

pub update-IsAssembler :
    (id : ℕ) (seq : Sequence) (st : Sequences)
    → Waits id seq
    → IsAssembler st
    → IsAssembler (update id seq st)
unfolding update IsAssembler
update-IsAssembler id seq [] w h = tt
update-IsAssembler id seq ((k, q) ∷ st) w (wk, fresh, h) = elim (Bool-cases (k == id)) [
  | inl e ↦ let same : k ≡ id = ground arith in rw (e, same) (w, rw same at fresh, h)
  | inr e ↦ rw e (wk, NoKey-update k id seq st fresh, update-IsAssembler id seq st w h)
]

pub erase-IsAssembler : (id : ℕ) (st : Sequences) → IsAssembler st → IsAssembler (erase id st)
unfolding erase IsAssembler
erase-IsAssembler id [] h = tt
erase-IsAssembler id ((k, q) ∷ st) (wk, fresh, h) = elim (Bool-cases (k == id)) [
  | inl e ↦ rw e h
  | inr e ↦ rw e (wk, NoKey-erase k id st fresh, erase-IsAssembler id st h)
]

pub find-none : (key : ℕ) (st : Sequences) → find key st ≡ none → NoKey key st
unfolding find
find-none key [] h = tt
find-none key ((k, q) ∷ st) h = elim (Bool-cases (k == key)) [
  | inl e ↦ absurd (ground arith)
  | inr e ↦ (λ p. ground arith, find-none key st (ground arith))
]

pub find-some :
    (key : ℕ) (seq : Sequence) (st : Sequences)
    → IsAssembler st
    → find key st ≡ some seq
    → Waits key seq
unfolding find IsAssembler
find-some key seq [] h e = cc
find-some key seq ((k, q) ∷ st) (wk, fresh, h) e = elim (Bool-cases (k == key)) [
  | inl b ↦
      let same : k ≡ key = ground arith in
      let this : q ≡ seq = ground arith in rw (same, this) at wk
  | inr b ↦ find-some key seq st h (ground arith)
]
