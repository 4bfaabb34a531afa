-- ===== src/Assembler/Pending.antt =====
-- How many sequences the assembler's map can hold.
use pgais.Base.{
  ℕ, zero, suc, ◌<◌, ◌≤◌, ◌≡◌, ◌≢◌, inl, inr, arith, [], ◌∷◌, ◌==◌, length, All, Bool-cases,
}
use pgais.Sentence.{Sentence}
use pgais.Sentence.Valid.{IsSentence}
use pgais.Assembler.{Sequences, erase, feed, pending_count}
use pgais.Assembler.Invariant.{NoKey, IsAssembler, erase-IsAssembler}
use pgais.Assembler.Preservation.{feed-IsAssembler}

length-erase : (key : ℕ) (st : Sequences) → length st ≤ suc (length (erase key st))
unfolding erase
length-erase key [] = omega arith
length-erase key ((k, q) ∷ st) = elim (Bool-cases (k == key)) [
  | inl e ↦ rw e (omega arith)
  | inr e ↦ rw e (omega (arith, length-erase key st))
]

abbrev KeysBelow : ℕ → Sequences → Type 0
KeysBelow n st = All (λ entry. entry.0 < n) st

NoKey-below : (n : ℕ) (st : Sequences) → KeysBelow (suc n) st → NoKey n st → KeysBelow n st
NoKey-below n [] h k = tt
NoKey-below n ((key, q) ∷ st) h k =
    let first : key ≢ n = k.0 in
    let low : key < suc n = h.0 in (ground arith, NoKey-below n st h.1 k.1)

erase-KeysBelow :
    (n : ℕ) (st : Sequences) → IsAssembler st → KeysBelow (suc n) st → KeysBelow n (erase n st)
unfolding erase IsAssembler
erase-KeysBelow n [] h k = tt
erase-KeysBelow n ((key, q) ∷ st) (w, fresh, h) (low, k) = elim (Bool-cases (key == n)) [
  | inl e ↦ let same : key ≡ n = ground arith in rw e (NoKey-below n st k (rw same at fresh))
  | inr e ↦ rw e (ground arith, erase-KeysBelow n st h k)
]

length-KeysBelow : (n : ℕ) (st : Sequences) → IsAssembler st → KeysBelow n st → length st ≤ n
length-KeysBelow zero [] h k = omega arith
length-KeysBelow zero (entry ∷ st) h k = absurd (omega (arith, k.0))
length-KeysBelow (suc n) st h k = omega (
  arith,
  length-erase n st,
  length-KeysBelow n (erase n st) (erase-IsAssembler n st h) (erase-KeysBelow n st h k),
)

IsAssembler-below : (st : Sequences) → IsAssembler st → KeysBelow 10 st
unfolding IsAssembler
IsAssembler-below [] h = tt
IsAssembler-below ((key, q) ∷ st) (w, fresh, h) =
    (omega (arith, w.key_fits), IsAssembler-below st h)

pub pending_count-IsAssembler : (st : Sequences) → IsAssembler st → pending_count st ≤ 10
unfolding pending_count
pending_count-IsAssembler st h = length-KeysBelow 10 st h (IsAssembler-below st h)

-- After any sentence that `parse` can return, an assembler in good order has at most ten messages pending.
pub pending_count-feed :
    (s : Sentence) (st : Sequences)
    → IsSentence s
    → IsAssembler st
    → pending_count (feed s st).0 ≤ 10
pending_count-feed s st v h = pending_count-IsAssembler (feed s st).0 (feed-IsAssembler s st v h).0
