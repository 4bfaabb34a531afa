-- ===== src/Assembler/Delivery.antt =====
-- The parts of a message that arrive in order, with sentences of other sequences in between, are put
-- together to the message.
use pgais.Base.{
  ℕ, suc, ◌+◌, ◌<◌, ◌≤◌, ◌≡◌, ◌≢◌, refl, ◌∙◌, arith, List, [], ◌∷◌, ◌++◌, append-nil, append_assoc,
  none, some, length, length-append, codes, text_eq,
}
use pgais.Error.{ok}
use pgais.Sentence.{Sentence}
use pgais.Assembler.{Sequences, find, concat, feed}
use pgais.Assembler.Invariant.{find-feed_ne}
use pgais.Assembler.Steps.{IsPart, Has, feed-Has, feed-last, feed-Has_first}

-- Sentences that bring the payloads `ps` of the parts behind part `k`, in order, among sentences with
-- other sequence numbers or none.
pub data Brings (id n : ℕ) (type : List ℕ) : ℕ → List (List ℕ) → List Sentence → Type 0 where
  nothing : (k : ℕ) → Brings id n type k [] []
  part :
      (k : ℕ) (s : Sentence) (ps : List (List ℕ)) (ss : List Sentence)
      → IsPart id n type (suc k) s
      → Brings id n type (suc k) ps ss
      → Brings id n type k (s.payload ∷ ps) (s ∷ ss)
  other :
      (k : ℕ) (s : Sentence) (ps : List (List ℕ)) (ss : List Sentence)
      → s.seq_id ≢ some id
      → Brings id n type k ps ss
      → Brings id n type k ps (s ∷ ss)

-- The state after sentences, one after the other.
unfoldable pub feed_all : List Sentence → Sequences → Sequences
feed_all [] st = st
feed_all (s ∷ ss) st = feed_all ss (feed s st).0

-- Sentences of other sequences keep it as well.
feed_all-Has :
    (id n : ℕ) (type talker : List ℕ) (ps : List (List ℕ)) {k : ℕ} {qs : List (List ℕ)}
    {ss : List Sentence} (st : Sequences)
    → Has id n type talker ps st
    → length ps ≡ k
    → 2 ≤ n
    → n ≤ 5
    → k + length qs < n
    → Brings id n type k qs ss
    → Has id n type talker (ps ++ qs) (feed_all ss st)
unfolding feed_all
feed_all-Has id n type talker ps st h e low high r (nothing k) = rw append-nil h
feed_all-Has id n type talker ps st h e low high r (part k s qs ss p b) =
    let next = feed-Has id n type talker ps st s h low high (omega arith) (rw e p) in
    let counted : length (ps ++ s.payload ∷ []) ≡ suc k =
      omega (arith, length-append ps (s.payload ∷ [])) in
    rw append_assoc at (
      feed_all-Has id n type talker (ps ++ s.payload ∷ []) (feed s st).0 next counted low high
        (omega arith) b)
feed_all-Has id n type talker ps st h e low high r (other k s qs ss ne b) =
    let kept : Has id n type talker ps (feed s st).0 = record {
      seq = h.seq;
      found = find-feed_ne s st id ne ∙ h.found;
      some_missing = h.some_missing;
      parts = h.parts;
      part_count = h.part_count;
      received = h.received;
      typed = h.typed;
      talker_kept = h.talker_kept;
      vessel_kept = h.vessel_kept;
    } in
    feed_all-Has id n type talker ps (feed s st).0 kept e low high r b

-- A message of 2 to 5 parts whose sequence number is not in use is put together when its last part
-- arrives, whatever sentences of other sequences come in between: the payloads in order, the last
-- part's fill bits, and the first part's talker and type.
pub feed-Brings :
    (id n : ℕ) (type : List ℕ) (st : Sequences) (first last : Sentence) (ps : List (List ℕ))
    (ss : List Sentence)
    → find id st ≡ none
    → n ≤ 5
    → length ps + 2 ≡ n
    → IsPart id n type 1 first
    → Brings id n type 1 ps ss
    → IsPart id n type n last
    → (feed last (feed_all ss (feed first st).0)).1
      ≡ ok (
          some (record {
            payload = first.payload ++ concat ps ++ last.payload;
            fill_bits = last.fill_bits;
            is_own_vessel = text_eq type (codes "VDO");
            talker = first.talker;
          }))
unfolding concat
feed-Brings id n type st first last ps ss absent high total p b q =
    let opened = feed-Has_first id n type st first absent (omega arith) high p in
    let h =
      feed_all-Has id n type first.talker (first.payload ∷ []) (feed first st).0 opened refl
        (omega arith) high (omega arith) b in
    feed-last id n type first.talker (first.payload ∷ ps) (feed_all ss (feed first st).0) last h
      (omega arith) high (omega arith) q
